-- ===== src/Auth/Session/Proxies.antt =====
-- Whose headers app/auth.py believes about a request.
use token_loom.Prelude.{◌≡◌, refl, false, ◌&&◌, Option, [], Text, codes}
use token_loom.Auth.Session.{
  SessionSettings, Request, text_or, is_in, request_uses_trusted_proxy, forwarded_proto,
  request_is_https, session_cookie_name, client_ip,
}

-- the request with other headers
abbrev pub with_headers : (Text → Text) → Request → Request
with_headers h r = record r { header = h }

module _ (lower : Text → Text) (ip_address : Text → Option Text) (s : SessionSettings) where
  -- Where the peer is no trusted proxy, under either of the names that the code gives to a missing
  -- one, no header changes the address of the client, the scheme or the cookie's name.
  headers_ignored :
      (h : Text → Text) (r : Request)
      → s.trust_proxy_headers && is_in (text_or [] r.peer) s.trusted_proxy_ips ≡ false
      → s.trust_proxy_headers && is_in (text_or (codes "unknown") r.peer) s.trusted_proxy_ips
        ≡ false
      → (client_ip ip_address s (with_headers h r) ≡ client_ip ip_address s r)
        × (request_is_https lower s (with_headers h r) ≡ request_is_https lower s r)
        × (session_cookie_name lower s (with_headers h r) ≡ session_cookie_name lower s r)
  unfolding client_ip request_is_https session_cookie_name forwarded_proto
      request_uses_trusted_proxy
  headers_ignored h r e f = (rw f refl, rw e refl, rw e refl)
