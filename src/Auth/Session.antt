-- ===== src/Auth/Session.antt =====
-- The sessions of app/auth.py: the cookie, who signs it and how long it counts, and which address a
-- request comes from. HMAC, the JSON payload in base64, `str.lower` and `ip_address` are parameters.
pub mod Tokens
pub mod Proxies
use token_loom.Prelude.{
  ℕ, ◌+◌, ◌*◌, Bool, true, false, ◌&&◌, ◌||◌, not, Option, none, some, List, [], ◌∷◌, ◌++◌, ltb,
  leb, if◌then◌else◌, is_empty, length, any, all, Text, text_eq, codes, strip, cut, rcut, Result,
  ok, err,
}

-- the settings that this part reads
pub record SessionSettings : Type 0 where
  pub session_hours : ℕ
  pub trust_proxy_headers : Bool
  pub trusted_proxy_ips : List Text

-- A request: `client.host`, and what `headers.get(name, "")` and `cookies.get(name, "")` return.
pub record Request : Type 0 where
  pub scheme : Text
  pub peer : Option Text
  pub header : Text → Text
  pub cookie : Text → Text

-- `COOKIE_NAME` and `HTTP_COOKIE_NAME`
abbrev pub cookie_name : Text
cookie_name = codes "token_loom_session"

abbrev pub http_cookie_name : Text
http_cookie_name = codes "token_loom_session_http"

-- the JSON object of a session; `csrf` is none where it is no string
pub record Payload : Type 0 where
  pub iat : ℕ
  pub exp : ℕ
  pub csrf : Option Text

-- what `read_session` returns
pub record Session : Type 0 where
  pub issued_at : ℕ
  pub expires_at : ℕ
  pub csrf : Text

-- `sign` is `_sign` on ASCII; `pack` is the JSON text in base64 without its padding, and `unpack`
-- reads it back, none where a step raises ValueError.
pub record SessionCodec : Type 0 where
  pub sign : Text → Text
  pub pack : Payload → Text
  pub unpack : Text → Option Payload

-- `str.encode("ascii")` and `hmac.compare_digest` take such texts alone.
unfoldable pub is_ascii : Text → Bool
is_ascii s = all (λ c. ltb c 128) s

abbrev pub text_or : Text → Option Text → Text
text_or d none = d
text_or d (some t) = t

unfoldable pub is_in : Text → List Text → Bool
is_in t ts = any (λ x. text_eq x t) ts

-- `s.split(",", 1)[0]`
abbrev pub first_part : Text → Option (Text × Text) → Text
first_part s none = s
first_part s (some (a, b)) = a

unfoldable pub request_uses_trusted_proxy : SessionSettings → Request → Bool
unfolding is_in
request_uses_trusted_proxy s r =
    s.trust_proxy_headers && is_in (text_or [] r.peer) s.trusted_proxy_ips

module _ (lower : Text → Text) (s : SessionSettings) where
  unfoldable pub forwarded_proto : Request → Text
  forwarded_proto r =
      let proto = r.header (codes "X-Forwarded-Proto") in
      if request_uses_trusted_proxy s r
      then lower (strip (first_part proto (cut b',' proto)))
      else []

  unfoldable pub request_is_https : Request → Bool
  request_is_https r =
      text_eq r.scheme (codes "https") || text_eq (forwarded_proto r) (codes "https")

  unfoldable pub session_cookie_name : Request → Text
  session_cookie_name r = if request_is_https r then cookie_name else http_cookie_name

  -- the cookie that `read_session` takes
  unfoldable pub session_token : Request → Text
  session_token r =
      let name = session_cookie_name r in
      if is_empty (r.cookie name) && text_eq name http_cookie_name
      then r.cookie cookie_name
      else r.cookie name

module _ (ip_address : Text → Option Text) (s : SessionSettings) where
  abbrev or_peer : Request → Option Text → Text
  or_peer r (some address) = address
  or_peer r none = text_or (codes "unknown") (ip_address (text_or (codes "unknown") r.peer))

  unfoldable pub client_ip : Request → Text
  unfolding is_in
  client_ip r =
      let candidate = strip (r.header (codes "X-Real-IP")) in
      if s.trust_proxy_headers && is_in (text_or (codes "unknown") r.peer) s.trusted_proxy_ips
      then or_peer r (if is_empty candidate then none else ip_address candidate)
      else or_peer r none

-- `secrets.token_urlsafe(24)` is the argument `csrf`
unfoldable pub create_session : SessionCodec → SessionSettings → ℕ → Text → Text
create_session c s now csrf =
    let encoded =
      c.pack (record { iat = now; exp = now + s.session_hours * 3600; csrf = some csrf }) in
    encoded ++ b'.' ∷ c.sign encoded

unfoldable pub check_csrf : Payload → Option Text → Option Session
check_csrf p none = none
check_csrf p (some csrf) =
    if leb 16 (length csrf) && leb (length csrf) 128
    then some (record { issued_at = p.iat; expires_at = p.exp; csrf = csrf })
    else none

-- the checks on what the cookie holds
unfoldable pub check_payload : SessionSettings → ℕ → Option Payload → Option Session
unfolding check_csrf
check_payload s now none = none
check_payload s now (some p) =
    if ltb (now + 60) p.iat || ltb p.exp now || ltb (p.iat + s.session_hours * 3600 + 60) p.exp
    then none
    else check_csrf p p.csrf

unfoldable pub check_token :
    SessionCodec → SessionSettings → ℕ → Option (Text × Text) → Option Session
check_token c s now none = none
check_token c s now (some (encoded, signature)) =
    if is_ascii encoded && is_ascii signature && text_eq (c.sign encoded) signature
    then check_payload s now (c.unpack encoded)
    else none

-- 401, 403, and the TypeError of `compare_digest` that nothing catches
pub data SessionError : Type 0 where
  no_session bad_csrf not_comparable : SessionError

module _ (lower : Text → Text) (c : SessionCodec) (s : SessionSettings) where
  unfoldable pub read_session : ℕ → Request → Option Session
  read_session now r = check_token c s now (rcut b'.' (session_token lower s r))

  unfoldable pub compare_csrf : Text → Option Session → Result SessionError Session
  compare_csrf supplied none = err no_session
  compare_csrf supplied (some session) =
      if not (is_ascii session.csrf && is_ascii supplied)
      then err not_comparable
      else if not (text_eq session.csrf supplied)
      then err bad_csrf
      else ok session

  unfoldable pub require_csrf : ℕ → Request → Result SessionError Session
  unfolding compare_csrf
  require_csrf now r = compare_csrf (r.header (codes "X-CSRF-Token")) (read_session now r)
