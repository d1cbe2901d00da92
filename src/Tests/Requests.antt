-- ===== src/Tests/Requests.antt =====
-- Sessions and the guard on small requests.
use token_loom.Prelude.{
  ℕ, ◌+◌, ◌*◌, ◌≡◌, ◌≢◌, ◌↔◌, ◌≤◌, refl, Bool, true, false, ◌&&◌, Option, none, some, List, [], ◌∷◌,
  ◌++◌, if◌then◌else◌, Text, text_eq, codes, length, Result, ok, err, arith,
}
use token_loom.Auth.Session.{
  SessionSettings, Request, Payload, Session, SessionCodec, no_session, cookie_name,
  http_cookie_name, session_token, create_session, read_session, require_csrf, is_ascii, client_ip,
  request_is_https, session_cookie_name,
}
use token_loom.Auth.Session.Tokens.{
  IsSoundAt, payload_of, IsAuthentic, read_session-create_session, read_session-IsAuthentic,
  require_csrf-ok,
}
use token_loom.Guard.{
  Message, request, other, Declared, natural, Scope, Outcome, forward, answer, guard, refusal,
}
use token_loom.Guard.Bounds.{IsAdmitted, guard-IsAdmitted}
use token_loom.Tests.Samples.{ascii_lower}

abbrev pub settings : SessionSettings
settings = record { session_hours = 12; trust_proxy_headers = false; trusted_proxy_ips = [] }

abbrev pub csrf : Text
csrf = codes "abcdefghijklmnop"

abbrev pub payload : Payload
payload = payload_of settings 1000 csrf

-- a codec that knows one payload
abbrev pub codec : SessionCodec
codec = record { sign = λ t. codes "5e"; pack = λ p. codes "eyJ"; unpack = λ t. some payload }

pub codec-IsSoundAt : IsSoundAt codec payload
unfolding is_ascii token_loom.Prelude.has_char
codec-IsSoundAt = record {
  unpack-pack = refl;
  ascii_pack = refl;
  ascii_sign = refl;
  plain_sign = refl;
}

abbrev header_of : Text → Text
header_of name = if text_eq name (codes "X-CSRF-Token") then csrf else []

abbrev cookie_of : Text → Text
cookie_of name = if text_eq name http_cookie_name then codes "eyJ.5e" else []

abbrev pub visit : Request
visit = record {
  scheme = codes "http";
  peer = some (codes "192.0.2.1");
  header = header_of;
  cookie = cookie_of;
}

token_of_visit : session_token ascii_lower settings visit ≡ create_session codec settings 1000 csrf
unfolding session_token create_session text_eq session_cookie_name request_is_https
    token_loom.Auth.Session.forwarded_proto token_loom.Auth.Session.request_uses_trusted_proxy
token_of_visit = refl

abbrev pub session : Session
session = record { issued_at = 1000; expires_at = 1000 + 12 * 3600; csrf = csrf }

read_session-create_session_example :
    read_session ascii_lower codec settings 2000 visit ≡ some session
read_session-create_session_example =
    read_session-create_session ascii_lower codec settings 1000 2000 csrf visit codec-IsSoundAt
      token_of_visit (omega arith) (omega arith) (omega arith) (omega arith)

session_read : read_session ascii_lower codec settings 2000 visit ≡ some session
unfolding read_session token_loom.Auth.Session.check_token token_loom.Prelude.rcut session_token
    text_eq session_cookie_name request_is_https token_loom.Auth.Session.forwarded_proto
    token_loom.Auth.Session.request_uses_trusted_proxy is_ascii
    token_loom.Auth.Session.check_payload
session_read = refl

read_session-IsAuthentic_example :
    IsAuthentic codec settings 2000 (session_token ascii_lower settings visit) session
read_session-IsAuthentic_example =
    read_session-IsAuthentic ascii_lower codec settings 2000 visit session_read

abbrev upper : Text → Text
upper t = t

abbrev two : Text → Declared
two t = natural 2

abbrev call : Request → Scope
call r = record {
  kind = codes "http";
  method = codes "POST";
  path = codes "/api/jobs";
  content_length = some (codes "2");
  request = r;
}

abbrev messages : List Message
messages = request (1 ∷ []) true ∷ other ∷ request (2 ∷ []) false ∷ []

pub visit_allowed : require_csrf ascii_lower codec settings 2000 visit ≡ ok session
unfolding is_ascii text_eq
visit_allowed =
    (require_csrf-ok ascii_lower codec settings 2000 visit session).1 (session_read, refl, refl)

body_forwarded :
    guard upper ascii_lower two codec settings 4096 2000 (call visit) messages
    ≡ forward (1 ∷ 2 ∷ [])
unfolding guard text_eq token_loom.Guard.is_mutation token_loom.Guard.check_length
    token_loom.Guard.request_body_limit token_loom.Prelude.starts_with
    token_loom.Guard.check_session token_loom.Guard.read_body
body_forwarded = rw visit_allowed refl

guard-IsAdmitted_example :
    IsAdmitted upper ascii_lower codec settings 4096 2000 (call visit) messages (1 ∷ 2 ∷ [])
guard-IsAdmitted_example =
    guard-IsAdmitted upper ascii_lower two codec settings 4096 2000 (call visit) messages
      body_forwarded

abbrev nothing : Text → Text
nothing name = []

abbrev pub stranger : Request
stranger = record visit { cookie = nothing }

pub stranger_refused : require_csrf ascii_lower codec settings 2000 stranger ≡ err no_session
unfolding require_csrf read_session token_loom.Auth.Session.check_token token_loom.Prelude.rcut
    session_token text_eq session_cookie_name request_is_https
    token_loom.Auth.Session.forwarded_proto token_loom.Auth.Session.request_uses_trusted_proxy
stranger_refused = refl
