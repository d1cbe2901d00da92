-- ===== src/Api/Pages.antt =====
-- The two pages of app/main.py, `index` and `login_page`, the cookie that `login` sets, and the
-- headers that `security_headers` adds. A header's name is in small letters, as Starlette sets it.
use token_loom.Prelude.{
  ℕ, ◌+◌, ◌*◌, ◌≤◌, ◌≡◌, refl, sym, ap, ◌∙◌, Bool, true, false, ◌&&◌, ◌||◌, Option, none, some, [],
  ◌∷◌, ◌++◌, if◌then◌else◌, is_empty, length, Text, text_eq, text_eq_refl, codes, starts_with,
}
use token_loom.Prelude.Dict.{Dict, put}
use token_loom.Auth.Session.{
  SessionSettings, Request, SessionCodec, is_in, request_is_https, forwarded_proto,
  request_uses_trusted_proxy, session_cookie_name, session_token, create_session, read_session,
}
use token_loom.Auth.Session.Tokens.{IsSoundAt, payload_of, read_session-create_session}
use token_loom.Api.Defaults.{update_all}
use token_loom.Api.Login.{LoginAnswer, too_many, wrong_key, raised, welcome}

-- an answer: a redirect with status 303, or a page with what it shows
pub data PageAnswer : Type 0 where
  redirect : Text → PageAnswer
  login_form : Bool → PageAnswer
  home : Text → PageAnswer

-- the arguments of `set_cookie`
pub record SetCookie : Type 0 where
  pub name : Text
  pub value : Text
  pub max_age : ℕ
  pub http_only : Bool
  pub secure : Bool
  pub same_site : Text
  pub path : Text

module _ (lower : Text → Text) (c : SessionCodec) (s : SessionSettings) where
  unfoldable pub index : ℕ → Request → PageAnswer
  index now r = elim (read_session lower c s now r) [
    | none ↦ redirect (codes "/login")
    | some session ↦ home session.csrf
  ]

  unfoldable pub login_page : ℕ → Request → PageAnswer
  login_page now r = elim (read_session lower c s now r) [
    | none ↦ login_form (request_is_https lower s r)
    | some _ ↦ redirect (codes "/")
  ]

  -- `cookie_secure` is the setting of that name
  unfoldable pub session_cookie : Bool → Request → Text → SetCookie
  session_cookie cookie_secure r token = record {
    name = session_cookie_name lower s r;
    value = token;
    max_age = s.session_hours * 3600;
    http_only = true;
    secure = cookie_secure || request_is_https lower s r;
    same_site = codes "strict";
    path = codes "/";
  }

  -- the cookie of the answer to a login
  unfoldable pub login_cookie : Bool → Request → LoginAnswer → Option SetCookie
  unfolding session_cookie
  login_cookie cookie_secure r (welcome token) = some (session_cookie cookie_secure r token)
  login_cookie cookie_secure r too_many = none
  login_cookie cookie_secure r wrong_key = none
  login_cookie cookie_secure r raised = none

-- the request as the client makes it with that cookie
unfoldable pub with_cookie : SetCookie → Request → Request
with_cookie b r = record r {
  cookie = λ name. if text_eq b.name name then b.value else r.cookie name;
}

-- the assignments that every response goes through
abbrev pub fixed_headers : Dict Text
fixed_headers =
    (codes "x-content-type-options", codes "nosniff")
    ∷ (codes "x-frame-options", codes "DENY")
    ∷ (codes "referrer-policy", codes "no-referrer")
    ∷ (codes "permissions-policy", codes "camera=(), microphone=(), geolocation=()")
    ∷ (codes "cross-origin-opener-policy", codes "same-origin")
    ∷ (codes "cross-origin-resource-policy", codes "same-origin")
    ∷ (codes "x-permitted-cross-domain-policies", codes "none")
    ∷ (
      codes "content-security-policy",
      codes
          "default-src 'self'; script-src 'self'; style-src 'self'; img-src 'self' data:; connect-src 'self'; font-src 'self'; frame-ancestors 'none'; base-uri 'self'; form-action 'self'",
    )
    ∷ []

unfoldable pub is_private_path : Text → Bool
is_private_path path =
    starts_with (codes "/api/") path || is_in path (codes "/" ∷ codes "/login" ∷ [])

module _ (lower : Text → Text) (s : SessionSettings) where
  unfoldable pub security_headers : Text → Request → Text → Dict Text → Dict Text
  unfolding is_private_path
  security_headers app_env r path headers =
      let fixed = update_all headers fixed_headers in
      let stored =
        if is_private_path path
        then put (codes "cache-control") (codes "no-store") fixed
        else fixed in
      if text_eq app_env (codes "production") && request_is_https lower s r
      then put (codes "strict-transport-security") (codes "max-age=31536000; includeSubDomains")
          stored
      else stored

is_empty-dot : (a b : Text) → is_empty (a ++ b'.' ∷ b) ≡ false
is_empty-dot [] b = refl
is_empty-dot (x ∷ a) b = refl

module _ (lower : Text → Text) (c : SessionCodec) (s : SessionSettings) where
  cookie_name-with :
      (b : SetCookie) (r : Request)
      → session_cookie_name lower s (with_cookie b r) ≡ session_cookie_name lower s r
  unfolding session_cookie_name request_is_https forwarded_proto request_uses_trusted_proxy
      with_cookie
  cookie_name-with b r = refl

  session_token-with :
      (b : SetCookie) (r : Request)
      → session_cookie_name lower s r ≡ b.name
      → is_empty b.value ≡ false
      → session_token lower s (with_cookie b r) ≡ b.value
  unfolding session_token with_cookie
  session_token-with b r named full =
      let name : session_cookie_name lower s (with_cookie b r) ≡ b.name =
        cookie_name-with b r ∙ named in
      rw (name, text_eq_refl b.name, full) refl

  created_token-with :
      (cookie_secure : Bool) (created : ℕ) (csrf : Text) (r : Request)
      → session_token lower s (
          with_cookie
            (session_cookie lower c s cookie_secure r (create_session c s created csrf))
            r)
        ≡ create_session c s created csrf
  unfolding session_cookie create_session
  created_token-with cookie_secure created csrf r =
      let encoded = c.pack (payload_of s created csrf) in
      session_token-with
        (session_cookie lower c s cookie_secure r (create_session c s created csrf)) r refl
        (is_empty-dot encoded (c.sign encoded))

  -- For a sound codec, an answer to a login that sets a cookie for a new session lets the client in:
  -- until the session is over, and not before a minute ahead, the same request with the cookie gets
  -- the page with the csrf of the session, and the login page sends it there.
  pub login_cookie-index :
      (cookie_secure : Bool) (created now : ℕ) (csrf : Text) (r : Request) {b : SetCookie}
      → IsSoundAt c (payload_of s created csrf)
      → login_cookie lower c s cookie_secure r (welcome (create_session c s created csrf)) ≡ some b
      → created ≤ now + 60
      → now ≤ created + s.session_hours * 3600
      → 16 ≤ length csrf
      → length csrf ≤ 128
      → (index lower c s now (with_cookie b r) ≡ home csrf)
        × (login_page lower c s now (with_cookie b r) ≡ redirect (codes "/"))
  unfolding login_cookie index login_page
  login_cookie-index cookie_secure created now csrf r {b} sound e fresh alive long short =
      let same : session_cookie lower c s cookie_secure r (create_session c s created csrf) ≡ b =
        cc in
      let read =
        read_session-create_session lower c s created now csrf (with_cookie b r) sound
          (ap (λ d. session_token lower s (with_cookie d r)) (sym same)
            ∙ created_token-with cookie_secure created csrf r)
          fresh alive long short in
      (rw (index, read) refl, rw (login_page, read) refl)
