-- ===== src/Api/Logout.antt =====
-- `logout` of app/main.py: the cookies that its answer deletes.
use token_loom.Prelude.{
  ℕ, ◌≡◌, refl, not, none, List, [], ◌∷◌, if◌then◌else◌, Text, text_eq, rcut, Result, ok, ◌>>=◌,
  >>=-eq-ok, Bool-cases, inl, inr, ◌⊎◌, if_true, if_false,
}
use token_loom.Auth.Session.{
  SessionSettings, Request, SessionCodec, Session, SessionError, cookie_name, http_cookie_name,
  request_is_https, forwarded_proto, request_uses_trusted_proxy, session_cookie_name, session_token,
  check_token, read_session, require_csrf, is_in,
}

module _ (lower : Text → Text) (c : SessionCodec) (s : SessionSettings) where
  unfoldable pub deleted_cookies : Request → List Text
  deleted_cookies r =
      let name = session_cookie_name lower s r in
      name ∷ (if not (text_eq name cookie_name) then cookie_name ∷ [] else [])

  -- the names of the cookies that the answer deletes
  unfoldable pub logout : ℕ → Request → Result SessionError (List Text)
  unfolding deleted_cookies
  logout now r = require_csrf lower c s now r >>= λ (_ : Session). ok (deleted_cookies r)

-- the request as the client makes it without these cookies
unfoldable pub without_cookies : List Text → Request → Request
unfolding is_in
without_cookies names r = record r {
  cookie = λ name. if is_in name names then [] else r.cookie name;
}

module _ (lower : Text → Text) (c : SessionCodec) (s : SessionSettings) where
  session_cookie_name-without :
      (names : List Text) (r : Request)
      → session_cookie_name lower s (without_cookies names r) ≡ session_cookie_name lower s r
  unfolding session_cookie_name request_is_https forwarded_proto request_uses_trusted_proxy
      without_cookies
  session_cookie_name-without names r = refl

  session_cookie_name-cases :
      (r : Request)
      → (session_cookie_name lower s r ≡ cookie_name)
        ⊎ (session_cookie_name lower s r ≡ http_cookie_name)
  unfolding session_cookie_name
  session_cookie_name-cases r = elim (Bool-cases (request_is_https lower s r)) [
    | inl e ↦ inl (if_true _ _ e)
    | inr e ↦ inr (if_false _ _ e)
  ]

  session_token-deleted :
      (r : Request) → session_token lower s (without_cookies (deleted_cookies lower c s r) r) ≡ []
  unfolding session_token deleted_cookies is_in text_eq without_cookies
  session_token-deleted r =
      rw (session_cookie_name-without (deleted_cookies lower c s r) r)
        (elim (session_cookie_name-cases r) [ inl e ↦ rw e refl | inr e ↦ rw e refl ])

  -- Where a logout succeeds, the same request without the cookies that its answer deletes has no
  -- session at any time.
  pub logout-ends :
      (now later : ℕ) (r : Request) {names : List Text}
      → logout lower c s now r ≡ ok names
      → read_session lower c s later (without_cookies names r) ≡ none
  unfolding logout read_session rcut check_token
  logout-ends now later r {names} h =
      let (session, passed, done) = >>=-eq-ok (require_csrf lower c s now r) _ h in
      let same : deleted_cookies lower c s r ≡ names = cc in
      rw (← same, session_token-deleted r) refl
