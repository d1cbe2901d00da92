-- ===== src/Api/Login/Rate.antt =====
-- How many logins of one client the throttle lets through in app/main.py, over a sequence of logins
-- of many clients.
use token_loom.Prelude.{
  ℕ, suc, ◌+◌, ◌≤◌, ◌≡◌, ◌≢◌, refl, ap, Bool, true, false, ◌&&◌, not, Option, none, some, List, [],
  ◌∷◌, if◌then◌else◌, length, Text, text_eq, strip, arith, inl, inr, Bool-cases,
}
use token_loom.Prelude.Utf8.{Bytes, encode}
use token_loom.Auth.Attempts.{
  Attempts, attempt_window, max_failed_attempts, max_tracked_clients, reserve_login_attempt,
  clear_failed_logins,
}
use token_loom.Auth.Attempts.Throttle.{IsValid}
use token_loom.Auth.Attempts.Rate.{Arrivals, arrive, granted_to, IsTimed, IsFailing, granted_to-le}
use token_loom.Auth.Session.{SessionSettings, SessionCodec, create_session}
use token_loom.Api.Login.{
  LoginAnswer, too_many, wrong_key, raised, welcome, verified_answer, check_key, settle, login,
}
use token_loom.Api.Login.Keys.{check_key-welcome}

-- Logins as they arrive: the client's address, the instant, the new csrf and the key that is given.
abbrev pub Logins : Type 0
Logins = List (Text × ℕ × Text × Text)

abbrev is_too_many : LoginAnswer → Bool
is_too_many too_many = true
is_too_many _ = false

abbrev is_welcome : LoginAnswer → Bool
is_welcome (welcome _) = true
is_welcome _ = false

check_key-tried :
    (o : Option Bytes) (verified : Option Bool) (token : Text)
    → is_too_many (check_key o verified token) ≡ false
unfolding check_key verified_answer
check_key-tried none verified token = refl
check_key-tried (some bytes) none token = ground arith
check_key-tried (some bytes) (some right) token = ground arith

settle-clears :
    (ip : Text) (answer : LoginAnswer) (d : Attempts)
    → settle ip answer d ≡ (if is_welcome answer then clear_failed_logins ip d else d)
unfolding settle
settle-clears ip too_many d = refl
settle-clears ip wrong_key d = refl
settle-clears ip raised d = refl
settle-clears ip (welcome token) d = refl

welcome-of : (answer : LoginAnswer) → is_welcome answer ≡ true → (t : Text) × (answer ≡ welcome t)
welcome-of too_many e = cc
welcome-of wrong_key e = cc
welcome-of raised e = cc
welcome-of (welcome t) e = (t, refl)

module _ (verify : Text → Option Bool) (c : SessionCodec) (s : SessionSettings) where
  -- how many of the logins of one client are not answered by 429
  unfoldable pub granted_logins : Text → Logins → Attempts → ℕ
  granted_logins ip [] d = 0
  granted_logins ip ((j, now, csrf, key) ∷ rest) d =
      let (answer, d') = login verify c s j now csrf key d in
      let n = granted_logins ip rest d' in
      if text_eq j ip && not (is_too_many answer) then suc n else n

  -- The clock never goes back, and no login is later than `limit`.
  abbrev pub InTime : ℕ → ℕ → Logins → Type 0
  InTime now limit [] = Unit
  InTime now limit ((j, t, csrf, key) ∷ rest) = (now ≤ t) × (t ≤ limit) × InTime t limit rest

  -- The client never gives a key that verifies.
  abbrev pub NeverVerifies : Text → Logins → Type 0
  NeverVerifies ip [] = Unit
  NeverVerifies ip ((j, t, csrf, key) ∷ rest) =
      (text_eq j ip ≡ true → verify (strip key) ≢ some true) × NeverVerifies ip rest

  right_key : ℕ → Text → Text → Bool
  right_key now csrf key =
      is_welcome (check_key (encode (strip key)) (verify (strip key)) (create_session c s now csrf))

  abbrev as_arrivals : Logins → Arrivals
  as_arrivals [] = []
  as_arrivals ((j, now, csrf, key) ∷ rest) = (j, now, right_key now csrf key) ∷ as_arrivals rest

  -- one login is one arrival at the throttle
  login-arrive :
      (j : Text) (now : ℕ) (csrf key : Text) (d : Attempts)
      → ((login verify c s j now csrf key d).1 ≡ arrive j now (right_key now csrf key) d)
        × (not (is_too_many (login verify c s j now csrf key d).0)
            ≡ (reserve_login_attempt j now d).0)
  unfolding login arrive right_key
  login-arrive j now csrf key d =
      let answer =
        check_key (encode (strip key)) (verify (strip key)) (create_session c s now csrf) in
      let tried =
        check_key-tried (encode (strip key)) (verify (strip key)) (create_session c s now csrf) in
      let cleared = settle-clears j answer (reserve_login_attempt j now d).1 in
      elim (Bool-cases (reserve_login_attempt j now d).0) [
        | inl e ↦ rw (e, cleared, tried) (refl, refl)
        | inr e ↦ rw e (refl, refl)
      ]

  granted_logins-eq :
      (ip : Text) (reqs : Logins) (d : Attempts)
      → granted_logins ip reqs d ≡ granted_to ip (as_arrivals reqs) d
  unfolding granted_logins granted_to
  granted_logins-eq ip [] d = refl
  granted_logins-eq ip ((j, now, csrf, key) ∷ rest) d =
      let (same, granted) = login-arrive j now csrf key d in
      let ih = granted_logins-eq ip rest (arrive j now (right_key now csrf key) d) in
      rw (same, granted, ih) refl

  as_arrivals-IsTimed :
      (now limit : ℕ) (reqs : Logins) → InTime now limit reqs → IsTimed now limit (as_arrivals reqs)
  as_arrivals-IsTimed now limit [] h = tt
  as_arrivals-IsTimed now limit ((j, t, csrf, key) ∷ rest) h =
      (h.0, h.1, as_arrivals-IsTimed t limit rest h.2)

  right_key-wrong :
      (now : ℕ) (csrf key : Text) → verify (strip key) ≢ some true → right_key now csrf key ≡ false
  unfolding right_key
  right_key-wrong now csrf key wrong =
      let answer =
        check_key (encode (strip key)) (verify (strip key)) (create_session c s now csrf) in
      elim (Bool-cases (is_welcome answer)) [
        | inr e ↦ e
        | inl e ↦
            let (t, w) = welcome-of answer e in
            absurd (wrong (check_key-welcome (encode (strip key)) (verify (strip key)) _ w).0)
      ]

  as_arrivals-IsFailing :
      (ip : Text) (reqs : Logins) → NeverVerifies ip reqs → IsFailing ip (as_arrivals reqs)
  as_arrivals-IsFailing ip [] h = tt
  as_arrivals-IsFailing ip ((j, t, csrf, key) ∷ rest) h =
      (λ own. right_key-wrong t csrf key (h.0 own), as_arrivals-IsFailing ip rest h.1)

  length-as_arrivals : (reqs : Logins) → length (as_arrivals reqs) ≡ length reqs
  length-as_arrivals [] = refl
  length-as_arrivals (r ∷ rest) = ap suc (length-as_arrivals rest)

  -- While the clock does not go back, at most eight logins of a client that never gives a key that
  -- verifies get past the throttle within fifteen minutes, whether or not other clients log in, from
  -- a valid table that all the logins leave below its limit of clients.
  pub granted_logins-le :
      (since : ℕ) (ip : Text) (reqs : Logins) (d : Attempts)
      → IsValid since d
      → InTime since (since + attempt_window) reqs
      → NeverVerifies ip reqs
      → length d + length reqs ≤ max_tracked_clients
      → granted_logins ip reqs d ≤ max_failed_attempts
  granted_logins-le since ip reqs d h t failing room =
      let bound =
        granted_to-le since ip (as_arrivals reqs) d h
          (as_arrivals-IsTimed since (since + attempt_window) reqs t)
          (as_arrivals-IsFailing ip reqs failing) (omega (arith, room, length-as_arrivals reqs)) in
      omega (arith, bound, granted_logins-eq ip reqs d)
