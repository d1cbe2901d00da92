-- ===== src/Api/Login/Keys.antt =====
-- Who gets into app/main.py, and what an attempt leaves of the throttle.
use token_loom.Prelude.{
  ℕ, ◌≡◌, Bool, true, Option, none, some, ltb, length, Text, strip, arith, Bool-cases, inl, inr,
}
use token_loom.Prelude.Utf8.{Bytes, encode}
use token_loom.Prelude.Dict
use token_loom.Auth.Attempts.{
  Attempts, prune_window, window_of, max_failed_attempts, reserve_login_attempt,
  clear_failed_logins,
}
use token_loom.Auth.Attempts.Throttle.{
  IsLimited, IsValid, reserve_login_attempt_lem, reserve_login_attempt-IsValid,
}
use token_loom.Auth.Session.{SessionSettings, SessionCodec, create_session}
use token_loom.Api.Login.{
  LoginAnswer, too_many, wrong_key, raised, welcome, verified_answer, check_key, settle, login,
}

pub check_key-welcome :
    (o : Option Bytes) (verified : Option Bool) (token : Text) {t : Text}
    → check_key o verified token ≡ welcome t
    → (verified ≡ some true) × (token ≡ t)
unfolding check_key verified_answer
check_key-welcome none verified token h = cc h
check_key-welcome (some b) none token h = ground (arith, h)
check_key-welcome (some b) (some right) token h = ground (arith, h)

settle-IsValid :
    (ip : Text) (now : ℕ) (answer : LoginAnswer) (d : Attempts)
    → IsValid now d
    → IsValid now (settle ip answer d)
unfolding settle clear_failed_logins
settle-IsValid ip now too_many d h = h
settle-IsValid ip now wrong_key d h = h
settle-IsValid ip now raised d h = h
settle-IsValid ip now (welcome token) d h = record {
  distinct = Dict.pop-IsDistinct ip d h.distinct;
  windows = Dict.pop-AllValues (IsLimited now) ip d h.windows;
  tracked = omega (arith, Dict.length-pop ip d, h.tracked);
}

module _ (verify : Text → Option Bool) (c : SessionCodec) (s : SessionSettings) where
  -- On a valid table, only an attempt with a key that verifies, of a client with fewer than eight
  -- attempts in its pruned deque, gets a session, and the session is the one created for it.
  pub login-welcome :
      (ip : Text) (now : ℕ) (csrf admin_key : Text) (d : Attempts) {token : Text}
      → IsValid now d
      → (login verify c s ip now csrf admin_key d).0 ≡ welcome token
      → (verify (strip admin_key) ≡ some true)
        × (ltb (length (prune_window now (window_of ip d))) max_failed_attempts ≡ true)
        × (token ≡ create_session c s now csrf)
  unfolding login
  login-welcome ip now csrf admin_key d h e =
      let key = strip admin_key in
      ground (
        arith,
        e,
        reserve_login_attempt_lem ip now d h.distinct,
        check_key-welcome (encode key) (verify key) (create_session c s now csrf),
      )

  -- An attempt leaves a valid table valid, whatever its answer is.
  login-IsValid :
      (ip : Text) (now : ℕ) (csrf admin_key : Text) (d : Attempts)
      → IsValid now d
      → IsValid now (login verify c s ip now csrf admin_key d).1
  unfolding login
  login-IsValid ip now csrf admin_key d h =
      let key = strip admin_key in
      let valid = reserve_login_attempt-IsValid ip now d h in
      elim (Bool-cases (reserve_login_attempt ip now d).0) [
        | inl e ↦ rw e (
            settle-IsValid ip now
              (check_key (encode key) (verify key) (create_session c s now csrf))
              (reserve_login_attempt ip now d).1 valid)
        | inr e ↦ rw e valid
      ]
