-- ===== src/Api/Login.antt =====
-- `login` of app/main.py: the throttle, the key and the session of one attempt. `verify_admin_key` is
-- a parameter, which is none where it raises, and so is the session codec.
pub mod Keys
pub mod Rate
use token_loom.Prelude.{
  ℕ, Bool, true, false, not, Option, none, some, List, [], ltb, if◌then◌else◌, length, Text, strip,
}
use token_loom.Prelude.Utf8.{Bytes, encode}
use token_loom.Auth.Attempts.{Attempts, reserve_login_attempt, clear_failed_logins}
use token_loom.Auth.Session.{SessionSettings, SessionCodec, create_session}

-- The answers 429, 401 and 303 with the cookie, and an exception: the UnicodeEncodeError of a lone
-- surrogate, or what `verify_admin_key` does not catch.
pub data LoginAnswer : Type 0 where
  too_many wrong_key raised : LoginAnswer
  welcome : Text → LoginAnswer

unfoldable pub verified_answer : Option Bool → Text → LoginAnswer
verified_answer none token = raised
verified_answer (some right) token = if not right then wrong_key else welcome token

-- What is behind the reservation; a key that is too long is not verified.
unfoldable pub check_key : Option Bytes → Option Bool → Text → LoginAnswer
unfolding verified_answer
check_key none verified token = raised
check_key (some bytes) verified token =
    if ltb 512 (length bytes) then wrong_key else verified_answer verified token

-- `clear_failed_logins` follows a key that is right.
unfoldable pub settle : Text → LoginAnswer → Attempts → Attempts
settle ip (welcome token) d = clear_failed_logins ip d
settle ip too_many d = d
settle ip wrong_key d = d
settle ip raised d = d

module _ (verify : Text → Option Bool) (c : SessionCodec) (s : SessionSettings) where
  unfoldable pub login : Text → ℕ → Text → Text → Attempts → LoginAnswer × Attempts
  unfolding check_key settle
  login ip now csrf admin_key d =
      let key = strip admin_key in
      let (granted, d') = reserve_login_attempt ip now d in
      let answer = check_key (encode key) (verify key) (create_session c s now csrf) in
      if not granted then (too_many, d') else (answer, settle ip answer d')
