-- ===== src/Tests/Logins.antt =====
-- A login with the right key, and one with a wrong key.
use token_loom.Prelude.{
  ℕ, ◌≡◌, refl, Bool, true, false, Option, some, if◌then◌else◌, List, [], ◌∷◌, ◌++◌, Text, text_eq,
  codes, strip, ltb, length, arith,
}
use token_loom.Auth.Attempts.{Attempts, max_failed_attempts, prune_window, window_of}
use token_loom.Auth.Attempts.Throttle.{IsValid}
use token_loom.Auth.Keys.{matches, mismatch, verify_admin_key}
use token_loom.Auth.Session.{create_session}
use token_loom.Api.Login.{welcome, wrong_key, login}
use token_loom.Api.Login.Keys.{login-welcome}
use token_loom.Tests.Requests.{settings, codec, csrf}

abbrev client : Text
client = codes "192.0.2.1"

abbrev verify : Text → Option Bool
verify =
    verify_admin_key (λ _ key. if text_eq key (codes "k") then matches else mismatch) (codes "h")

abbrev none_yet : Attempts
none_yet = []

none_yet-IsValid : IsValid 10 none_yet
none_yet-IsValid = record { distinct = tt; windows = tt; tracked = omega arith }

welcomed :
    (login verify codec settings client 10 csrf (codes " k ") none_yet).0 ≡ welcome (codes "eyJ.5e")
unfolding login token_loom.Auth.Attempts.reserve_login_attempt
    token_loom.Auth.Attempts.prune_attempts prune_window window_of token_loom.Prelude.Dict.get
    token_loom.Prelude.Utf8.encode strip token_loom.Prelude.is_space text_eq verify_admin_key
    create_session
welcomed = refl

login-welcome_example :
    (verify (strip (codes " k ")) ≡ some true)
    × (ltb (length (prune_window 10 (window_of client none_yet))) max_failed_attempts ≡ true)
    × (codes "eyJ.5e" ≡ create_session codec settings 10 csrf)
login-welcome_example =
    login-welcome verify codec settings client 10 csrf (codes " k ") none_yet none_yet-IsValid
      welcomed

wrong_refused : (login verify codec settings client 10 csrf (codes "x") none_yet).0 ≡ wrong_key
unfolding login token_loom.Auth.Attempts.reserve_login_attempt
    token_loom.Auth.Attempts.prune_attempts prune_window window_of token_loom.Prelude.Dict.get
    token_loom.Prelude.Utf8.encode strip token_loom.Prelude.is_space text_eq verify_admin_key
wrong_refused = refl
