-- ===== src/Tests/Throttle.antt =====
-- The login throttle at work.
use token_loom.Prelude.{
  ℕ, ◌≡◌, ◌≤◌, refl, Bool, true, false, Option, some, List, [], ◌∷◌, ◌++◌, Text, text_eq, codes,
  ltb, if◌then◌else◌, length, arith,
}
use token_loom.Prelude.Dict
use token_loom.Prelude.Dict.{Dict, IsDistinct}
use token_loom.Auth.Attempts.{
  Attempts, attempt_window, max_failed_attempts, prune_window, window_of, reserve_login_attempt,
}
use token_loom.Auth.Attempts.Throttle.{IsValid}
use token_loom.Api.Login.Rate.{Logins, NeverVerifies, granted_logins, granted_logins-le}
use token_loom.Tests.Requests.{settings, codec, csrf}

abbrev client : Text
client = codes "192.0.2.1"

abbrev other_client : Text
other_client = codes "192.0.2.2"

abbrev none_yet : Attempts
none_yet = []

none_yet-IsValid : (now : ℕ) → IsValid now none_yet
none_yet-IsValid now = record { distinct = tt; windows = tt; tracked = omega arith }

abbrev full : Attempts
full = (client, 100 ∷ 101 ∷ 102 ∷ 103 ∷ 104 ∷ 105 ∷ 106 ∷ 107 ∷ []) ∷ []

refused_in_window : reserve_login_attempt client 900 full ≡ (false, full)
unfolding reserve_login_attempt token_loom.Auth.Attempts.prune_attempts prune_window window_of
    token_loom.Prelude.Dict.get token_loom.Prelude.text_eq token_loom.Prelude.Dict.put
refused_in_window = refl

granted_behind_window : (reserve_login_attempt client 1001 full).0 ≡ true
unfolding reserve_login_attempt token_loom.Auth.Attempts.prune_attempts prune_window window_of
    token_loom.Prelude.Dict.get token_loom.Prelude.text_eq
granted_behind_window = refl

full-IsDistinct : IsDistinct full
full-IsDistinct = (unfold Dict.contains in refl, tt)

full-IsValid : IsValid 900 full
full-IsValid = record {
  distinct = full-IsDistinct;
  windows = (record { limited = omega arith; ordered = ground arith }, tt);
  tracked = omega arith;
}

-- One refused, one granted when the oldest attempt has left the window, with a key that does not
-- verify, and another client that has the right key.
abbrev logins : Logins
logins =
    (client, 900, csrf, codes "x")
    ∷ (client, 1001, csrf, codes "x")
    ∷ (other_client, 1002, csrf, codes "k")
    ∷ []

abbrev verify : Text → Option Bool
verify key = some (text_eq key (codes "k"))

never_verifies : NeverVerifies verify codec settings client logins
unfolding text_eq token_loom.Prelude.strip token_loom.Prelude.is_space
never_verifies = (λ _ e. cc, (λ _ e. cc, (λ e. cc, tt)))

granted_logins-le_example :
    granted_logins verify codec settings client logins full ≤ max_failed_attempts
granted_logins-le_example =
    granted_logins-le verify codec settings 900 client logins full full-IsValid (ground arith)
      never_verifies (omega arith)
