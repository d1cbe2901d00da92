-- ===== src/Auth/Keys.antt =====
-- `verify_admin_key` of app/auth.py. What argon2 says of a hash and a key is a parameter; the slots of
-- the semaphore only bound how many verify at one time.
use token_loom.Prelude.{Bool, true, false, Option, none, some, if◌then◌else◌, is_empty, Text}

-- `PasswordHasher.verify` returns, or raises one of its exceptions.
pub data Verified : Type 0 where
  matches mismatch invalid_hash other_failure : Verified

-- an exception that is not caught is none
unfoldable pub caught : Verified → Option Bool
caught matches = some true
caught mismatch = some false
caught invalid_hash = some false
caught other_failure = none

unfoldable pub verify_admin_key : (Text → Text → Verified) → Text → Text → Option Bool
unfolding caught
verify_admin_key verify admin_key_hash value =
    if is_empty admin_key_hash then some false else caught (verify admin_key_hash value)
