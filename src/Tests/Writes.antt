-- ===== src/Tests/Writes.antt =====
-- The routes that write, asked by the visit of the other tests.
use token_loom.Prelude.{
  ℕ, ◌≡◌, refl, Bool, true, false, Option, none, some, List, [], ◌∷◌, Text, codes, Result, err,
}
use token_loom.Prelude.Ints.{ℤ, pos}
use token_loom.Records.{queued}
use token_loom.Jobs.Queue.{no_such_job}
use token_loom.Auth.Session.{no_session}
use token_loom.Auth.Keys.{matches, mismatch, other_failure, verify_admin_key}
use token_loom.Api.Writes.{Tables, RouteError, session, cancel, Call, stop, respond}
use token_loom.Tests.Requests.{settings, codec, visit, visit_allowed, stranger, stranger_refused}
use token_loom.Tests.Samples.{ascii_lower, same_text, job_of}

abbrev no_bool : Text → Bool
no_bool t = false

abbrev one : Text → Option ℤ
one t = some (pos 1)

abbrev no_digit : ℕ → Bool
no_digit c = false

abbrev tables : Tables
tables = record {
  jobs = job_of (codes "a") queued 0 1 false none ∷ [];
  accounts = [];
  policy = none;
  events = [];
}

abbrev marked : Tables
marked = record tables {
  jobs = job_of (codes "a") queued 0 1 true none ∷ [];
  events =
      record { action = codes "job_cancel_requested"; ip_hash = codes "unknown"; created_at = 2000 }
      ∷ [];
}

abbrev no_address : Text → Option Text
no_address t = none

no_job_there :
    respond ascii_lower codec settings no_address same_text no_bool one no_digit no_bool 2000 visit
      (stop (codes "b"))
      tables
    ≡ err (cancel no_such_job)
unfolding respond token_loom.Jobs.Queue.cancel_job token_loom.Jobs.Queue.find_job
    token_loom.Prelude.text_eq
no_job_there = rw visit_allowed refl

nobody_there :
    respond ascii_lower codec settings no_address same_text no_bool one no_digit no_bool 2000
      stranger
      (stop (codes "a"))
      tables
    ≡ err (session no_session)
unfolding respond
nobody_there = rw stranger_refused refl

-- Without a hash no key is right; a failure that is neither a mismatch nor a bad hash goes on.
no_hash : verify_admin_key (λ _ _. matches) [] (codes "k") ≡ some false
unfolding verify_admin_key
no_hash = refl

wrong_key_refused : verify_admin_key (λ _ _. mismatch) (codes "$argon2") (codes "k") ≡ some false
unfolding verify_admin_key
wrong_key_refused = refl

failure_raised : verify_admin_key (λ _ _. other_failure) (codes "$argon2") (codes "k") ≡ none
unfolding verify_admin_key
failure_raised = refl
