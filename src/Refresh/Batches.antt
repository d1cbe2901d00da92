-- ===== src/Refresh/Batches.antt =====
-- `account_scope_clause` and `scope_snapshot` of app/services.py, and the batches that `load_work`
-- and `process_account_job` of app/worker.py make of them. The table stands by growing id.
pub mod Walk
pub mod Counts
pub mod Turns
use token_loom.Prelude.{
  ℕ, zero, suc, ◌+◌, Bool, true, false, ◌&&◌, ◌||◌, not, Option, none, some, List, [], ◌∷◌, ◌++◌,
  map, filter, take, any, ltb, leb, ◌==◌, if◌then◌else◌, is_empty, length, max,
}
use token_loom.Prelude.Ints.{ℤ, is_nat}
use token_loom.Prelude.Paging.{behind, last_key}
use token_loom.Records.{
  Account, Job, JobScope, file, selected, everything, due, JobStatus, queued, completed, cancelled,
}
use token_loom.Refresh.Results.{is_due}

-- `Account.id.in_(ids or [-1])`; no id is -1
unfoldable pub in_ids : Option (List ℤ) → ℕ → Bool
in_ids none id = false
in_ids (some ids) id = any (λ k. is_nat k id) ids

-- the clauses of the scope, less those on the cursor and the largest id
unfoldable pub scope_test : ℕ → JobScope → Option (List ℤ) → Account → Bool
unfolding in_ids is_due
scope_test now selected ids a = in_ids ids a.id
scope_test now due ids a = is_due now a
scope_test now everything ids a = true
scope_test now file ids a = true

-- `if max_account_id: Account.id <= max_account_id`
unfoldable pub below_max : Option ℕ → ℕ → Bool
below_max none id = true
below_max (some m) id = if m == 0 then true else leb id m

-- `account_scope_clause(job)`, less `Account.id > job.cursor_id`
unfoldable pub in_scope : ℕ → Job → Account → Bool
unfolding scope_test below_max
in_scope now j a = below_max j.options.max_account_id a.id && scope_test now j.scope j.account_ids a

-- `load_work`: `WHERE … ORDER BY id LIMIT worker_batch_size`
unfoldable pub load_work : ℕ → ℕ → Job → List Account → List Account
unfolding behind in_scope
load_work now batch_size j rows =
    take batch_size (behind (λ a. a.id) (in_scope now j) j.cursor_id rows)

-- `max(item.id for item in accounts)`
unfoldable pub largest_id : List Account → ℕ
largest_id [] = 0
largest_id (a ∷ rows) = max a.id (largest_id rows)

-- `select(func.count(Account.id), func.max(Account.id)).where(…)`
unfoldable pub scope_snapshot : ℕ → JobScope → List ℤ → List Account → ℕ × ℕ
unfolding scope_test largest_id
scope_snapshot now scope ids rows =
    let found = filter (scope_test now scope (some ids)) rows in (length found, largest_id found)

unfoldable pub count_scope : ℕ → JobScope → List ℤ → List Account → ℕ
unfolding scope_snapshot
count_scope now scope ids rows = (scope_snapshot now scope ids rows).0

-- `if not accounts:` of `process_account_job`
unfoldable pub finish_empty : ℕ → Job → Job
finish_empty now j = record j {
  status = if j.cancel_requested then cancelled else completed;
  finished_at = some now;
  heartbeat_at = some now;
}

-- The writes to the job behind a batch of accounts, of which `success` and `failed` were updated.
unfoldable pub finish_batch : ℕ → ℕ → List Account → ℕ → ℕ → Job → Job
unfolding largest_id
finish_batch now batch_size accounts success failed j =
    let counted = record j {
      cursor_id = largest_id accounts;
      processed = j.processed + length accounts;
      succeeded = j.succeeded + success;
      failed = j.failed + failed;
      heartbeat_at = some now;
    } in
    if j.cancel_requested
    then record counted { status = cancelled; finished_at = some now }
    else if leb j.total (j.processed + length accounts) || ltb (length accounts) batch_size
    then record counted { status = completed; finished_at = some now }
    else record counted { status = queued }
