-- ===== src/Worker/Lifecycle.antt =====
-- The writes that app/worker.py and app/main.py make to the row of a job, with what is true of the row
-- where the machine makes them: the times of a job go on agreeing with its status.
pub mod Starts
use token_loom.Prelude.{
  ℕ, ◌≡◌, ◌≢◌, refl, Bool, true, false, ◌||◌, Option, none, some, List, Text, arith, if◌then◌else◌,
  inl, inr, Bool-cases, if_true, if_false,
}
use token_loom.Records.{Account, Job, JobStatus, queued, running, completed, failed, cancelled}
use token_loom.Jobs.Queue.{
  is_queued, is_running, is_active, recover_job, start_claimed, cancel_claimed, fail_claimed, beat,
  request_cancel, or_now,
}
use token_loom.Import.Batch.{Batch, finish_import}
use token_loom.Refresh.Batches.{finish_batch, finish_empty}

-- `cancel_job` reads the status and writes its mark in two statements, so the mark can also come
-- behind the end of the job.
pub data Step : Job → Job → Type 0 where
  claim :
      (now : ℕ) (j : Job)
      → is_queued j.status ≡ true
      → j.cancel_requested ≡ false
      → Step j (start_claimed now j)
  claim_cancelled :
      (now : ℕ) (j : Job)
      → is_queued j.status ≡ true
      → j.cancel_requested ≡ true
      → Step j (cancel_claimed now j)
  import_batch :
      (now : ℕ) (b : Batch) (inserted skipped : ℕ) (summary : Option Text) (j : Job)
      → is_running j.status ≡ true
      → Step j (finish_import now b inserted skipped summary j)
  account_batch :
      (now size : ℕ) (accounts : List Account) (success failures : ℕ) (j : Job)
      → is_running j.status ≡ true
      → Step j (finish_batch now size accounts success failures j)
  no_accounts : (now : ℕ) (j : Job) → is_running j.status ≡ true → Step j (finish_empty now j)
  fail :
      (now : ℕ) (summary : Text) (j : Job)
      → is_running j.status ≡ true
      → Step j (fail_claimed now summary j)
  recover : (now : ℕ) (j : Job) → Step j (recover_job now j)
  heartbeat : (now : ℕ) (j : Job) → Step j (beat now j)
  cancel : (j : Job) → Step j (request_cancel j)

-- A job has an end exactly where it is queued or running no more, and a running one has begun.
pub record IsConsistent (j : Job) : Type 0 where
  pub open_end : is_active j.status ≡ true → j.finished_at ≡ none
  pub has_end : is_active j.status ≡ false → j.finished_at ≢ none
  pub has_begun : is_running j.status ≡ true → j.started_at ≢ none

pub Step-IsConsistent : {j k : Job} → Step j k → IsConsistent j → IsConsistent k
unfolding start_claimed cancel_claimed finish_import finish_batch finish_empty fail_claimed
    recover_job beat request_cancel is_queued is_running is_active
Step-IsConsistent (claim now j q c) h = ground (arith, h.open_end, h.has_end, h.has_begun)
Step-IsConsistent (claim_cancelled now j q c) h = ground (arith, h.open_end, h.has_end, h.has_begun)
Step-IsConsistent (import_batch now b i s m j r) h =
    ground (arith, h.open_end, h.has_end, h.has_begun)
Step-IsConsistent (account_batch now n a s f j r) h =
    ground (arith, h.open_end, h.has_end, h.has_begun)
Step-IsConsistent (no_accounts now j r) h = ground (arith, h.open_end, h.has_end, h.has_begun)
Step-IsConsistent (fail now m j r) h = ground (arith, h.open_end, h.has_end, h.has_begun)
Step-IsConsistent (recover now j) h = ground (arith, h.open_end, h.has_end, h.has_begun)
Step-IsConsistent (heartbeat now j) h = ground (arith, h.open_end, h.has_end, h.has_begun)
Step-IsConsistent (cancel j) h = ground (arith, h.open_end, h.has_end, h.has_begun)
