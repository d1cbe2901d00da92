-- ===== src/Worker/Machine/Turns.antt =====
-- Each event of the machine keeps the table of jobs in order.
use token_loom.Prelude.{
  ℕ, ◌≡◌, ◌≢◌, refl, Bool, false, Option, none, some, List, [], ◌∷◌, ◌++◌, filter, All, Text, arith,
  inl, inr, Bool-cases, Option-cases,
}
use token_loom.Records.{Account, Job}
use token_loom.Jobs.Queue.{
  is_running, find_job, update_job, start_claimed, cancel_claimed, claim_found, next_queued,
  fail_job, fail_claimed, beat, request_cancel,
}
use token_loom.Jobs.Queue.Claims.{next_queued-IsNext}
use token_loom.Import.Batch.{Batch, finish_import}
use token_loom.Refresh.Batches.{finish_batch, finish_empty}
use token_loom.Worker.Lifecycle.{IsConsistent}
use token_loom.Worker.Lifecycle as Lifecycle
use token_loom.Worker.Machine.Rows.{
  IsDistinct, update_job-IsDistinct, filter-IsDistinct, append-IsDistinct, IsIn-find_job,
  All-find_job, update_job-All, filter-All, append-All,
}
use token_loom.Worker.Machine.Order.{
  InOrder, EndsTurn, KeepsStatus, release-InOrder, absent-InOrder, keep-All, new-InOrder,
  started-InOrder, cancelled-InOrder, take-InOrder,
}

pub finish_import-EndsTurn :
    (now : ℕ) (b : Batch) (inserted skipped : ℕ) (summary : Option Text)
    → EndsTurn (finish_import now b inserted skipped summary)
unfolding finish_import is_running
finish_import-EndsTurn now b inserted skipped summary = record {
  keeps_id = λ j. ground arith;
  stops = λ j. ground arith;
  steps = Lifecycle.import_batch now b inserted skipped summary;
}

pub finish_batch-EndsTurn :
    (now size : ℕ) (accounts : List Account) (success failures : ℕ)
    → EndsTurn (finish_batch now size accounts success failures)
unfolding finish_batch is_running
finish_batch-EndsTurn now size accounts success failures = record {
  keeps_id = λ j. ground arith;
  stops = λ j. ground arith;
  steps = Lifecycle.account_batch now size accounts success failures;
}

pub finish_empty-EndsTurn : (now : ℕ) → EndsTurn (finish_empty now)
unfolding finish_empty is_running
finish_empty-EndsTurn now = record {
  keeps_id = λ j. refl;
  stops = λ j. ground arith;
  steps = Lifecycle.no_accounts now;
}

pub fail_claimed-EndsTurn : (now : ℕ) (summary : Text) → EndsTurn (fail_claimed now summary)
unfolding fail_claimed is_running
fail_claimed-EndsTurn now summary = record {
  keeps_id = λ j. refl;
  stops = λ j. refl;
  steps = Lifecycle.fail now summary;
}

pub beat-KeepsStatus : (now : ℕ) → KeepsStatus (beat now)
unfolding beat is_running
beat-KeepsStatus now = record {
  keeps_id = λ j. ground arith;
  same = λ j. ground arith;
  steps = Lifecycle.heartbeat now;
}

pub request_cancel-KeepsStatus : KeepsStatus request_cancel
unfolding request_cancel
request_cancel-KeepsStatus = record {
  keeps_id = λ j. refl;
  same = λ j. refl;
  steps = Lifecycle.cancel;
}

-- the two parts of the invariant, for what the worker holds
abbrev pub Orderly : Option Text → List Job → Type 0
Orderly held jobs = IsDistinct jobs × All (InOrder held) jobs

pub released-Orderly :
    (id : Text) (f : Job → Job) (jobs : List Job)
    → EndsTurn f
    → Orderly (some id) jobs
    → Orderly none (update_job id f jobs)
released-Orderly id f jobs ends h =
    (update_job-IsDistinct id f jobs ends.keeps_id h.0, release-InOrder id f jobs ends h.0 h.1)

pub kept-Orderly :
    (held : Option Text) (id : Text) (f : Job → Job) (jobs : List Job)
    → KeepsStatus f
    → Orderly held jobs
    → Orderly held (update_job id f jobs)
kept-Orderly held id f jobs k h =
    (update_job-IsDistinct id f jobs k.keeps_id h.0, keep-All held id f jobs k h.1)

pub added-Orderly :
    (held : Option Text) (jobs : List Job) (j : Job)
    → IsConsistent j
    → is_running j.status ≡ false
    → (find_job j.id jobs ≡ none) × (held ≢ some j.id)
    → Orderly held jobs
    → Orderly held (jobs ++ j ∷ [])
added-Orderly held jobs j c r new h = (
  append-IsDistinct jobs j h.0 new.0,
  append-All (InOrder held) jobs j h.1 (new-InOrder held j c r new.1),
)

pub filter-Orderly :
    (held : Option Text) (p : Job → Bool) (jobs : List Job)
    → Orderly held jobs
    → Orderly held (filter p jobs)
filter-Orderly held p jobs h = (filter-IsDistinct p jobs h.0, filter-All (InOrder held) p jobs h.1)

pub fail_job-Orderly :
    (now : ℕ) (id summary : Text) (jobs : List Job)
    → Orderly (some id) jobs
    → Orderly none (fail_job now id summary jobs).0
unfolding fail_job
fail_job-Orderly now id summary jobs h = elim (Option-cases (find_job id jobs)) [
  | inl e ↦ rw (e, fail_job) (h.0, absent-InOrder id jobs e h.1)
  | inr (j, e) ↦
      rw (e, fail_job)
        (released-Orderly id (fail_claimed now summary) jobs (fail_claimed-EndsTurn now summary) h)
]

pub claim_found-Orderly :
    (now : ℕ) (jobs : List Job) (o : Option Job)
    → next_queued jobs ≡ o
    → Orderly none jobs
    → Orderly (claim_found now jobs o).job_id (claim_found now jobs o).jobs
unfolding claim_found
claim_found-Orderly now jobs none n h = h
claim_found-Orderly now jobs (some j) n h =
    let next = next_queued-IsNext jobs {j = j} n in
    let found = IsIn-find_job j jobs h.0 next.member in
    let row = All-find_job (InOrder none) j.id jobs {j = j} h.1 found in
    elim (Bool-cases j.cancel_requested) [
      | inl c ↦ rw c (
        update_job-IsDistinct j.id (cancel_claimed now) jobs (λ i. unfold cancel_claimed in refl)
            h.0,
        update_job-All (InOrder none) (InOrder none) j.id (cancel_claimed now) jobs j h.0 found
            (cancelled-InOrder now j next.queued c row) (λ k i _. i) h.1,
      )
      | inr c ↦ rw c (
        update_job-IsDistinct j.id (start_claimed now) jobs (λ i. unfold start_claimed in refl) h.0,
        update_job-All (InOrder none) (InOrder (some j.id)) j.id (start_claimed now) jobs j h.0
            found (started-InOrder now j next.queued c row) (take-InOrder j.id) h.1,
      )
    ]
