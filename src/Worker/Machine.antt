-- ===== src/Worker/Machine.antt =====
-- The loop `run` of app/worker.py between the writes of the web application: the worker is at a
-- point of its loop, and each event is one transaction or one read of either side.
pub mod Rows
pub mod Order
pub mod Turns
pub mod Advance
pub mod Runs
pub mod Spools
pub mod Ends
use token_loom.Prelude.{
  ℕ, ◌≡◌, ◌≢◌, codes, Bool, true, false, ◌&&◌, not, Option, none, some, List, [], ◌∷◌, ◌++◌, filter,
  if◌then◌else◌, is_empty, Text, Result, ok, err,
}
use token_loom.Prelude.Utf8.{Bytes}
use token_loom.Prelude.Dict.{Dict, put}
use token_loom.Prelude.Ints.{ℤ}
use token_loom.Records.{Account, Job, JobKind, import_file, refresh, health, other_kind, JobScope}
use token_loom.Import.Rows.{AccountTable}
use token_loom.Import.Upload.{Upload, import_job}
use token_loom.Api.Orders.{OrderError, queue_order}
use token_loom.Refresh.Batches.{in_ids}
use token_loom.Worker.Scheduler.{add_due_job}
use token_loom.Jobs.Queue.{find_job, claim_job, fail_job, heartbeat, cancel_job, recover_stale_jobs}
use token_loom.Refresh.Results.{AccountResult}
use token_loom.Worker.Maintenance.{MaintenanceSettings, SpoolFile, is_expired_job, is_stale_file}
use token_loom.Worker.Work.{
  Outside, Limits, WorkError, unknown_kind, ImportRead, Tables, remove_import_spool, read_import,
  commit_import, run_account_batch, commit_batch, commit_empty, load_batch,
}

-- Where the worker stands: between two jobs, behind `claim_job`, before the last transaction of an
-- import, or before that of a batch of accounts.
pub data Phase : Type 0 where
  idle : Phase
  claimed : Text → Phase
  importing : Text → ImportRead → Phase
  refreshing : Text → List Account → List AccountResult → Phase

pub record World : Type 0 where
  pub tables : Tables
  pub phase : Phase

-- the table of jobs, with the removal of the file that a job lets go of
abbrev pub with_jobs : Outside → Tables → List Job → Option Text → Tables
with_jobs o t jobs removed = record t { jobs = jobs; files = remove_import_spool o removed t.files }

-- `if not job_id: … continue`
abbrev pub phase_of : Option Text → Phase
phase_of none = idle
phase_of (some id) = claimed id

module _ (o : Outside) (limits : Limits) (now : ℕ) where
  -- `except Exception: await fail_job(job_id, exc)`
  unfoldable pub fail_turn : Text → Text → Tables → World
  fail_turn id summary t =
      let (jobs, removed) = fail_job now id summary t.jobs in
      record { tables = with_jobs o t jobs removed; phase = idle }

  unfoldable pub claim_turn : Tables → World
  claim_turn t =
      let c = claim_job now t.jobs in
      record { tables = with_jobs o t c.jobs c.removed; phase = phase_of c.job_id }

  -- the end of a turn: what was committed, or `fail_job` on the tables as they were
  unfoldable pub end_turn : Text → Text → Tables → Result WorkError Tables → World
  unfolding fail_turn
  end_turn id summary t (ok t') = record { tables = t'; phase = idle }
  end_turn id summary t (err raised) = fail_turn id summary t

  unfoldable pub import_turn : Text → Text → Tables → World
  unfolding fail_turn
  import_turn id summary t = elim (read_import o limits id t.jobs t.files) [
    | ok r ↦ record { tables = t; phase = importing id r }
    | err raised ↦ fail_turn id summary t
  ]

  unfoldable pub account_turn : Text → Text → Bool → Tables → World
  unfolding fail_turn end_turn
  account_turn id summary is_health t = elim (load_batch o limits now id t) [
    | err raised ↦ fail_turn id summary t
    | ok (rows, work) ↦
        if is_empty rows then end_turn id summary t (commit_empty o limits now id t) else record {
          tables = t;
          phase = refreshing id rows (run_account_batch o limits now is_health work);
        }
  ]

  -- `kind = job.kind if job else ""`, and the calls for each kind
  unfoldable pub dispatch : Text → Text → Option Job → Tables → World
  unfolding fail_turn import_turn account_turn
  dispatch id summary none t = fail_turn id summary t
  dispatch id summary (some j) t = elim j.kind [
    | import_file ↦ import_turn id summary t
    | refresh ↦ account_turn id summary false t
    | health ↦ account_turn id summary true t
    | other_kind _ ↦ fail_turn id summary t
  ]

  -- The worker goes one step on; `summary` is the text of an exception, should there be one.
  unfoldable pub advance : Text → Phase → Tables → World
  unfolding claim_turn dispatch end_turn
  advance summary idle t = claim_turn t
  advance summary (claimed id) t = dispatch id summary (find_job id t.jobs) t
  advance summary (importing id r) t = end_turn id summary t (commit_import o limits now id r t)
  advance summary (refreshing id rows results) t =
      end_turn id summary t (commit_batch o limits now id rows results t)

-- `heartbeat_job` beats for the job of a batch
unfoldable pub beat_phase : ℕ → Phase → List Job → List Job
beat_phase now (refreshing id _ _) jobs = heartbeat now id jobs
beat_phase now _ jobs = jobs

-- the jobs and the files that `maintenance_tick` leaves
unfoldable pub tidy : MaintenanceSettings → ℕ → ℕ → (Text → SpoolFile) → Tables → Tables
tidy s now wall file_of t =
    let jobs = filter (λ j. not (is_expired_job s now j)) t.jobs in
    record t {
      jobs = jobs;
      files = filter (λ (f : Text × Bytes). not (is_stale_file wall jobs (file_of f.0))) t.files;
    }

unfoldable pub cancelled_jobs : Text → List Job → List Job
cancelled_jobs id jobs = elim (cancel_job id jobs) [ ok jobs' ↦ jobs' | err _ ↦ jobs ]

-- One transaction or read: the worker goes on, it beats, it is started again after a crash, it
-- schedules and tidies; the web application takes an order or a file, a cancellation, a deletion.
pub data Event : Type 0 where
  work : Outside → Limits → ℕ → Text → Event
  beat restart : ℕ → Event
  schedule : Text → ℕ → Event
  tidy_up : MaintenanceSettings → ℕ → ℕ → (Text → SpoolFile) → Event
  order : Text → ℕ → JobKind → JobScope → List ℤ → Event
  upload : Text → ℕ → Text → Text → Upload → Event
  cancel : Text → Event
  delete : List ℤ → Event

abbrev pub add_order : Result OrderError Job → List Job → List Job
add_order (ok j) jobs = jobs ++ j ∷ []
add_order (err _) jobs = jobs

abbrev pub kept_accounts : List ℤ → AccountTable → AccountTable
kept_accounts ids accounts = record accounts {
  rows = filter (λ a. not (in_ids (some ids) a.id)) accounts.rows;
}

unfoldable pub execute : Event → World → World
unfolding advance beat_phase tidy cancelled_jobs in_ids
execute (work o limits now summary) w = advance o limits now summary w.phase w.tables
execute (beat now) w = record w {
  tables = record w.tables { jobs = beat_phase now w.phase w.tables.jobs };
}
execute (restart now) w = record {
  tables = record w.tables { jobs = recover_stale_jobs now w.tables.jobs };
  phase = idle;
}
execute (schedule id now) w = record w {
  tables = record w.tables { jobs = add_due_job id now w.tables.accounts.rows w.tables.jobs };
}
execute (tidy_up s now wall file_of) w = record w { tables = tidy s now wall file_of w.tables }
execute (order id now kind scope ids) w = record w {
  tables = record w.tables {
    jobs = add_order (queue_order id now kind scope w.tables.accounts.rows ids) w.tables.jobs;
  };
}
execute (upload id now path name u) w = record w {
  tables = record w.tables {
    jobs = w.tables.jobs ++ import_job id now path name u ∷ [];
    files = put (id ++ codes ".txt") u.content w.tables.files;
  };
}
execute (cancel id) w = record w {
  tables = record w.tables { jobs = cancelled_jobs id w.tables.jobs };
}
execute (delete ids) w = record w {
  tables = record w.tables { accounts = kept_accounts ids w.tables.accounts };
}

-- the job that the worker has in its hands
abbrev pub holder : Phase → Option Text
holder idle = none
holder (claimed id) = some id
holder (importing id _) = some id
holder (refreshing id _ _) = some id

-- `uuid.uuid4()` gives an id that neither a row of the table has nor the worker.
abbrev pub IsNew : Text → World → Type 0
IsNew id w = (find_job id w.tables.jobs ≡ none) × (holder w.phase ≢ some id)

abbrev pub IsFresh : Event → World → Type 0
IsFresh (schedule id _) w = IsNew id w
IsFresh (order id _ _ _ _) w = IsNew id w
IsFresh (upload id _ _ _ _) w = IsNew id w
IsFresh _ w = Unit

pub data Run (s : World) : World → Type 0 where
  start : Run s s
  then_do : {t : World} → Run s t → (e : Event) → IsFresh e t → Run s (execute e t)
