-- ===== src/Jobs/Queue.antt =====
-- The queue of app/worker.py: `claim_job`, `recover_stale_jobs`, `fail_job`, `heartbeat_job`, and
-- `cancel_job` of app/main.py, on the rows of the table `jobs`.
pub mod Claims
use token_loom.Prelude.{
  ℕ, Bool, true, false, ◌&&◌, ◌||◌, not, Option, none, some, List, [], ◌∷◌, map, filter, ltb, ◌==◌,
  if◌then◌else◌, Text, text_eq, Result, ok, err, codes, take,
}
use token_loom.Records.{
  Job, JobKind, import_file, JobStatus, queued, running, completed, failed, cancelled,
}

unfoldable pub is_queued : JobStatus → Bool
is_queued queued = true
is_queued _ = false

unfoldable pub is_running : JobStatus → Bool
is_running running = true
is_running _ = false

-- `status in {"queued", "running"}`
unfoldable pub is_active : JobStatus → Bool
is_active queued = true
is_active running = true
is_active _ = false

unfoldable pub is_import : JobKind → Bool
is_import import_file = true
is_import _ = false

-- `session.get(Job, job_id)`
unfoldable pub find_job : Text → List Job → Option Job
find_job id [] = none
find_job id (j ∷ jobs) = if text_eq j.id id then some j else find_job id jobs

-- a write to the row of that id
unfoldable pub update_job : Text → (Job → Job) → List Job → List Job
update_job id f [] = []
update_job id f (j ∷ jobs) =
    let rest = update_job id f jobs in if text_eq j.id id then f j ∷ rest else j ∷ rest

abbrev pub resumed_message : Text
resumed_message = codes "Worker 重启后自动续跑"

unfoldable pub recover_job : ℕ → Job → Job
unfolding is_running
recover_job now j =
    if is_running j.status
    then record j { status = queued; heartbeat_at = some now; error_summary = some resumed_message }
    else j

-- `recover_stale_jobs`
unfoldable pub recover_stale_jobs : ℕ → List Job → List Job
recover_stale_jobs now jobs = map (recover_job now) jobs

-- `ORDER BY priority DESC, created_at ASC`
unfoldable pub precedes : Job → Job → Bool
precedes a b =
    ltb b.priority a.priority || (a.priority == b.priority && ltb a.created_at b.created_at)

unfoldable pub first_of_two : Job → Option Job → Job
unfolding precedes
first_of_two j none = j
first_of_two j (some best) = if precedes best j then best else j

-- `SELECT … WHERE status = 'queued' ORDER BY … LIMIT 1`
unfoldable pub next_queued : List Job → Option Job
next_queued [] = none
next_queued (j ∷ jobs) =
    let best = next_queued jobs in if is_queued j.status then some (first_of_two j best) else best

-- the file that a job lets go of when it ends
unfoldable pub released_spool : Job → Option Text
unfolding is_import
released_spool j = if is_import j.kind then j.source_path else none

-- `job.started_at or utcnow()`
abbrev pub or_now : Option ℕ → ℕ → Option ℕ
or_now none now = some now
or_now (some t) now = some t

unfoldable pub cancel_claimed : ℕ → Job → Job
cancel_claimed now j = record j { status = cancelled; finished_at = some now }

unfoldable pub start_claimed : ℕ → Job → Job
start_claimed now j = record j {
  status = running;
  started_at = or_now j.started_at now;
  heartbeat_at = some now;
}

-- What `claim_job` did: the id that it returns, and the import file that it removes.
pub record Claim : Type 0 where
  pub job_id : Option Text
  pub removed : Option Text
  pub jobs : List Job

unfoldable pub claim_found : ℕ → List Job → Option Job → Claim
unfolding cancel_claimed start_claimed released_spool
claim_found now jobs none = record { job_id = none; removed = none; jobs = jobs }
claim_found now jobs (some j) =
    if j.cancel_requested
    then record {
      job_id = none;
      removed = released_spool j;
      jobs = update_job j.id (cancel_claimed now) jobs;
    }
    else record {
      job_id = some j.id;
      removed = none;
      jobs = update_job j.id (start_claimed now) jobs;
    }

unfoldable pub claim_job : ℕ → List Job → Claim
claim_job now jobs = claim_found now jobs (next_queued jobs)

-- `fail_job`, with the sanitized text of the exception
unfoldable pub fail_claimed : ℕ → Text → Job → Job
fail_claimed now summary j = record j {
  status = failed;
  error_summary = some summary;
  finished_at = some now;
}

-- the rows behind it, and the import file that it removes
unfoldable pub fail_job : ℕ → Text → Text → List Job → List Job × Option Text
unfolding fail_claimed released_spool
fail_job now id summary jobs = elim (find_job id jobs) [
  | none ↦ (jobs, none)
  | some j ↦ (update_job id (fail_claimed now summary) jobs, released_spool j)
]

-- one beat of `heartbeat_job`
unfoldable pub beat : ℕ → Job → Job
unfolding is_running
beat now j = if is_running j.status then record j { heartbeat_at = some now } else j

unfoldable pub heartbeat : ℕ → Text → List Job → List Job
unfolding beat
heartbeat now id jobs = update_job id (beat now) jobs

-- the answers of the route `cancel_job` that are errors: 404 and 400
pub data CancelError : Type 0 where
  no_such_job already_ended : CancelError

unfoldable pub request_cancel : Job → Job
request_cancel j = record j { cancel_requested = true }

unfoldable pub cancel_found : Text → List Job → Option Job → Result CancelError (List Job)
unfolding is_active request_cancel
cancel_found id jobs none = err no_such_job
cancel_found id jobs (some j) =
    if not (is_active j.status) then err already_ended else ok (update_job id request_cancel jobs)

unfoldable pub cancel_job : Text → List Job → Result CancelError (List Job)
unfolding cancel_found
cancel_job id jobs = cancel_found id jobs (find_job id jobs)
