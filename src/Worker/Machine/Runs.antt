-- ===== src/Worker/Machine/Runs.antt =====
-- All sequences of events of app/worker.py and app/main.py keep the table of jobs in order.
use token_loom.Prelude.{
  ℕ, ◌≡◌, ◌≢◌, refl, false, not, ◌||◌, Option, none, some, List, [], ◌∷◌, ◌++◌, any, ◌==◌, Text, ok,
  arith, inl, inr, Bool-cases, Result-cases, subst,
}
use token_loom.Prelude.Ints.{ℤ}
use token_loom.Records.{Account, Job, JobKind, refresh, JobScope, due}
use token_loom.Jobs.Queue.{
  is_running, is_active, find_job, update_job, recover_job, recover_stale_jobs, beat, heartbeat,
  request_cancel, cancel_job, cancel_found,
}
use token_loom.Refresh.Batches.{scope_snapshot}
use token_loom.Api.Orders.{new_job, queue_order}
use token_loom.Import.Upload.{Upload, import_job}
use token_loom.Worker.Lifecycle.Starts.{import_job-IsConsistent, new_job-IsConsistent}
use token_loom.Worker.Scheduler.{is_pending, due_job, add_due_job}
use token_loom.Worker.Maintenance.{is_expired_job}
use token_loom.Worker.Machine.{
  Phase, idle, claimed, importing, refreshing, World, Event, work, beat as beat_event, restart,
  schedule, tidy_up, order, upload, cancel, delete, execute, holder, IsFresh, Run, start, then_do,
  beat_phase, tidy, cancelled_jobs, add_order,
}
use token_loom.Worker.Machine.Rows.{map-IsDistinct, map-All}
use token_loom.Worker.Machine.Order.{InOrder, IsOrderly, recover-InOrder}
use token_loom.Worker.Machine.Turns.{
  Orderly, kept-Orderly, added-Orderly, filter-Orderly, beat-KeepsStatus,
  request_cancel-KeepsStatus,
}
use token_loom.Worker.Machine.Advance.{orderly, advance-IsOrderly}

beat_phase-Orderly :
    (now : ℕ) (phase : Phase) (jobs : List Job)
    → Orderly (holder phase) jobs
    → Orderly (holder phase) (beat_phase now phase jobs)
unfolding beat_phase heartbeat
beat_phase-Orderly now idle jobs h = h
beat_phase-Orderly now (claimed id) jobs h = h
beat_phase-Orderly now (importing id r) jobs h = h
beat_phase-Orderly now (refreshing id rows results) jobs h =
    kept-Orderly (some id) id (beat now) jobs (beat-KeepsStatus now) h

recovered-Orderly :
    (now : ℕ) (held : Option Text) (jobs : List Job)
    → Orderly held jobs
    → Orderly none (recover_stale_jobs now jobs)
unfolding recover_stale_jobs
recovered-Orderly now held jobs h = (
  map-IsDistinct (recover_job now) jobs (λ j. unfold recover_job in ground arith) h.0,
  map-All (InOrder held) (InOrder none) (recover_job now) jobs (recover-InOrder now held) h.1,
)

cancel_found-Orderly :
    (held : Option Text) (id : Text) (jobs : List Job) (o : Option Job)
    → Orderly held jobs
    → (jobs' : List Job) → cancel_found id jobs o ≡ ok jobs'
    → Orderly held jobs'
unfolding cancel_found
cancel_found-Orderly held id jobs none h jobs' e = ground (arith, e)
cancel_found-Orderly held id jobs (some j) h jobs' e = elim (Bool-cases (is_active j.status)) [
  | inr t ↦ ground (arith, e, t)
  | inl t ↦
      let marked = kept-Orderly held id request_cancel jobs request_cancel-KeepsStatus h in
      let same : update_job id request_cancel jobs ≡ jobs' = cc (rw t at e) in
      subst (Orderly held) same marked
]

cancelled-Orderly :
    (held : Option Text) (id : Text) (jobs : List Job)
    → Orderly held jobs
    → Orderly held (cancelled_jobs id jobs)
unfolding cancelled_jobs
cancelled-Orderly held id jobs h = elim (Result-cases (cancel_job id jobs)) [
  | inr (x, e) ↦ rw (e, cancelled_jobs) h
  | inl (jobs', e) ↦
      rw (e, cancelled_jobs)
        (cancel_found-Orderly held id jobs (find_job id jobs) h jobs' (unfold cancel_job in e))
]

new_job-waits :
    (id : Text) (now : ℕ) (kind : JobKind) (scope : JobScope) (ids : List ℤ) (total largest : ℕ)
    → ((new_job id now kind scope ids total largest).id ≡ id)
      × (is_running (new_job id now kind scope ids total largest).status ≡ false)
unfolding new_job is_running
new_job-waits id now kind scope ids total largest = (refl, refl)

scheduled-Orderly :
    (held : Option Text) (id : Text) (now : ℕ) (rows : List Account) (jobs : List Job)
    → (find_job id jobs ≡ none) × (held ≢ some id)
    → Orderly held jobs
    → Orderly held (add_due_job id now rows jobs)
unfolding add_due_job
scheduled-Orderly held id now rows jobs new h =
    let (total, largest) = scope_snapshot now due [] rows in
    let c = new_job-IsConsistent id now refresh due [] total largest in
    let w = new_job-waits id now refresh due [] total largest in
    elim (Bool-cases (any is_pending jobs || total == 0)) [
      | inl e ↦ rw e h
      | inr e ↦ rw e (
          added-Orderly held jobs (due_job id now total largest)
            (unfold due_job in
              record { open_end = c.open_end; has_end = c.has_end; has_begun = c.has_begun })
            (unfold due_job in w.1) (unfold due_job in rw (w.0) new) h)
    ]

ordered-Orderly :
    (held : Option Text) (id : Text) (now : ℕ) (kind : JobKind) (scope : JobScope)
    (rows : List Account) (ids : List ℤ) (jobs : List Job)
    → (find_job id jobs ≡ none) × (held ≢ some id)
    → Orderly held jobs
    → Orderly held (add_order (queue_order id now kind scope rows ids) jobs)
unfolding queue_order
ordered-Orderly held id now kind scope rows ids jobs new h =
    let (total, largest) = scope_snapshot now scope ids rows in
    let w = new_job-waits id now kind scope ids total largest in
    elim (Bool-cases (total == 0)) [
      | inl e ↦ rw e h
      | inr e ↦ rw e (
          added-Orderly held jobs (new_job id now kind scope ids total largest)
            (new_job-IsConsistent id now kind scope ids total largest) w.1 (rw (w.0) new) h)
    ]

uploaded-Orderly :
    (held : Option Text) (id : Text) (now : ℕ) (path name : Text) (u : Upload) (jobs : List Job)
    → (find_job id jobs ≡ none) × (held ≢ some id)
    → Orderly held jobs
    → Orderly held (jobs ++ import_job id now path name u ∷ [])
uploaded-Orderly held id now path name u jobs new h =
    added-Orderly held jobs (import_job id now path name u)
      (import_job-IsConsistent id now path name u).0 (unfold import_job is_running in refl)
      (unfold import_job in new) h

execute-IsOrderly : (e : Event) (w : World) → IsFresh e w → IsOrderly w → IsOrderly (execute e w)
unfolding execute
execute-IsOrderly (work o limits now summary) w f h =
    advance-IsOrderly o limits now summary w.phase w.tables (h.distinct, h.in_order)
execute-IsOrderly (beat_event now) w f h =
    orderly _ (beat_phase-Orderly now w.phase w.tables.jobs (h.distinct, h.in_order))
execute-IsOrderly (restart now) w f h =
    orderly _ (recovered-Orderly now (holder w.phase) w.tables.jobs (h.distinct, h.in_order))
execute-IsOrderly (schedule id now) w f h = orderly _ (
    scheduled-Orderly (holder w.phase) id now w.tables.accounts.rows w.tables.jobs f
      (h.distinct, h.in_order))
execute-IsOrderly (tidy_up s now wall file_of) w f h =
    unfold tidy in
    orderly _ (
      filter-Orderly (holder w.phase) (λ j. not (is_expired_job s now j)) w.tables.jobs
        (h.distinct, h.in_order))
execute-IsOrderly (order id now kind scope ids) w f h = orderly _ (
    ordered-Orderly (holder w.phase) id now kind scope w.tables.accounts.rows ids w.tables.jobs f
      (h.distinct, h.in_order))
execute-IsOrderly (upload id now path name u) w f h =
    orderly _ (
      uploaded-Orderly (holder w.phase) id now path name u w.tables.jobs f (h.distinct, h.in_order))
execute-IsOrderly (cancel id) w f h =
    orderly _ (cancelled-Orderly (holder w.phase) id w.tables.jobs (h.distinct, h.in_order))
execute-IsOrderly (delete ids) w f h = orderly _ (h.distinct, h.in_order)

-- From a table in order every sequence of events, with fresh ids for what is added, leads to one: no
-- two jobs have one id, the times of each agree with its status, and exactly the job that the worker
-- holds runs.
pub Run-IsOrderly : {s w : World} → IsOrderly s → Run s w → IsOrderly w
Run-IsOrderly h start = h
Run-IsOrderly h (then_do {t} r e f) = execute-IsOrderly e t f (Run-IsOrderly h r)
