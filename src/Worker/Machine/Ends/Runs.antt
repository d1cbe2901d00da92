-- ===== src/Worker/Machine/Ends/Runs.antt =====
-- Along all sequences of events of app/worker.py and app/main.py: a job that has ended stays as it is,
-- and a job that is asked to stop while no worker holds it never runs.
use token_loom.Prelude.{
  ℕ, ◌≡◌, ◌≢◌, refl, ap, true, false, not, ◌||◌, Option, none, some, List, [], ◌∷◌, ◌++◌, any, ◌==◌,
  All, Text, text_eq_iff, arith, inl, inr, Bool-cases, Result-cases, subst,
}
use token_loom.Prelude.Ints.{ℤ}
use token_loom.Records.{Account, Job, JobKind, JobScope, due}
use token_loom.Jobs.Queue.{
  is_running, find_job, recover_job, recover_stale_jobs, beat, heartbeat, request_cancel,
  cancel_job, cancel_claimed,
}
use token_loom.Api.Orders.{new_job, queue_order}
use token_loom.Import.Upload.{import_job}
use token_loom.Refresh.Batches.{scope_snapshot}
use token_loom.Worker.Scheduler.{is_pending, due_job, add_due_job}
use token_loom.Worker.Maintenance.{is_expired_job}
use token_loom.Worker.Machine.{
  Phase, idle, claimed, importing, refreshing, World, Event, work, beat as beat_event, restart,
  schedule, tidy_up, order, upload, cancel, delete, execute, holder, Run, start, then_do,
  beat_phase, tidy, cancelled_jobs, add_order,
}
use token_loom.Worker.Machine.Rows.{
  IsDistinct, find_job-id, All-find_job, update_job-All, map-All, filter-All, append-All,
}
use token_loom.Worker.Machine.Order.{InOrder, IsOrderly, update_job_self}
use token_loom.Worker.Machine.Ends.Rows.{
  IsLasting, At, recovered-At, beaten-At, each-All, cancelled-All,
}
use token_loom.Worker.Machine.Ends.Turns.{advance-All}
use token_loom.Worker.Machine.Runs.{Run-IsOrderly}

-- the id of the job that an event adds
abbrev pub added_by : Event → Option Text
added_by (schedule id _) = some id
added_by (order id _ _ _ _) = some id
added_by (upload id _ _ _ _) = some id
added_by _ = none

-- No event of the run adds a job of that id: `uuid.uuid4()` gives no id again.
abbrev pub Avoids : Text → {s w : World} → Run s w → Type 0
Avoids i start = Unit
Avoids i (then_do r e fresh) = Avoids i r × (added_by e ≢ some i)

module _ (Q : Job → Type 0) (lasting : IsLasting Q) (i : Text) where
  beat_phase-All :
      (now : ℕ) (phase : Phase) (jobs : List Job)
      → All (At Q i) jobs
      → All (At Q i) (beat_phase now phase jobs)
  unfolding beat_phase heartbeat
  beat_phase-All now idle jobs h = h
  beat_phase-All now (claimed id) jobs h = h
  beat_phase-All now (importing id r) jobs h = h
  beat_phase-All now (refreshing id rows results) jobs h =
      each-All Q lasting i id (beat now) jobs (beaten-At Q lasting i now) h

  recovered-All :
      (now : ℕ) (jobs : List Job) → All (At Q i) jobs → All (At Q i) (recover_stale_jobs now jobs)
  unfolding recover_stale_jobs
  recovered-All now jobs h =
      map-All (At Q i) (At Q i) (recover_job now) jobs (recovered-At Q lasting i now) h

  asked-All :
      (id : Text) (jobs : List Job)
      → IsDistinct jobs
      → All (At Q i) jobs
      → All (At Q i) (cancelled_jobs id jobs)
  unfolding cancelled_jobs
  asked-All id jobs d h = elim (Result-cases (cancel_job id jobs)) [
    | inr (x, e) ↦ rw (e, cancelled_jobs) h
    | inl (jobs', e) ↦
        rw (e, cancelled_jobs)
          (cancelled-All Q lasting i id jobs (find_job id jobs) refl d h jobs'
            (unfold cancel_job in e))
  ]

  -- a job of another id
  added-All :
      (jobs : List Job) (j : Job) → j.id ≢ i → All (At Q i) jobs → All (At Q i) (jobs ++ j ∷ [])
  added-All jobs j other h = append-All (At Q i) jobs j h (λ e. absurd (other e))

  scheduled-All :
      (id : Text) (now : ℕ) (rows : List Account) (jobs : List Job)
      → id ≢ i
      → All (At Q i) jobs
      → All (At Q i) (add_due_job id now rows jobs)
  unfolding add_due_job
  scheduled-All id now rows jobs other h =
      let (total, largest) = scope_snapshot now due [] rows in
      elim (Bool-cases (any is_pending jobs || total == 0)) [
        | inl e ↦ rw e h
        | inr e ↦
            rw e (added-All jobs (due_job id now total largest) (unfold due_job new_job in other) h)
      ]

  ordered-All :
      (id : Text) (now : ℕ) (kind : JobKind) (scope : JobScope) (rows : List Account) (ids : List ℤ)
      (jobs : List Job)
      → id ≢ i
      → All (At Q i) jobs
      → All (At Q i) (add_order (queue_order id now kind scope rows ids) jobs)
  unfolding queue_order
  ordered-All id now kind scope rows ids jobs other h =
      let (total, largest) = scope_snapshot now scope ids rows in
      elim (Bool-cases (total == 0)) [
        | inl e ↦ rw e h
        | inr e ↦ rw e (
            added-All jobs (new_job id now kind scope ids total largest) (unfold new_job in other)
              h)
      ]

  execute-All :
      (e : Event) (w : World)
      → added_by e ≢ some i
      → IsOrderly w
      → All (At Q i) w.tables.jobs
      → All (At Q i) (execute e w).tables.jobs
  unfolding execute
  execute-All (work o limits now summary) w other d h =
      advance-All Q lasting i o limits now summary w.phase w.tables (d.distinct, d.in_order) h
  execute-All (beat_event now) w other d h = beat_phase-All now w.phase w.tables.jobs h
  execute-All (restart now) w other d h = recovered-All now w.tables.jobs h
  execute-All (schedule id now) w other d h =
      scheduled-All id now w.tables.accounts.rows w.tables.jobs
        (λ e. other (ap (λ (t : Text). some t) e)) h
  execute-All (tidy_up s now wall file_of) w other d h =
      unfold tidy in filter-All (At Q i) (λ j. not (is_expired_job s now j)) w.tables.jobs h
  execute-All (order id now kind scope ids) w other d h =
      ordered-All id now kind scope w.tables.accounts.rows ids w.tables.jobs
        (λ e. other (ap (λ (t : Text). some t) e)) h
  execute-All (upload id now path name u) w other d h =
      added-All w.tables.jobs (import_job id now path name u)
        (unfold import_job in λ e. other (ap (λ (t : Text). some t) e)) h
  execute-All (cancel id) w other d h = asked-All id w.tables.jobs d.distinct h
  execute-All (delete ids) w other d h = h

  run-All :
      {s w : World} (r : Run s w)
      → Avoids i r
      → IsOrderly s
      → All (At Q i) s.tables.jobs
      → All (At Q i) w.tables.jobs
  run-All start avoids d h = h
  run-All (then_do {t} r e fresh) avoids d h =
      execute-All e t avoids.1 (Run-IsOrderly d r) (run-All r avoids.0 d h)

  found-All :
      (held : Option Text) (jobs : List Job) (j : Job)
      → IsDistinct jobs
      → All (InOrder held) jobs
      → find_job i jobs ≡ some j
      → Q j
      → All (At Q i) jobs
  found-All held jobs j d o found q = subst (All (At Q i)) (update_job_self i jobs) (
      update_job-All (InOrder held) (At Q i) i (λ k. k) jobs j d found (λ e. q)
        (λ k _ ne same. absurd (ground (arith, ne, same, text_eq_iff k.id i))) o)

  -- what the job of that id has from the beginning of the run to its end
  run-found :
      {s w : World} (r : Run s w) (j k : Job)
      → IsOrderly s
      → Avoids i r
      → find_job i s.tables.jobs ≡ some j
      → Q j
      → find_job i w.tables.jobs ≡ some k
      → Q k
  run-found {s} {w} r j k d avoids found q found' =
      let before = found-All (holder s.phase) s.tables.jobs j d.distinct d.in_order found q in
      All-find_job (At Q i) i w.tables.jobs {j = k} (run-All r avoids d before) found'
        (find_job-id i w.tables.jobs {j = k} found')

-- a job that is to be cancelled and that no worker holds
pub record IsStopped (j : Job) : Type 0 where
  pub requested : j.cancel_requested ≡ true
  pub idle : is_running j.status ≡ false

IsStopped-IsLasting : IsLasting IsStopped
unfolding is_running cancel_claimed request_cancel
IsStopped-IsLasting = record {
  idle = λ j h. h.idle;
  unclaimed = λ j h q. h.requested;
  claimed = λ now j h q. record { requested = h.requested; idle = refl };
  marked = λ j h a. record { requested = refl; idle = h.idle };
}

-- Along every sequence of events of the worker and the web application from a table in order, which
-- adds no job of that id again, a job that was asked to stop while it did not run does not run, and
-- the request stands, as long as its row is in the table.
pub Run-IsStopped :
    (i : Text) {s w : World} (r : Run s w) (j k : Job)
    → IsOrderly s
    → Avoids i r
    → find_job i s.tables.jobs ≡ some j
    → IsStopped j
    → find_job i w.tables.jobs ≡ some k
    → IsStopped k
Run-IsStopped i r j k d avoids found stopped found' =
    run-found IsStopped IsStopped-IsLasting i r j k d avoids found stopped found'
