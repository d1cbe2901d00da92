-- ===== src/Worker/Scheduler.antt =====
-- `scheduler_tick` of app/worker.py. Time zones and `int` are parameters.
use token_loom.Prelude.{
  ℕ, ◌+◌, ◌≤◌, ◌≡◌, ◌≢◌, refl, ap, sym, ◌∙◌, Bool, true, false, ◌&&◌, ◌||◌, not, Option, none, some,
  List, [], ◌∷◌, ◌++◌, any, filter, ◌==◌, if◌then◌else◌, length, Text, text_eq, text_eq_iff, codes,
  cut, arith, inl, inr, Bool-cases, if_true, if_false,
}
use token_loom.Prelude.Ints.{ℤ, pos, int_ltb}
use token_loom.Records.{Account, Job, JobKind, refresh, JobScope, due}
use token_loom.Jobs.Queue.{is_active}
use token_loom.Refresh.Batches.{scope_snapshot}
use token_loom.Api.Orders.{new_job}

-- The fields of the refresh policy that the scheduler reads, as texts; none where missing.
pub record SchedulePolicy : Type 0 where
  pub timezone : Option Text
  pub schedule_time : Option Text

-- `local_now`: its date in ISO form, its hour and its minute
pub record LocalTime : Type 0 where
  pub date : Text
  pub hour : ℕ
  pub minute : ℕ

-- `ZoneInfo`, none where it raises; the zone "Asia/Shanghai"; `datetime.now(zone)`; `int` on a text
pub record Clock (Zone : Type 0) : Type 0 where
  pub zone_of : Text → Option Zone
  pub shanghai : Zone
  pub local : Zone → ℕ → LocalTime
  pub int_of : Text → Option ℤ

-- `(3, 30)`
abbrev pub default_time : ℤ × ℤ
default_time = (pos 3, pos 30)

abbrev pub both : Option ℤ → Option ℤ → ℤ × ℤ
both (some h) (some m) = (h, m)
both (some h) none = default_time
both none m = default_time

-- `(a, b) < (c, d)`
unfoldable pub is_before : ℤ × ℤ → ℤ × ℤ → Bool
is_before (a, b) (c, d) = int_ltb a c || (not (int_ltb c a) && int_ltb b d)

unfoldable pub is_refresh : JobKind → Bool
is_refresh refresh = true
is_refresh _ = false

unfoldable pub is_due_scope : JobScope → Bool
is_due_scope due = true
is_due_scope _ = false

-- the clauses of `existing`
unfoldable pub is_pending : Job → Bool
unfolding is_refresh is_due_scope
is_pending j = is_refresh j.kind && is_due_scope j.scope && is_active j.status

-- The date in the setting `last_scheduler_run`, whose instant `at` nothing reads, and the table of
-- jobs.
pub record Schedule : Type 0 where
  pub last_date : Text
  pub jobs : List Job

-- the job with the priority that the scheduler gives it
unfoldable pub due_job : Text → ℕ → ℕ → ℕ → Job
due_job id now total largest =
    let j = new_job id now refresh due [] total largest in record j { priority = 20 }

unfoldable pub add_due_job : Text → ℕ → List Account → List Job → List Job
add_due_job id now rows jobs =
    let (total, largest) = scope_snapshot now due [] rows in
    if any is_pending jobs || total == 0 then jobs else jobs ++ due_job id now total largest ∷ []

module _ {Zone : Type 0} (clock : Clock Zone) where
  abbrev pub zone_or : Option Zone → Zone
  zone_or none = clock.shanghai
  zone_or (some z) = z

  abbrev pub text_or_default : Text → Option Text → Text
  text_or_default d none = d
  text_or_default d (some t) = t

  unfoldable pub local_now : SchedulePolicy → ℕ → LocalTime
  local_now policy now =
      clock.local
        (zone_or (clock.zone_of (text_or_default (codes "Asia/Shanghai") policy.timezone))) now

  abbrev pub time_of : Option (Text × Text) → ℤ × ℤ
  time_of none = default_time
  time_of (some (h, m)) = both (clock.int_of h) (clock.int_of m)

  unfoldable pub scheduled_time : SchedulePolicy → ℤ × ℤ
  scheduled_time policy = time_of (cut b':' (text_or_default (codes "03:30") policy.schedule_time))

  unfoldable pub scheduler_tick : Text → ℕ → SchedulePolicy → List Account → Schedule → Schedule
  scheduler_tick id now policy rows state =
      let here = local_now policy now in
      if is_before (pos here.hour, pos here.minute) (scheduled_time policy)
      then state
      else if text_eq state.last_date here.date
      then state
      else record { last_date = here.date; jobs = add_due_job id now rows state.jobs }

unfoldable pub pending : List Job → List Job
pending jobs = filter is_pending jobs

any-filter_empty :
    (p : Job → Bool) (jobs : List Job) → any p jobs ≡ false → length (filter p jobs) ≡ 0
any-filter_empty p [] h = refl
any-filter_empty p (j ∷ jobs) h = ground (arith, any-filter_empty p jobs)

length-filter_append_one :
    (p : Job → Bool) (jobs : List Job) (j : Job)
    → length (filter p (jobs ++ j ∷ [])) ≤ length (filter p jobs) + 1
length-filter_append_one p [] j = ground arith
length-filter_append_one p (k ∷ jobs) j = ground (arith, length-filter_append_one p jobs j)

add_due_job-pending :
    (id : Text) (now : ℕ) (rows : List Account) (jobs : List Job)
    → length (filter is_pending jobs) ≤ 1
    → length (filter is_pending (add_due_job id now rows jobs)) ≤ 1
unfolding add_due_job
add_due_job-pending id now rows jobs h =
    let (total, largest) = scope_snapshot now due [] rows in
    elim (Bool-cases (any is_pending jobs || total == 0)) [
      | inl e ↦ rw e h
      | inr e ↦
          let none_yet = any-filter_empty is_pending jobs (ground (arith, e)) in
          rw e (
            omega (
              arith,
              none_yet,
              length-filter_append_one is_pending jobs (due_job id now total largest),
            ))
    ]

tick_same :
    {Zone : Type 0} (clock : Clock Zone) (id : Text) (now : ℕ) (policy : SchedulePolicy)
    (rows : List Account) (state : Schedule)
    → state.last_date ≡ (local_now clock policy now).date
    → scheduler_tick clock id now policy rows state ≡ state
unfolding scheduler_tick
tick_same clock id now policy rows state e =
    let here = local_now clock policy now in
    let same : text_eq state.last_date here.date ≡ true =
      ground (arith, e, (text_eq_iff state.last_date here.date).1 e) in
    elim (Bool-cases (is_before (pos here.hour, pos here.minute) (scheduled_time clock policy))) [
      | inl t ↦ if_true _ _ t
      | inr t ↦ if_false _ _ t ∙ if_true _ _ same
    ]

module _ {Zone : Type 0} (clock : Clock Zone) (id : Text) (now : ℕ) (policy : SchedulePolicy)
    (rows : List Account) (state : Schedule) where
  -- If at most one refresh of the due accounts waits or runs, so it is behind a tick.
  scheduler_tick-pending :
      length (pending state.jobs) ≤ 1
      → length (pending (scheduler_tick clock id now policy rows state).jobs) ≤ 1
  unfolding scheduler_tick pending
  scheduler_tick-pending h = ground (arith, h, add_due_job-pending id now rows state.jobs h)

  -- A tick that leaves another date than it found leaves the local date, and then a second tick that
  -- has the same local date changes nothing, whatever the policy, the accounts and the jobs are.
  pub scheduler_tick-once :
      (id' : Text) (now' : ℕ) (policy' : SchedulePolicy) (rows' : List Account) (jobs' : List Job)
      → (scheduler_tick clock id now policy rows state).last_date ≢ state.last_date
      → (local_now clock policy' now').date ≡ (local_now clock policy now).date
      → let date = (scheduler_tick clock id now policy rows state).last_date in
        let found : Schedule = record { last_date = date; jobs = jobs' } in
        (date ≡ (local_now clock policy now).date)
        × (scheduler_tick clock id' now' policy' rows' found ≡ found)
  unfolding scheduler_tick
  scheduler_tick-once id' now' policy' rows' jobs' moved same =
      let here = local_now clock policy now in
      elim (Bool-cases (is_before (pos here.hour, pos here.minute) (scheduled_time clock policy))) [
        | inl e ↦ absurd (moved (ap (λ (t : Schedule). t.last_date) (if_true _ _ e)))
        | inr e ↦ elim (Bool-cases (text_eq state.last_date here.date)) [
          | inl f ↦
              absurd (moved (ap (λ (t : Schedule). t.last_date) (if_false _ _ e ∙ if_true _ _ f)))
          | inr f ↦
              let date = ap (λ (t : Schedule). t.last_date) (if_false _ _ e ∙ if_false _ _ f) in
              (date, tick_same clock id' now' policy' rows' _ (date ∙ sym same))
        ]
      ]
