-- ===== src/Tests/Upkeep.antt =====
-- The scheduler and the cleaning on small tables.
use token_loom.Prelude.{
  ℕ, ◌+◌, ◌≤◌, ◌≡◌, ◌≢◌, refl, sym, ◌∙◌, Bool, true, false, Option, none, some, List, [], ◌∷◌, Text,
  codes, length, arith,
}
use token_loom.Prelude.Ints.{ℤ, pos}
use token_loom.Records.{Account, queued, completed, import_file}
use token_loom.Worker.Scheduler.{
  SchedulePolicy, LocalTime, Clock, Schedule, local_now, scheduler_tick, pending,
  scheduler_tick-once,
}
use token_loom.Worker.Maintenance.{
  MaintenanceSettings, SpoolFile, Store, spool_name, matches, maintenance_tick, active_jobs,
  needed_files,
}
use token_loom.Tests.Samples.{account_of, job_of}

-- a clock of one zone, where it is always five to four
abbrev one_zone : Text → Option Bool
one_zone t = some true

abbrev five_to_four : Bool → ℕ → LocalTime
five_to_four zone now = record { date = codes "2026-01-02"; hour = 3; minute = 55 }

abbrev thirty : Text → Option ℤ
thirty t = some (pos 3)

abbrev clock : Clock Bool
clock = record { zone_of = one_zone; shanghai = true; local = five_to_four; int_of = thirty }

abbrev policy : SchedulePolicy
policy = record { timezone = none; schedule_time = none }

abbrev table : List Account
table = account_of 2 (codes "aa") (some 10) ∷ account_of 5 (codes "bb") none ∷ []

abbrev yesterday : Schedule
yesterday = record { last_date = codes "2026-01-01"; jobs = [] }

none_pending : length (pending yesterday.jobs) ≤ 1
unfolding pending
none_pending = omega arith

one_queued : length (pending (scheduler_tick clock (codes "j") 20 policy table yesterday).jobs) ≡ 1
unfolding scheduler_tick pending token_loom.Worker.Scheduler.is_before
    token_loom.Prelude.Ints.int_ltb token_loom.Worker.Scheduler.scheduled_time
    token_loom.Prelude.cut local_now token_loom.Prelude.text_eq
    token_loom.Worker.Scheduler.add_due_job token_loom.Refresh.Batches.scope_snapshot
    token_loom.Worker.Scheduler.is_pending token_loom.Worker.Scheduler.due_job
    token_loom.Api.Orders.new_job token_loom.Jobs.Queue.is_active
one_queued = refl

new_date :
    (scheduler_tick clock (codes "j") 20 policy table yesterday).last_date ≡ codes "2026-01-02"
unfolding scheduler_tick token_loom.Worker.Scheduler.is_before token_loom.Prelude.Ints.int_ltb
    token_loom.Worker.Scheduler.scheduled_time token_loom.Prelude.cut local_now
    token_loom.Prelude.text_eq
new_date = refl

another_date :
    (scheduler_tick clock (codes "j") 20 policy table yesterday).last_date ≢ yesterday.last_date
another_date e = ground (arith, sym new_date ∙ e)

scheduler_tick-once_example :
    let date = (scheduler_tick clock (codes "j") 20 policy table yesterday).last_date in
    let found : Schedule = record { last_date = date; jobs = [] } in
    (date ≡ (local_now clock policy 20).date)
    × (scheduler_tick clock (codes "k") 30 policy table found ≡ found)
unfolding local_now
scheduler_tick-once_example =
    scheduler_tick-once clock (codes "j") 20 policy table yesterday (codes "k") 30 policy table []
      another_date refl

abbrev spool : Text
spool = codes "0a1b2c3d-0000-4000-8000-0123456789AB.txt"

spool-matches : matches spool_name spool ≡ true
unfolding matches token_loom.Worker.Maintenance.is_class
spool-matches = refl

abbrev store : Store
store = record {
  events = record { action = codes "login"; ip_hash = []; created_at = 0 } ∷ [];
  jobs =
      record (job_of (codes "a") queued 70 0 false none) {
        kind = import_file;
        source_path = some spool;
      }
      ∷ job_of (codes "b") completed 70 0 false (some 5)
      ∷ [];
  files =
      record { path = spool; name = spool; is_file = true; modified = 0 }
      ∷ record { path = codes "other"; name = spool; is_file = true; modified = 0 }
      ∷ [];
}

abbrev retention : MaintenanceSettings
retention = record { audit_retention_days = 180; job_retention_days = 90 }

files_left : length (maintenance_tick retention 99999999 99999999 store).files ≡ 1
unfolding maintenance_tick token_loom.Worker.Maintenance.is_stale_file matches
    token_loom.Worker.Maintenance.is_class token_loom.Worker.Maintenance.is_active_path
    token_loom.Worker.Maintenance.is_expired_job token_loom.Jobs.Queue.is_active
    token_loom.Jobs.Queue.is_import token_loom.Prelude.text_eq
    token_loom.Worker.Maintenance.finished_before
files_left = refl
