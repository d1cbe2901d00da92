-- ===== src/Tests/Machines.antt =====
-- The worker and the web application in turns: a file is uploaded, imported and refreshed.
use token_loom.Prelude.{
  ℕ, ◌≡◌, ◌≢◌, refl, Bool, true, false, Option, none, some, List, [], ◌∷◌, ◌++◌, map, Text, codes,
  Result, ok, err, arith,
}
use token_loom.Prelude.{take}
use token_loom.Records.{Job, JobStatus, queued, running, update}
use token_loom.Import.Upload.{Upload, import_job}
use token_loom.Refresh.Token.{other_error}
use token_loom.Worker.Work.{Outside, Limits}
use token_loom.Worker.Machine.{
  idle, World, Event, work, restart, tidy_up, upload, execute, IsNew, Run, start, then_do,
}
use token_loom.Worker.Machine.Order.{IsOrderly}
use token_loom.Worker.Machine.Runs.{Run-IsOrderly}
use token_loom.Worker.Maintenance.{SpoolFile}
use token_loom.Worker.Machine.Spools.Turns.{IsSpooled}
use token_loom.Worker.Machine.Spools.Runs.{Run-IsSpooled}
use token_loom.Tests.Samples.{toy, nonce_a, hash_a, ascii_lower, same_text}

abbrev spool_id : Text
spool_id = codes "00000000-0000-4000-8000-000000000001"

abbrev pub toy_outside : Outside
toy_outside = record {
  lower = ascii_lower;
  lookup_hash = λ _. hash_a;
  primitives = toy;
  refuses = λ _. false;
  resolve = λ s. record { folder = codes "imports"; name = s };
  imports_dir = codes "imports";
  sanitize = same_text;
  isdigit = λ _. false;
  float_of = λ _. err [];
  replies = λ _ _. other_error (codes "offline");
  imap = λ _. record { ok = true; error = [] };
  nonces =
      λ _. record { for_email = nonce_a; for_client_id = nonce_a; for_refresh_token = nonce_a };
  nonce_for = λ _. nonce_a;
  joined = λ _. none;
}

abbrev pub limits : Limits
limits = record {
  import_batch_size = 5;
  max_import_line_bytes = 80;
  worker_batch_size = 2;
  interval_days = 60;
  max_retries = 1;
}

abbrev one_line : Upload
one_line = record {
  content = codes "a@b.c----x----id----12345678901234567890";
  total = 1;
  duplicate_mode = update;
}

abbrev empty_world : World
empty_world = record {
  tables = record { jobs = []; accounts = record { rows = []; next_id = 1 }; files = [] };
  phase = idle;
}

abbrev pub go_on : ℕ → Event
go_on now = work toy_outside limits now (codes "error")

abbrev run_all : List Event → World → World
run_all [] w = w
run_all (e ∷ events) w = run_all events (execute e w)

abbrev first_events : List Event
first_events =
    upload spool_id 1 (spool_id ++ codes ".txt") (codes "a.txt") one_line
    ∷ go_on 2
    ∷ go_on 3
    ∷ go_on 4
    ∷ []

abbrev statuses : World → List JobStatus
statuses w = map (λ (j : Job). j.status) w.tables.jobs

claimed_upload : statuses (run_all (take 2 first_events) empty_world) ≡ running ∷ []
unfolding execute token_loom.Jobs.Queue.claim_job token_loom.Jobs.Queue.claim_found
    token_loom.Jobs.Queue.next_queued token_loom.Jobs.Queue.is_queued import_job
    token_loom.Jobs.Queue.first_of_two token_loom.Jobs.Queue.update_job token_loom.Prelude.text_eq
claimed_upload = refl

-- a crash behind the claim puts the job back
interrupted :
    statuses (execute (restart 4) (run_all (take 2 first_events) empty_world)) ≡ queued ∷ []
unfolding execute token_loom.Jobs.Queue.claim_job token_loom.Jobs.Queue.claim_found
    token_loom.Jobs.Queue.next_queued token_loom.Jobs.Queue.is_queued import_job
    token_loom.Jobs.Queue.first_of_two token_loom.Jobs.Queue.update_job token_loom.Prelude.text_eq
    token_loom.Jobs.Queue.recover_stale_jobs token_loom.Jobs.Queue.recover_job
    token_loom.Jobs.Queue.is_running
interrupted = refl

empty_world-IsOrderly : IsOrderly empty_world
empty_world-IsOrderly = record { distinct = tt; in_order = tt }

abbrev shelf : Text → SpoolFile
shelf name = record { path = name; name = name; is_file = true; modified = 0 }

-- The maintenance comes by while the file waits, which is then an hour old.
abbrev events : List Event
events =
    upload spool_id 1 (spool_id ++ codes ".txt") (codes "a.txt") one_line
    ∷ tidy_up (record { audit_retention_days = 1; job_retention_days = 1 }) 2 10000 shelf
    ∷ go_on 2
    ∷ go_on 3
    ∷ go_on 4
    ∷ []

-- how the events follow each other, from the world before the first
abbrev then_work :
    {w : World} (now : ℕ) → Run empty_world w → Run empty_world (execute (go_on now) w)
then_work now r = then_do r (go_on now) tt

spool_id-IsNew : IsNew spool_id empty_world
unfolding token_loom.Jobs.Queue.find_job
spool_id-IsNew = (refl, cc)

abbrev run : Run empty_world (run_all events empty_world)
run = then_work 4 (
    then_work 3 (
      then_work 2 (
        then_do
          (then_do start (upload spool_id 1 (spool_id ++ codes ".txt") (codes "a.txt") one_line)
            spool_id-IsNew)
          (tidy_up (record { audit_retention_days = 1; job_retention_days = 1 }) 2 10000 shelf)
          tt)))

Run-IsOrderly_example : IsOrderly (run_all events empty_world)
Run-IsOrderly_example = Run-IsOrderly empty_world-IsOrderly run

abbrev path_of : Text → Text
path_of id = id ++ codes ".txt"

Run-IsSpooled_example : IsSpooled path_of (run_all events empty_world)
Run-IsSpooled_example =
    Run-IsSpooled path_of empty_world-IsOrderly (record { files = tt; reads = tt }) run
      (((((tt, refl), λ id. refl), λ id. refl), λ id. refl), λ id. refl)
