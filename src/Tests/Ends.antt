-- ===== src/Tests/Ends.antt =====
-- A job that has ended, and one that is to be cancelled, through events of the worker and of the web
-- application.
use token_loom.Prelude.{◌≡◌, refl, true, false, none, some, List, [], ◌∷◌, Text, codes, arith}
use token_loom.Records.{Job, queued, completed}
use token_loom.Jobs.Queue.{is_active, is_running, find_job, cancel_claimed}
use token_loom.Worker.Machine.{idle, World, restart, cancel, execute, Run, start, then_do}
use token_loom.Worker.Machine.Order.{IsOrderly}
use token_loom.Worker.Machine.Ends.Runs.{IsStopped, Run-IsStopped}
use token_loom.Tests.Machines.{go_on}
use token_loom.Tests.Samples.{job_of}

abbrev ended : Job
ended = job_of (codes "b") completed 100 1 false (some 3)

abbrev unwanted : Job
unwanted = job_of (codes "e") queued 40 5 true none

abbrev world : World
world = record {
  tables = record {
    jobs = ended ∷ unwanted ∷ [];
    accounts = record { rows = []; next_id = 1 };
    files = [];
  };
  phase = idle;
}

world-IsOrderly : IsOrderly world
unfolding is_active is_running find_job token_loom.Prelude.text_eq
world-IsOrderly = record {
  distinct = (refl, (refl, tt));
  in_order = (
    record {
      consistent = record {
        open_end = λ e. ground (arith, e);
        has_end = λ _ e. ground (arith, e);
        has_begun = λ e. ground (arith, e);
      };
      held_if_running = λ e. ground (arith, e);
      running_if_held = λ e. ground (arith, e);
    },
    (
      record {
        consistent = record {
          open_end = λ _. refl;
          has_end = λ e. ground (arith, e);
          has_begun = λ e. ground (arith, e);
        };
        held_if_running = λ e. ground (arith, e);
        running_if_held = λ e. ground (arith, e);
      },
      tt,
    ),
  );
}

-- the worker takes the next job, the ended one is asked to stop, and the worker starts again
abbrev last_world : World
last_world = execute (restart 9) (execute (cancel (codes "b")) (execute (go_on 7) world))

abbrev run : Run world last_world
run = then_do (then_do (then_do start (go_on 7) tt) (cancel (codes "b")) tt) (restart 9) tt

found_unwanted : find_job (codes "e") last_world.tables.jobs ≡ some (cancel_claimed 7 unwanted)
unfolding find_job execute token_loom.Jobs.Queue.recover_stale_jobs token_loom.Jobs.Queue.cancel_job
    token_loom.Jobs.Queue.claim_job token_loom.Jobs.Queue.claim_found
    token_loom.Jobs.Queue.next_queued token_loom.Jobs.Queue.is_queued
    token_loom.Jobs.Queue.first_of_two token_loom.Jobs.Queue.update_job token_loom.Prelude.text_eq
    token_loom.Jobs.Queue.recover_job
found_unwanted = refl

Run-IsStopped_example : IsStopped (cancel_claimed 7 unwanted)
unfolding is_running find_job token_loom.Prelude.text_eq
Run-IsStopped_example =
    Run-IsStopped (codes "e") run unwanted (cancel_claimed 7 unwanted) world-IsOrderly
      (((tt, λ e. cc), λ e. cc), λ e. cc) refl (record { requested = refl; idle = refl })
      found_unwanted
