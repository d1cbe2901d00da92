-- ===== src/Worker/Lifecycle/Starts.antt =====
-- The jobs that the routes of app/main.py add, as first states.
use token_loom.Prelude.{ℕ, refl, List, Text}
use token_loom.Prelude.Ints.{ℤ}
use token_loom.Records.{JobKind, JobScope}
use token_loom.Jobs.Queue.{is_active, is_running}
use token_loom.Import.Upload.{Upload, import_job}
use token_loom.Import.Batch.Counts.{IsBalanced}
use token_loom.Api.Orders.{new_job}
use token_loom.Worker.Lifecycle.{IsConsistent}

-- A job of an import begins consistent and with balanced counters.
pub import_job-IsConsistent :
    (id : Text) (now : ℕ) (path name : Text) (u : Upload)
    → IsConsistent (import_job id now path name u) × IsBalanced (import_job id now path name u)
unfolding import_job is_active is_running
import_job-IsConsistent id now path name u =
    (record { open_end = λ _. refl; has_end = λ e. cc; has_begun = λ e. cc }, refl)

pub new_job-IsConsistent :
    (id : Text) (now : ℕ) (kind : JobKind) (scope : JobScope) (ids : List ℤ) (total largest : ℕ)
    → IsConsistent (new_job id now kind scope ids total largest)
unfolding new_job is_active is_running
new_job-IsConsistent id now kind scope ids total largest = record {
  open_end = λ _. refl;
  has_end = λ e. cc;
  has_begun = λ e. cc;
}
