-- ===== src/Worker/Machine/Spools/Writes.antt =====
-- What each write of the worker of app/worker.py does to a job that needs its file.
use token_loom.Prelude.{
  ℕ, ◌≡◌, refl, sym, ap, true, false, ◌||◌, Option, some, List, All, Text, Result, ok, err, arith,
  >>=-eq-ok, or_raise,
}
use token_loom.Prelude.Utf8.{Bytes}
use token_loom.Prelude.Dict.{Dict, get}
use token_loom.Records.{Account, Job}
use token_loom.Jobs.Queue.{
  is_active, is_running, is_queued, find_job, cancel_claimed, start_claimed, fail_claimed,
}
use token_loom.Import.Batch.{Batch, start_batch, read_batch, finish_import}
use token_loom.Refresh.Batches.{finish_batch, finish_empty}
use token_loom.Worker.Maintenance.{FilePath}
use token_loom.Worker.Work.{
  Outside, Limits, no_such_file, reader_out_of_fuel, raised_as, ImportRead, read_spool,
}
use token_loom.Worker.Machine.Rows.{find_job-id, All-find_job}
use token_loom.Worker.Machine.Order.{InOrder}
use token_loom.Worker.Machine.Spools.{needs_file}

running-active : (j : Job) → is_running j.status ≡ true → is_active j.status ≡ true
unfolding is_running is_active
running-active j r = ground (arith, r)

pub queued-active : (j : Job) → is_queued j.status ≡ true → is_active j.status ≡ true
unfolding is_queued is_active
queued-active j r = ground (arith, r)

pub cancelled-idle : (now : ℕ) (j : Job) → needs_file (cancel_claimed now j) ≡ false
unfolding needs_file cancel_claimed is_active
cancelled-idle now j = ground arith

pub failed-idle :
    (now : ℕ) (summary : Text) (j : Job) → needs_file (fail_claimed now summary j) ≡ false
unfolding needs_file fail_claimed is_active
failed-idle now summary j = ground arith

pub started-needs :
    (now : ℕ) (j : Job)
    → is_active j.status ≡ true
    → needs_file (start_claimed now j) ≡ true
    → needs_file j ≡ true
unfolding needs_file start_claimed
started-needs now j a n = ground (arith, a, n)

-- An import that is finished waits only where its file was neither read to its end nor cancelled.
pub finish_import-idle :
    (now : ℕ) (b : Batch) (inserted skipped : ℕ) (summary : Option Text) (j : Job)
    → (b.eof || j.cancel_requested) ≡ true
    → needs_file (finish_import now b inserted skipped summary j) ≡ false
unfolding needs_file finish_import is_active
finish_import-idle now b inserted skipped summary j e = ground (arith, e)

-- a write that turns no active job into an import that needs a file, and keeps its id and its path
pub record KeepsActive (f : Job → Job) : Type 0 where
  pub keeps_id : (j : Job) → (f j).id ≡ j.id
  pub keeps_path : (j : Job) → (f j).source_path ≡ j.source_path
  pub needs_before :
      (j : Job) → is_active j.status ≡ true → needs_file (f j) ≡ true → needs_file j ≡ true

pub finish_import-KeepsActive :
    (now : ℕ) (b : Batch) (inserted skipped : ℕ) (summary : Option Text)
    → KeepsActive (finish_import now b inserted skipped summary)
unfolding needs_file finish_import
finish_import-KeepsActive now b inserted skipped summary = record {
  keeps_id = λ j. ground arith;
  keeps_path = λ j. ground arith;
  needs_before = λ j a n. ground (arith, a, n);
}

pub finish_batch-KeepsActive :
    (now size : ℕ) (accounts : List Account) (success failures : ℕ)
    → KeepsActive (finish_batch now size accounts success failures)
unfolding needs_file finish_batch
finish_batch-KeepsActive now size accounts success failures = record {
  keeps_id = λ j. ground arith;
  keeps_path = λ j. ground arith;
  needs_before = λ j a n. ground (arith, a, n);
}

pub finish_empty-KeepsActive : (now : ℕ) → KeepsActive (finish_empty now)
unfolding needs_file finish_empty
finish_empty-KeepsActive now = record {
  keeps_id = λ j. refl;
  keeps_path = λ j. refl;
  needs_before = λ j a n. ground (arith, a, n);
}

pub raised_as-eq-ok {ℓ κ μ} :
    {E : Type ℓ} {F : Type κ} {A : Type μ} (f : E → F) (r : Result E A) {a : A}
    → raised_as f r ≡ ok a
    → r ≡ ok a
raised_as-eq-ok f (ok b) e = cc
raised_as-eq-ok f (err x) e = cc

pub read_spool-name :
    (o : Outside) (limits : Limits) (j : Job) (files : Dict Bytes) (path : FilePath)
    {r : ImportRead}
    → read_spool o limits j files path ≡ ok r
    → r.name ≡ path.name
unfolding read_spool
read_spool-name o limits j files path e =
    let (content, _, h) = >>=-eq-ok (or_raise (get path.name files) no_such_file) _ e in
    let (batch, _, done) =
      >>=-eq-ok
        (or_raise
          (read_batch o.lower limits.max_import_line_bytes j.cursor_id j.processed
            limits.import_batch_size (start_batch j.cursor_id content))
          reader_out_of_fuel)
        _ h in
    cc

-- the job that the worker holds is active
pub held-active :
    (id : Text) (jobs : List Job) (j : Job)
    → All (InOrder (some id)) jobs
    → find_job id jobs ≡ some j
    → is_active j.status ≡ true
held-active id jobs j h found = running-active j (
    (All-find_job (InOrder (some id)) id jobs {j = j} h found).running_if_held
      (ap (λ (t : Text). some t) (sym (find_job-id id jobs {j = j} found))))
