-- ===== src/Worker/Machine/Spools/Commits.antt =====
-- What the last transactions of the turns of app/worker.py leave of the files of imports.
use token_loom.Prelude.{
  ℕ, ◌≡◌, refl, ap, ◌∙◌, subst, ◌||◌, Option, some, List, All, Text, ok, arith, inl, inr,
  if◌then◌else◌, Bool-cases, >>=-eq-ok, or_raise, or_raise-eq-ok,
}
use token_loom.Prelude.Utf8.{Bytes}
use token_loom.Prelude.Dict.{Dict, pop}
use token_loom.Records.{Account, Job}
use token_loom.Jobs.Queue.{find_job, update_job}
use token_loom.Import.Rows.{upsert_accounts}
use token_loom.Import.Batch.{Batch, finish_import}
use token_loom.Refresh.Batches.{finish_batch, finish_empty}
use token_loom.Refresh.Results.{AccountResult}
use token_loom.Worker.Maintenance.{safe_spool_path, SpoolError}
use token_loom.Worker.Work.{
  Outside, Limits, no_job, no_import_file, unsafe_path, vault, database, raised_as, account_rows,
  settle_accounts, ImportRead, Tables, read_import, commit_import, commit_batch, commit_empty,
}
use token_loom.Worker.Machine.Rows.{All-find_job}
use token_loom.Worker.Machine.Turns.{Orderly}
use token_loom.Worker.Machine.Spools.{
  file_name, HasFile, IsPlacing, settled-HasFile, safe_spool_path-name,
}
use token_loom.Worker.Machine.Spools.Writes.{
  finish_import-idle, finish_import-KeepsActive, finish_batch-KeepsActive, finish_empty-KeepsActive,
  raised_as-eq-ok, read_spool-name, held-active, KeepsActive,
}

module _ (path_of : Text → Text) (o : Outside) (placing : IsPlacing path_of o) (limits : Limits)
    (now : ℕ) where
  -- the write that ends the turn of the held job, where its file stays
  active-All :
      (id : Text) (f : Job → Job) (t : Tables) (j : Job)
      → KeepsActive f
      → find_job id t.jobs ≡ some j
      → Orderly (some id) t.jobs
      → All (HasFile path_of t.files) t.jobs
      → All (HasFile path_of t.files) (update_job id f t.jobs)
  active-All id f t j keep e order h =
      let row = All-find_job (HasFile path_of t.files) id t.jobs {j = j} h e in
      settled-HasFile path_of id f t.files t.files t.jobs j order.0 e
        (λ n.
          rw (keep.keeps_id j, keep.keeps_path j)
            (row (keep.needs_before j (held-active id t.jobs j order.1 e) n)))
        (inl refl) h

  -- the write of an import, and the removal of its file behind the last one
  imported-All :
      (id name : Text) (b : Batch) (inserted skipped : ℕ) (summary : Option Text) (t : Tables)
      (j : Job)
      → name ≡ file_name id
      → find_job id t.jobs ≡ some j
      → Orderly (some id) t.jobs
      → All (HasFile path_of t.files) t.jobs
      → All
          (HasFile path_of (if b.eof || j.cancel_requested then pop name t.files else t.files))
          (update_job id (finish_import now b inserted skipped summary) t.jobs)
  imported-All id name b inserted skipped summary t j own e order h =
      let f = finish_import now b inserted skipped summary in
      elim (Bool-cases (b.eof || j.cancel_requested)) [
        | inl last ↦ rw last (
            settled-HasFile path_of id f t.files (pop name t.files) t.jobs j order.0 e
              (λ n.
                absurd
                  (ground (arith, n, finish_import-idle now b inserted skipped summary j last)))
              (inr (ap (λ (k : Text). pop k t.files) own)) h)
        | inr more ↦ rw more (
            active-All id f t j (finish_import-KeepsActive now b inserted skipped summary) e order
              h)
      ]

  pub commit_import-IsSpooled :
      (id : Text) (r : ImportRead) (t : Tables)
      → r.name ≡ file_name id
      → Orderly (some id) t.jobs
      → All (HasFile path_of t.files) t.jobs
      → (t' : Tables) → commit_import o limits now id r t ≡ ok t'
      → All (HasFile path_of t'.files) t'.jobs
  unfolding commit_import
  commit_import-IsSpooled id r t own order h t' done =
      let (j, found, hj) = >>=-eq-ok (or_raise (find_job id t.jobs) no_job) _ done in
      let (rows, _, hr) =
        >>=-eq-ok
          (raised_as vault (account_rows o r.source_name limits.interval_days now 0 r.batch.parsed))
          _ hj in
      let (w, _, hw) =
        >>=-eq-ok (raised_as database (upsert_accounts o.refuses r.duplicate_mode rows t.accounts))
          _ hr in
      let e = or_raise-eq-ok (find_job id t.jobs) no_job found in
      let f = finish_import now r.batch w.0 w.1 (o.joined r.batch.errors) in
      let jobs_eq : update_job id f t.jobs ≡ t'.jobs = cc in
      let files_eq : (if r.batch.eof || j.cancel_requested then pop r.name t.files else t.files)
          ≡ t'.files =
        cc in
      let all =
        imported-All id r.name r.batch w.0 w.1 (o.joined r.batch.errors) t j own e order h in
      subst (λ (jobs : List Job). All (HasFile path_of t'.files) jobs) jobs_eq
        (subst (λ (files : Dict Bytes). All (HasFile path_of files) (update_job id f t.jobs))
          files_eq all)

  pub commit_batch-IsSpooled :
      (id : Text) (accounts : List Account) (results : List AccountResult) (t : Tables)
      → Orderly (some id) t.jobs
      → All (HasFile path_of t.files) t.jobs
      → (t' : Tables) → commit_batch o limits now id accounts results t ≡ ok t'
      → All (HasFile path_of t'.files) t'.jobs
  unfolding commit_batch
  commit_batch-IsSpooled id accounts results t order h t' done =
      let (j, found, hj) = >>=-eq-ok (or_raise (find_job id t.jobs) no_job) _ done in
      let (s, _, hs) =
        >>=-eq-ok (raised_as vault (settle_accounts o limits now results t.accounts.rows)) _ hj in
      let e = or_raise-eq-ok (find_job id t.jobs) no_job found in
      let f = finish_batch now limits.worker_batch_size accounts s.0 s.1 in
      let jobs_eq : update_job id f t.jobs ≡ t'.jobs = cc in
      let files_eq : t.files ≡ t'.files = cc in
      let all =
        active-All id f t j (finish_batch-KeepsActive now limits.worker_batch_size accounts s.0 s.1)
          e order h in
      subst (λ (jobs : List Job). All (HasFile path_of t'.files) jobs) jobs_eq
        (subst (λ (files : Dict Bytes). All (HasFile path_of files) (update_job id f t.jobs))
          files_eq all)

  pub commit_empty-IsSpooled :
      (id : Text) (t : Tables)
      → Orderly (some id) t.jobs
      → All (HasFile path_of t.files) t.jobs
      → (t' : Tables) → commit_empty o limits now id t ≡ ok t'
      → All (HasFile path_of t'.files) t'.jobs
  unfolding commit_empty
  commit_empty-IsSpooled id t order h t' done =
      let (j, found, hj) = >>=-eq-ok (or_raise (find_job id t.jobs) no_job) _ done in
      let e = or_raise-eq-ok (find_job id t.jobs) no_job found in
      let jobs_eq : update_job id (finish_empty now) t.jobs ≡ t'.jobs = cc in
      let files_eq : t.files ≡ t'.files = cc in
      let all = active-All id (finish_empty now) t j (finish_empty-KeepsActive now) e order h in
      subst (λ (jobs : List Job). All (HasFile path_of t'.files) jobs) jobs_eq
        (subst
          (λ (files : Dict Bytes).
            All (HasFile path_of files) (update_job id (finish_empty now) t.jobs))
          files_eq all)

  -- what is read comes from the file of the job
  pub read_import-own :
      (id : Text) (t : Tables) (j : Job) {r : ImportRead}
      → find_job id t.jobs ≡ some j
      → j.source_path ≡ some (path_of id)
      → read_import o limits id t.jobs t.files ≡ ok r
      → r.name ≡ file_name id
  unfolding read_import
  read_import-own id t j {r} e path done =
      let (k, found, h1) = >>=-eq-ok (or_raise (find_job id t.jobs) no_import_file) _ done in
      let same : k ≡ j = cc (or_raise-eq-ok (find_job id t.jobs) no_import_file found) in
      let (value, there, h2) = >>=-eq-ok (or_raise k.source_path no_import_file) _ h1 in
      let (p, safe, h3) =
        >>=-eq-ok
          (raised_as (λ (_ : SpoolError). unsafe_path)
            (safe_spool_path o.resolve o.imports_dir value))
          _ h2 in
      let at : value ≡ path_of id = cc (or_raise-eq-ok k.source_path no_import_file there) in
      let found_path =
        raised_as-eq-ok (λ (_ : SpoolError). unsafe_path)
          (safe_spool_path o.resolve o.imports_dir value) safe in
      read_spool-name o limits k t.files p h3
      ∙ safe_spool_path-name o.resolve o.imports_dir value found_path
      ∙ ap (λ v. (o.resolve v).name) at
      ∙ placing id
