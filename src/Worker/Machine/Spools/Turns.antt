-- ===== src/Worker/Machine/Spools/Turns.antt =====
-- The steps of the worker of app/worker.py keep the files of imports.
use token_loom.Prelude.{
  ℕ, ◌≡◌, refl, ap, ◌∙◌, Bool, true, false, Option, none, some, All, Text, is_empty, Result, ok,
  err, arith, inl, inr, Bool-cases, Option-cases, Result-cases,
}
use token_loom.Records.{Job, JobKind, import_file, refresh, health, other_kind}
use token_loom.Jobs.Queue.{
  is_import, find_job, next_queued, claim_found, claim_job, cancel_claimed, start_claimed, fail_job,
  fail_claimed,
}
use token_loom.Jobs.Queue.Claims.{next_queued-IsNext}
use token_loom.Worker.Work.{
  Outside, Limits, WorkError, Tables, remove_import_spool, read_import, commit_import, commit_batch,
  commit_empty, load_batch,
}
use token_loom.Worker.Machine.{
  Phase, idle, claimed, importing, refreshing, World, holder, phase_of, fail_turn, claim_turn,
  end_turn, import_turn, account_turn, dispatch, advance,
}
use token_loom.Worker.Machine.Rows.{IsDistinct, find_job-id, All-find_job, IsIn-find_job}
use token_loom.Worker.Machine.Turns.{Orderly}
use token_loom.Worker.Machine.Spools.{
  needs_file, file_name, HasFile, IsPlacing, settled-HasFile, released-Lost,
}
use token_loom.Worker.Machine.Spools.Writes.{
  queued-active, cancelled-idle, failed-idle, started-needs, held-active,
}
use token_loom.Worker.Machine.Spools.Commits.{
  commit_import-IsSpooled, commit_batch-IsSpooled, commit_empty-IsSpooled, read_import-own,
}

module _ (path_of : Text → Text) where
  -- what the worker has read belongs to the file of its job
  abbrev pub ReadsOwn : Phase → Type 0
  ReadsOwn (importing id r) = r.name ≡ file_name id
  ReadsOwn _ = Unit

  reads-phase_of : (x : Option Text) → ReadsOwn (phase_of x)
  reads-phase_of none = tt
  reads-phase_of (some id) = tt

  -- Every import that waits or runs has its file.
  pub record IsSpooled (w : World) : Type 0 where
    pub files : All (HasFile path_of w.tables.files) w.tables.jobs
    pub reads : ReadsOwn w.phase

  module _ (o : Outside) (placing : IsPlacing path_of o) (limits : Limits) (now : ℕ) where
    fail_turn-IsSpooled :
        (id summary : Text) (t : Tables)
        → Orderly (some id) t.jobs
        → All (HasFile path_of t.files) t.jobs
        → IsSpooled (fail_turn o limits now id summary t)
    unfolding fail_turn fail_job remove_import_spool
    fail_turn-IsSpooled id summary t order h = elim (Option-cases (find_job id t.jobs)) [
      | inl e ↦ rw (e, fail_turn, fail_job) (record { files = h; reads = tt })
      | inr (j, e) ↦
          let own = find_job-id id t.jobs {j = j} e in
          let row = All-find_job (HasFile path_of t.files) id t.jobs {j = j} h e in
          let lost =
            released-Lost path_of o j t.files placing (held-active id t.jobs j order.1 e) row in
          rw (e, fail_turn, fail_job)
            (record {
              files =
                  settled-HasFile path_of id (fail_claimed now summary) t.files _ t.jobs j order.0 e
                    (λ n. absurd (ground (arith, n, failed-idle now summary j))) (rw own at lost) h;
              reads = tt;
            })
    ]

    claim_found-IsSpooled :
        (t : Tables) (found : Option Job)
        → next_queued t.jobs ≡ found
        → IsDistinct t.jobs
        → All (HasFile path_of t.files) t.jobs
        → All
            (HasFile path_of (remove_import_spool o (claim_found now t.jobs found).removed t.files))
            (claim_found now t.jobs found).jobs
    unfolding claim_found remove_import_spool
    claim_found-IsSpooled t none n d h = h
    claim_found-IsSpooled t (some j) n d h =
        let next = next_queued-IsNext t.jobs {j = j} n in
        let active = queued-active j next.queued in
        let found = IsIn-find_job j t.jobs d next.member in
        let row = All-find_job (HasFile path_of t.files) j.id t.jobs {j = j} h found in
        elim (Bool-cases j.cancel_requested) [
          | inl c ↦ rw c (
              settled-HasFile path_of j.id (cancel_claimed now) t.files _ t.jobs j d found
                (λ n. absurd (ground (arith, n, cancelled-idle now j)))
                (released-Lost path_of o j t.files placing active row) h)
          | inr c ↦ rw c (
              settled-HasFile path_of j.id (start_claimed now) t.files _ t.jobs j d found
                (λ n. row (started-needs now j active n)) (inl refl) h)
        ]

    claim_turn-IsSpooled :
        (t : Tables)
        → IsDistinct t.jobs
        → All (HasFile path_of t.files) t.jobs
        → IsSpooled (claim_turn o limits now t)
    unfolding claim_turn claim_job
    claim_turn-IsSpooled t d h = record {
      files = claim_found-IsSpooled t (next_queued t.jobs) refl d h;
      reads = reads-phase_of (claim_found now t.jobs (next_queued t.jobs)).job_id;
    }

    end_turn-IsSpooled :
        (id summary : Text) (t : Tables) (r : Result WorkError Tables)
        → ((t' : Tables) → r ≡ ok t' → All (HasFile path_of t'.files) t'.jobs)
        → Orderly (some id) t.jobs
        → All (HasFile path_of t.files) t.jobs
        → IsSpooled (end_turn o limits now id summary t r)
    unfolding end_turn
    end_turn-IsSpooled id summary t (err raised) done order h =
        fail_turn-IsSpooled id summary t order h
    end_turn-IsSpooled id summary t (ok t') done order h = record {
      files = done t' refl;
      reads = tt;
    }

    import_turn-IsSpooled :
        (id summary : Text) (t : Tables) (j : Job)
        → find_job id t.jobs ≡ some j
        → is_import j.kind ≡ true
        → Orderly (some id) t.jobs
        → All (HasFile path_of t.files) t.jobs
        → IsSpooled (import_turn o limits now id summary t)
    unfolding import_turn
    import_turn-IsSpooled id summary t j e kind order h =
        elim (Result-cases (read_import o limits id t.jobs t.files)) [
          | inr (x, f) ↦ rw (f, import_turn) (fail_turn-IsSpooled id summary t order h)
          | inl (r, f) ↦
              let row = All-find_job (HasFile path_of t.files) id t.jobs {j = j} h e in
              let needs : needs_file j ≡ true =
                unfold needs_file in rw (kind, held-active id t.jobs j order.1 e) refl in
              let path =
                (row needs).0 ∙ ap (λ i. some (path_of i)) (find_job-id id t.jobs {j = j} e) in
              rw (f, import_turn)
                (record {
                  files = h;
                  reads = read_import-own path_of o placing limits now id t j e path f;
                })
        ]

    account_turn-IsSpooled :
        (id summary : Text) (is_health : Bool) (t : Tables)
        → Orderly (some id) t.jobs
        → All (HasFile path_of t.files) t.jobs
        → IsSpooled (account_turn o limits now id summary is_health t)
    unfolding account_turn
    account_turn-IsSpooled id summary is_health t order h =
        elim (Result-cases (load_batch o limits now id t)) [
          | inr (x, e) ↦ rw (e, account_turn) (fail_turn-IsSpooled id summary t order h)
          | inl ((rows, work), e) ↦ elim (Bool-cases (is_empty rows)) [
            | inl f ↦
                rw (e, account_turn, f)
                  (end_turn-IsSpooled id summary t (commit_empty o limits now id t)
                    (commit_empty-IsSpooled path_of o placing limits now id t order h) order h)
            | inr f ↦ rw (e, account_turn, f) (record { files = h; reads = tt })
          ]
        ]

    dispatch-IsSpooled :
        (id summary : Text) (found : Option Job) (t : Tables)
        → find_job id t.jobs ≡ found
        → Orderly (some id) t.jobs
        → All (HasFile path_of t.files) t.jobs
        → IsSpooled (dispatch o limits now id summary found t)
    unfolding dispatch
    dispatch-IsSpooled id summary none t e order h = fail_turn-IsSpooled id summary t order h
    dispatch-IsSpooled id summary (some j) t e order h =
        (elim j.kind
            as (λ (k : JobKind).
              j.kind ≡ k
              → IsSpooled (dispatch o limits now id summary (some (record j { kind = k })) t)) [
                | import_file ↦ λ same.
                    import_turn-IsSpooled id summary t j e (unfold is_import in rw same refl) order
                      h
                | refresh ↦ λ same. account_turn-IsSpooled id summary false t order h
                | health ↦ λ same. account_turn-IsSpooled id summary true t order h
                | other_kind _ ↦ λ same. fail_turn-IsSpooled id summary t order h
              ])
          refl

    pub advance-IsSpooled :
        (summary : Text) (phase : Phase) (t : Tables)
        → Orderly (holder phase) t.jobs
        → All (HasFile path_of t.files) t.jobs
        → ReadsOwn phase
        → IsSpooled (advance o limits now summary phase t)
    unfolding advance
    advance-IsSpooled summary idle t order h own = claim_turn-IsSpooled t order.0 h
    advance-IsSpooled summary (claimed id) t order h own =
        dispatch-IsSpooled id summary (find_job id t.jobs) t refl order h
    advance-IsSpooled summary (importing id r) t order h own =
        end_turn-IsSpooled id summary t (commit_import o limits now id r t)
          (commit_import-IsSpooled path_of o placing limits now id r t own order h) order h
    advance-IsSpooled summary (refreshing id rows results) t order h own =
        end_turn-IsSpooled id summary t (commit_batch o limits now id rows results t)
          (commit_batch-IsSpooled path_of o placing limits now id rows results t order h) order h
