-- ===== src/Worker/Machine/Ends/Turns.antt =====
-- The steps of the worker of app/worker.py leave a job that has ended or is to be cancelled.
use token_loom.Prelude.{
  ℕ, ◌≡◌, refl, Bool, true, false, Option, none, some, All, Text, is_empty, Result, ok, err, inl,
  inr, Bool-cases, Result-cases,
}
use token_loom.Records.{Job, JobKind, import_file, refresh, health, other_kind}
use token_loom.Jobs.Queue.{find_job, claim_job, next_queued}
use token_loom.Worker.Work.{
  Outside, Limits, WorkError, Tables, read_import, commit_import, commit_batch, commit_empty,
  load_batch,
}
use token_loom.Worker.Machine.{
  Phase, idle, claimed, importing, refreshing, holder, fail_turn, claim_turn, end_turn, import_turn,
  account_turn, dispatch, advance,
}
use token_loom.Worker.Machine.Turns.{Orderly}
use token_loom.Worker.Machine.Advance.{
  Ended, commit_import-Ended, commit_batch-Ended, commit_empty-Ended,
}
use token_loom.Worker.Machine.Ends.Rows.{IsLasting, At, held-All, failed-All, claimed-All}

module _ (Q : Job → Type 0) (lasting : IsLasting Q) (i : Text) where
  module _ (o : Outside) (limits : Limits) (now : ℕ) where
    fail_turn-All :
        (id summary : Text) (t : Tables)
        → Orderly (some id) t.jobs
        → All (At Q i) t.jobs
        → All (At Q i) (fail_turn o limits now id summary t).tables.jobs
    unfolding fail_turn
    fail_turn-All id summary t d h = failed-All Q lasting i now id summary t.jobs d.1 h

    end_turn-All :
        (id summary : Text) (t : Tables) (r : Result WorkError Tables)
        → ((t' : Tables) → r ≡ ok t' → Ended id t t')
        → Orderly (some id) t.jobs
        → All (At Q i) t.jobs
        → All (At Q i) (end_turn o limits now id summary t r).tables.jobs
    unfolding end_turn
    end_turn-All id summary t (err raised) done d h = fail_turn-All id summary t d h
    end_turn-All id summary t (ok t') done d h =
        let (f, ends, same) = done t' refl in
        rw same (held-All Q lasting i id f t.jobs ends.keeps_id d.1 h)

    import_turn-All :
        (id summary : Text) (t : Tables)
        → Orderly (some id) t.jobs
        → All (At Q i) t.jobs
        → All (At Q i) (import_turn o limits now id summary t).tables.jobs
    unfolding import_turn
    import_turn-All id summary t d h =
        elim (Result-cases (read_import o limits id t.jobs t.files)) [
          | inl (r, e) ↦ rw (e, import_turn) h
          | inr (x, e) ↦ rw (e, import_turn) (fail_turn-All id summary t d h)
        ]

    account_turn-All :
        (id summary : Text) (is_health : Bool) (t : Tables)
        → Orderly (some id) t.jobs
        → All (At Q i) t.jobs
        → All (At Q i) (account_turn o limits now id summary is_health t).tables.jobs
    unfolding account_turn
    account_turn-All id summary is_health t d h =
        elim (Result-cases (load_batch o limits now id t)) [
          | inr (x, e) ↦ rw (e, account_turn) (fail_turn-All id summary t d h)
          | inl ((rows, opened), e) ↦ elim (Bool-cases (is_empty rows)) [
            | inl f ↦
                rw (e, account_turn, f)
                  (end_turn-All id summary t (commit_empty o limits now id t)
                    (λ t' done. commit_empty-Ended o limits now id t done) d h)
            | inr f ↦ rw (e, account_turn, f) h
          ]
        ]

    dispatch-All :
        (id summary : Text) (found : Option Job) (t : Tables)
        → Orderly (some id) t.jobs
        → All (At Q i) t.jobs
        → All (At Q i) (dispatch o limits now id summary found t).tables.jobs
    unfolding dispatch
    dispatch-All id summary none t d h = fail_turn-All id summary t d h
    dispatch-All id summary (some j) t d h =
        elim j.kind
          as (λ (k : JobKind).
            All (At Q i)
              (dispatch o limits now id summary (some (record j { kind = k })) t).tables.jobs) [
                | import_file ↦ import_turn-All id summary t d h
                | refresh ↦ account_turn-All id summary false t d h
                | health ↦ account_turn-All id summary true t d h
                | other_kind _ ↦ fail_turn-All id summary t d h
              ]

    pub advance-All :
        (summary : Text) (phase : Phase) (t : Tables)
        → Orderly (holder phase) t.jobs
        → All (At Q i) t.jobs
        → All (At Q i) (advance o limits now summary phase t).tables.jobs
    unfolding advance claim_turn claim_job
    advance-All summary idle t d h =
        claimed-All Q lasting i now t.jobs (next_queued t.jobs) refl d.0 h
    advance-All summary (claimed id) t d h = dispatch-All id summary (find_job id t.jobs) t d h
    advance-All summary (importing id r) t d h =
        end_turn-All id summary t (commit_import o limits now id r t)
          (λ t' done. commit_import-Ended o limits now id t r done) d h
    advance-All summary (refreshing id rows results) t d h =
        end_turn-All id summary t (commit_batch o limits now id rows results t)
          (λ t' done. commit_batch-Ended o limits now id t rows results done) d h
