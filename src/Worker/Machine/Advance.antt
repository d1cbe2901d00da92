-- ===== src/Worker/Machine/Advance.antt =====
-- The steps of the worker of app/worker.py keep the table of jobs in order.
use token_loom.Prelude.{
  ℕ, ◌≡◌, refl, Bool, true, false, Option, none, some, List, is_empty, Text, Result, ok, err, inl,
  inr, Bool-cases, Result-cases, >>=-eq-ok, or_raise,
}
use token_loom.Records.{Account, Job, JobKind, import_file, refresh, health, other_kind}
use token_loom.Jobs.Queue.{find_job, update_job, claim_found, claim_job, next_queued}
use token_loom.Import.Rows.{upsert_accounts}
use token_loom.Import.Batch.{finish_import}
use token_loom.Refresh.Batches.{finish_batch, finish_empty}
use token_loom.Refresh.Results.{AccountResult}
use token_loom.Worker.Work.{
  Outside, Limits, WorkError, no_job, vault, database, raised_as, account_rows, settle_accounts,
  ImportRead, Tables, commit_import, commit_batch, commit_empty, load_batch, read_import,
}
use token_loom.Worker.Machine.{
  Phase, idle, claimed, importing, refreshing, World, holder, phase_of, fail_turn, claim_turn,
  end_turn, import_turn, account_turn, dispatch, advance,
}
use token_loom.Worker.Machine.Order.{IsOrderly, EndsTurn}
use token_loom.Worker.Machine.Turns.{
  finish_import-EndsTurn, finish_batch-EndsTurn, finish_empty-EndsTurn, Orderly, released-Orderly,
  fail_job-Orderly, claim_found-Orderly,
}

-- the write that the last transaction of a turn makes to the job
abbrev pub Ended : Text → Tables → Tables → Type 0
Ended id t t' = (f : Job → Job) × EndsTurn f × (t'.jobs ≡ update_job id f t.jobs)

module _ (o : Outside) (limits : Limits) (now : ℕ) (id : Text) (t : Tables) {t' : Tables} where
  pub commit_import-Ended :
      (r : ImportRead) → commit_import o limits now id r t ≡ ok t' → Ended id t t'
  unfolding commit_import
  commit_import-Ended r h =
      let (j, _, hj) = >>=-eq-ok (or_raise (find_job id t.jobs) no_job) _ h in
      let (rows, _, hr) =
        >>=-eq-ok
          (raised_as vault (account_rows o r.source_name limits.interval_days now 0 r.batch.parsed))
          _ hj in
      let (w, _, hw) =
        >>=-eq-ok (raised_as database (upsert_accounts o.refuses r.duplicate_mode rows t.accounts))
          _ hr in
      (
        finish_import now r.batch w.0 w.1 (o.joined r.batch.errors),
        finish_import-EndsTurn now r.batch w.0 w.1 (o.joined r.batch.errors),
        cc,
      )

  pub commit_batch-Ended :
      (accounts : List Account) (results : List AccountResult)
      → commit_batch o limits now id accounts results t ≡ ok t'
      → Ended id t t'
  unfolding commit_batch
  commit_batch-Ended accounts results h =
      let (j, _, hj) = >>=-eq-ok (or_raise (find_job id t.jobs) no_job) _ h in
      let (s, _, hs) =
        >>=-eq-ok (raised_as vault (settle_accounts o limits now results t.accounts.rows)) _ hj in
      (
        finish_batch now limits.worker_batch_size accounts s.0 s.1,
        finish_batch-EndsTurn now limits.worker_batch_size accounts s.0 s.1,
        cc,
      )

  pub commit_empty-Ended : commit_empty o limits now id t ≡ ok t' → Ended id t t'
  unfolding commit_empty
  commit_empty-Ended h =
      let (j, _, hj) = >>=-eq-ok (or_raise (find_job id t.jobs) no_job) _ h in
      (finish_empty now, finish_empty-EndsTurn now, cc)

pub orderly : (w : World) → Orderly (holder w.phase) w.tables.jobs → IsOrderly w
orderly w h = record { distinct = h.0; in_order = h.1 }

holder-phase_of : (x : Option Text) → holder (phase_of x) ≡ x
holder-phase_of none = refl
holder-phase_of (some id) = refl

module _ (o : Outside) (limits : Limits) (now : ℕ) where
  fail_turn-IsOrderly :
      (id summary : Text) (t : Tables)
      → Orderly (some id) t.jobs
      → IsOrderly (fail_turn o limits now id summary t)
  unfolding fail_turn
  fail_turn-IsOrderly id summary t h = orderly _ (fail_job-Orderly now id summary t.jobs h)

  end_turn-IsOrderly :
      (id summary : Text) (t : Tables) (r : Result WorkError Tables)
      → ((t' : Tables) → r ≡ ok t' → Ended id t t')
      → Orderly (some id) t.jobs
      → IsOrderly (end_turn o limits now id summary t r)
  unfolding end_turn
  end_turn-IsOrderly id summary t (err raised) done h = fail_turn-IsOrderly id summary t h
  end_turn-IsOrderly id summary t (ok t') done h =
      let (f, ends, same) = done t' refl in
      orderly _ (rw same (released-Orderly id f t.jobs ends h))

  claim_turn-IsOrderly : (t : Tables) → Orderly none t.jobs → IsOrderly (claim_turn o limits now t)
  unfolding claim_turn claim_job
  claim_turn-IsOrderly t h =
      let c = claim_found now t.jobs (next_queued t.jobs) in
      orderly _
        (rw (holder-phase_of c.job_id) (claim_found-Orderly now t.jobs (next_queued t.jobs) refl h))

  import_turn-IsOrderly :
      (id summary : Text) (t : Tables)
      → Orderly (some id) t.jobs
      → IsOrderly (import_turn o limits now id summary t)
  unfolding import_turn
  import_turn-IsOrderly id summary t h =
      elim (Result-cases (read_import o limits id t.jobs t.files)) [
        | inl (r, e) ↦
            rw (e, import_turn) (orderly (record { tables = t; phase = importing id r }) h)
        | inr (x, e) ↦ rw (e, import_turn) (fail_turn-IsOrderly id summary t h)
      ]

  account_turn-IsOrderly :
      (id summary : Text) (is_health : Bool) (t : Tables)
      → Orderly (some id) t.jobs
      → IsOrderly (account_turn o limits now id summary is_health t)
  unfolding account_turn
  account_turn-IsOrderly id summary is_health t h =
      elim (Result-cases (load_batch o limits now id t)) [
        | inr (x, e) ↦ rw (e, account_turn) (fail_turn-IsOrderly id summary t h)
        | inl ((rows, work), e) ↦ elim (Bool-cases (is_empty rows)) [
          | inl f ↦
              rw (e, account_turn, f)
                (end_turn-IsOrderly id summary t (commit_empty o limits now id t)
                  (λ t' d. commit_empty-Ended o limits now id t d) h)
          | inr f ↦ rw (e, account_turn, f) (orderly _ h)
        ]
      ]

  dispatch-IsOrderly :
      (id summary : Text) (found : Option Job) (t : Tables)
      → Orderly (some id) t.jobs
      → IsOrderly (dispatch o limits now id summary found t)
  unfolding dispatch
  dispatch-IsOrderly id summary none t h = fail_turn-IsOrderly id summary t h
  dispatch-IsOrderly id summary (some j) t h =
      elim j.kind
        as (λ (k : JobKind).
          IsOrderly (dispatch o limits now id summary (some (record j { kind = k })) t)) [
            | import_file ↦ import_turn-IsOrderly id summary t h
            | refresh ↦ account_turn-IsOrderly id summary false t h
            | health ↦ account_turn-IsOrderly id summary true t h
            | other_kind _ ↦ fail_turn-IsOrderly id summary t h
          ]

  pub advance-IsOrderly :
      (summary : Text) (phase : Phase) (t : Tables)
      → Orderly (holder phase) t.jobs
      → IsOrderly (advance o limits now summary phase t)
  unfolding advance
  advance-IsOrderly summary idle t h = claim_turn-IsOrderly t h
  advance-IsOrderly summary (claimed id) t h =
      dispatch-IsOrderly id summary (find_job id t.jobs) t h
  advance-IsOrderly summary (importing id r) t h =
      end_turn-IsOrderly id summary t (commit_import o limits now id r t)
        (λ t' d. commit_import-Ended o limits now id t r d) h
  advance-IsOrderly summary (refreshing id rows results) t h =
      end_turn-IsOrderly id summary t (commit_batch o limits now id rows results t)
        (λ t' d. commit_batch-Ended o limits now id t rows results d) h
