-- ===== src/Worker/Machine/Ends/Rows.antt =====
-- What the writes to the table of jobs of app/worker.py and app/main.py leave of a job that has ended
-- or is to be cancelled.
use token_loom.Prelude.{
  ℕ, ◌≡◌, refl, sym, ap, ◌∙◌, true, false, Option, none, some, List, [], ◌∷◌, All, Text, text_eq,
  text_eq_iff, ok, arith, inl, inr, Bool-cases, Option-cases, subst,
}
use token_loom.Records.{Job}
use token_loom.Jobs.Queue.{
  is_queued, is_running, is_active, find_job, update_job, recover_job, beat, request_cancel,
  cancel_found, claim_found, next_queued, start_claimed, cancel_claimed, fail_job, fail_claimed,
}
use token_loom.Jobs.Queue.Claims.{next_queued-IsNext}
use token_loom.Worker.Machine.Rows.{
  IsDistinct, KeepsId, IsIn-find_job, All-find_job, update_job-All,
}
use token_loom.Worker.Machine.Order.{InOrder}
use token_loom.Worker.Machine.Turns.{fail_claimed-EndsTurn}

-- what a job keeps that neither runs nor is started, whatever is written to it
pub record IsLasting (Q : Job → Type 0) : Type 0 where
  pub idle : (j : Job) → Q j → is_running j.status ≡ false
  pub unclaimed : (j : Job) → Q j → is_queued j.status ≡ true → j.cancel_requested ≡ true
  pub claimed : (now : ℕ) (j : Job) → Q j → is_queued j.status ≡ true → Q (cancel_claimed now j)
  pub marked : (j : Job) → Q j → is_active j.status ≡ true → Q (request_cancel j)

-- the row of that id has it
abbrev pub At : (Job → Type 0) → Text → Job → Type 0
At Q i k = k.id ≡ i → Q k

module _ (Q : Job → Type 0) (lasting : IsLasting Q) (i : Text) where
  pub recovered-At : (now : ℕ) (k : Job) → At Q i k → At Q i (recover_job now k)
  recovered-At now k h e = elim (Bool-cases (is_running k.status)) [
    | inl r ↦
        let same : k.id ≡ i = unfold recover_job in rw r at e in
        absurd (ground (arith, r, lasting.idle k (h same)))
    | inr r ↦
        let same : recover_job now k ≡ k = unfold recover_job in rw r refl in
        subst Q (sym same) (h (subst (λ (j : Job). j.id ≡ i) same e))
  ]

  pub beaten-At : (now : ℕ) (k : Job) → At Q i k → At Q i (beat now k)
  beaten-At now k h e = elim (Bool-cases (is_running k.status)) [
    | inl r ↦
        let same : k.id ≡ i = unfold beat in rw r at e in
        absurd (ground (arith, r, lasting.idle k (h same)))
    | inr r ↦
        let same : beat now k ≡ k = unfold beat in rw r refl in
        subst Q (sym same) (h (subst (λ (j : Job). j.id ≡ i) same e))
  ]

  pub each-All :
      (id : Text) (f : Job → Job) (jobs : List Job)
      → ((k : Job) → At Q i k → At Q i (f k))
      → All (At Q i) jobs
      → All (At Q i) (update_job id f jobs)
  unfolding update_job
  each-All id f [] step h = tt
  each-All id f (k ∷ jobs) step h = elim (Bool-cases (text_eq k.id id)) [
    | inl t ↦ rw t (step k h.0, each-All id f jobs step h.1)
    | inr t ↦ rw t (h.0, each-All id f jobs step h.1)
  ]

  -- a write to the job that the worker holds, which runs
  pub held-All :
      (id : Text) (f : Job → Job) (jobs : List Job)
      → KeepsId f
      → All (InOrder (some id)) jobs
      → All (At Q i) jobs
      → All (At Q i) (update_job id f jobs)
  unfolding update_job
  held-All id f [] keeps o h = tt
  held-All id f (k ∷ jobs) keeps o h = elim (Bool-cases (text_eq k.id id)) [
    | inr t ↦ rw t (h.0, held-All id f jobs keeps o.1 h.1)
    | inl t ↦
        let own = (text_eq_iff k.id id).0 t in
        let runs = o.0.running_if_held (ap (λ (n : Text). some n) (sym own)) in
        rw t (
          λ e. absurd (ground (arith, runs, lasting.idle k (h.0 (sym (keeps k) ∙ e)))),
          held-All id f jobs keeps o.1 h.1,
        )
  ]

  pub failed-All :
      (now : ℕ) (id summary : Text) (jobs : List Job)
      → All (InOrder (some id)) jobs
      → All (At Q i) jobs
      → All (At Q i) (fail_job now id summary jobs).0
  unfolding fail_job
  failed-All now id summary jobs o h = elim (Option-cases (find_job id jobs)) [
    | inl e ↦ rw (e, fail_job) h
    | inr (j, e) ↦
        rw (e, fail_job)
          (held-All id (fail_claimed now summary) jobs (fail_claimed-EndsTurn now summary).keeps_id
            o h)
  ]

  pub claimed-All :
      (now : ℕ) (jobs : List Job) (found : Option Job)
      → next_queued jobs ≡ found
      → IsDistinct jobs
      → All (At Q i) jobs
      → All (At Q i) (claim_found now jobs found).jobs
  unfolding claim_found
  claimed-All now jobs none n d h = h
  claimed-All now jobs (some j) n d h =
      let next = next_queued-IsNext jobs {j = j} n in
      let found = IsIn-find_job j jobs d next.member in
      let row = All-find_job (At Q i) j.id jobs {j = j} h found in
      elim (Bool-cases j.cancel_requested) [
        | inl c ↦ rw c (
            update_job-All (At Q i) (At Q i) j.id (cancel_claimed now) jobs j d found
              (λ e. lasting.claimed now j (row (unfold cancel_claimed in e)) next.queued)
              (λ k q _. q) h)
        | inr c ↦ rw c (
            update_job-All (At Q i) (At Q i) j.id (start_claimed now) jobs j d found
              (λ e. absurd (
                ground
                  (arith, c, lasting.unclaimed j (row (unfold start_claimed in e)) next.queued)))
              (λ k q _. q) h)
      ]

  pub cancelled-All :
      (id : Text) (jobs : List Job) (found : Option Job)
      → find_job id jobs ≡ found
      → IsDistinct jobs
      → All (At Q i) jobs
      → (jobs' : List Job) → cancel_found id jobs found ≡ ok jobs'
      → All (At Q i) jobs'
  unfolding cancel_found
  cancelled-All id jobs none n d h jobs' e = ground (arith, e)
  cancelled-All id jobs (some j) n d h jobs' e = elim (Bool-cases (is_active j.status)) [
    | inr t ↦ ground (arith, e, t)
    | inl t ↦
        let row = All-find_job (At Q i) id jobs {j = j} h n in
        let marked =
          update_job-All (At Q i) (At Q i) id request_cancel jobs j d n
            (λ same. lasting.marked j (row (unfold request_cancel in same)) t) (λ k q _. q) h in
        let same : update_job id request_cancel jobs ≡ jobs' = cc (rw t at e) in
        subst (All (At Q i)) same marked
  ]
