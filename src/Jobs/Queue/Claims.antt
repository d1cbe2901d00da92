-- ===== src/Jobs/Queue/Claims.antt =====
-- Which job `claim_job` takes, and what it leaves alone.
use token_loom.Prelude.{
  ℕ, ◌≤◌, ◌<◌, ◌≡◌, refl, sym, subst, ◌⊎◌, ap, ◌∙◌, true, false, Option, none, some, List, [], ◌∷◌,
  arith, tests, if◌then◌else◌, inl, inr, Bool-cases, Option-cases, if_true, if_false, Text,
}
use token_loom.Records.{Job}
use token_loom.Jobs.Queue.{
  is_queued, update_job, precedes, first_of_two, next_queued, start_claimed, Claim, claim_found,
  claim_job,
}

unfoldable pub IsIn : Job → List Job → Type 0
IsIn j [] = ⊥
IsIn j (k ∷ jobs) = (j ≡ k) ⊎ IsIn j jobs

-- `j` is queued, and no queued job of the table comes before it.
pub record IsNext (jobs : List Job) (j : Job) : Type 0 where
  pub member : IsIn j jobs
  pub queued : is_queued j.status ≡ true
  pub first : (k : Job) → IsIn k jobs → is_queued k.status ≡ true → precedes k j ≡ false

precedes_irreflexive : (j : Job) → precedes j j ≡ false
unfolding precedes
precedes_irreflexive j = grind tests

precedes_asymmetric : (a b : Job) → precedes a b ≡ true → precedes b a ≡ false
unfolding precedes
precedes_asymmetric a b e = grind tests

-- `j` not before `k`, and `k` before `i`
not_precedes_trans :
    (i j k : Job) → precedes i j ≡ false → precedes j k ≡ false → precedes i k ≡ false
unfolding precedes
not_precedes_trans i j k e f = grind tests

next_queued-none :
    (jobs : List Job)
    → next_queued jobs ≡ none
    → (k : Job) → IsIn k jobs
    → is_queued k.status ≡ false
unfolding next_queued IsIn
next_queued-none [] e k p = elim p [ ]
next_queued-none (j ∷ jobs) e k p = elim (Bool-cases (is_queued j.status)) [
  | inl q ↦ ground (arith, q, e)
  | inr q ↦
      let rest = next_queued-none jobs (sym (if_false _ _ q) ∙ e) k in
      elim p [ inl same ↦ ap (λ x. is_queued x.status) same ∙ q | inr later ↦ rest later ]
]

first_of_two-none : (j : Job) → first_of_two j none ≡ j
unfolding first_of_two
first_of_two-none j = refl

IsNext-keep :
    (j : Job) (jobs : List Job) (b : Job)
    → IsNext jobs b
    → (is_queued j.status ≡ true → precedes j b ≡ false)
    → IsNext (j ∷ jobs) b
unfolding IsIn
IsNext-keep j jobs b h t = record {
  member = inr h.member;
  queued = h.queued;
  first = λ k p q. elim p [
    | inl same ↦ ap (λ x. precedes x b) same ∙ t (sym (ap (λ x. is_queued x.status) same) ∙ q)
    | inr later ↦ h.first k later q
  ];
}

IsNext-take :
    (j : Job) (jobs : List Job)
    → is_queued j.status ≡ true
    → ((k : Job) → IsIn k jobs → is_queued k.status ≡ true → precedes k j ≡ false)
    → IsNext (j ∷ jobs) j
unfolding IsIn
IsNext-take j jobs q t = record {
  member = inl refl;
  queued = q;
  first = λ k p r. elim p [
    | inl same ↦ ap (λ x. precedes x j) same ∙ precedes_irreflexive j
    | inr later ↦ t k later r
  ];
}

IsNext-cons_queued :
    (j : Job) (jobs : List Job)
    → is_queued j.status ≡ true
    → (b : Job) → IsNext jobs b
    → IsNext (j ∷ jobs) (first_of_two j (some b))
unfolding first_of_two
IsNext-cons_queued j jobs q b h =
    elim (Bool-cases (precedes b j)) as (λ _. IsNext (j ∷ jobs) (if precedes b j then b else j)) [
      | inl p ↦
          subst (IsNext (j ∷ jobs)) (sym (if_true _ _ p))
            (IsNext-keep j jobs b h (λ _. precedes_asymmetric b j p))
      | inr p ↦
          subst (IsNext (j ∷ jobs)) (sym (if_false _ _ p))
            (IsNext-take j jobs q (λ k i r. not_precedes_trans k b j (h.first k i r) p))
    ]

pub next_queued-IsNext : (jobs : List Job) {j : Job} → next_queued jobs ≡ some j → IsNext jobs j
unfolding next_queued
next_queued-IsNext [] {j} e = ground (arith, e)
next_queued-IsNext (k ∷ jobs) {j} e = elim (Bool-cases (is_queued k.status)) [
  | inl q ↦ elim (Option-cases (next_queued jobs)) [
    | inl n ↦
        let f : some (first_of_two k none) ≡ some j =
          sym (if_true _ _ q ∙ ap (λ o. some (first_of_two k o)) n) ∙ e in
        let same : k ≡ j = sym (first_of_two-none k) ∙ ground (arith, f) in
        subst (IsNext (k ∷ jobs)) same
          (IsNext-take k jobs q (λ i p r. absurd (ground (arith, r, next_queued-none jobs n i p))))
    | inr (b, s) ↦
        let f : some (first_of_two k (some b)) ≡ some j =
          sym (if_true _ _ q ∙ ap (λ o. some (first_of_two k o)) s) ∙ e in
        let same : first_of_two k (some b) ≡ j = ground (arith, f) in
        subst (IsNext (k ∷ jobs)) same (IsNext-cons_queued k jobs q b (next_queued-IsNext jobs s))
  ]
  | inr q ↦
      let f : next_queued jobs ≡ some j = sym (if_false _ _ q) ∙ e in
      IsNext-keep k jobs j (next_queued-IsNext jobs f) (λ r. ground (arith, q, r))
]

-- `k` has a lower priority, or the same and is no older.
abbrev pub IsBehind : Job → Job → Type 0
IsBehind j k =
    (k.priority < j.priority) ⊎ ((k.priority ≡ j.priority) × (j.created_at ≤ k.created_at))

precedes-IsBehind : (j k : Job) → precedes k j ≡ false → IsBehind j k
unfolding precedes
precedes-IsBehind j k h = ground (arith, h)

-- what `claim_job` promises of the job that it starts
pub record IsClaim (now : ℕ) (jobs : List Job) (c : Claim) (id : Text) (j : Job) : Type 0 where
  pub member : IsIn j jobs
  pub queued : is_queued j.status ≡ true
  pub first : (k : Job) → IsIn k jobs → is_queued k.status ≡ true → IsBehind j k
  pub same_id : j.id ≡ id
  pub wanted : j.cancel_requested ≡ false
  pub started : c.jobs ≡ update_job id (start_claimed now) jobs
  pub kept_file : c.removed ≡ none

claim_found-IsClaim :
    (now : ℕ) (jobs : List Job) (o : Option Job) {id : Text}
    → next_queued jobs ≡ o
    → (claim_found now jobs o).job_id ≡ some id
    → (j : Job) × IsClaim now jobs (claim_found now jobs o) id j
unfolding claim_found
claim_found-IsClaim now jobs none n e = ground (arith, e)
claim_found-IsClaim now jobs (some j) {id} n e = elim (Bool-cases j.cancel_requested) [
  | inl c ↦ ground (arith, c, e)
  | inr c ↦
      let same : j.id ≡ id = ground (arith, c, e) in
      (
        j,
        record {
          member = (next_queued-IsNext jobs n).member;
          queued = (next_queued-IsNext jobs n).queued;
          first = λ k i q. precedes-IsBehind j k ((next_queued-IsNext jobs n).first k i q);
          same_id = same;
          wanted = c;
          started =
              ap (λ (r : Claim). r.jobs) (if_false _ _ c)
              ∙ ap (λ i. update_job i (start_claimed now) jobs) same;
          kept_file = ap (λ (r : Claim). r.removed) (if_false _ _ c);
        },
      )
]

-- Where `claim_job` returns an id, a queued job of the table has it that nobody asked to cancel and
-- that no other queued job comes before, by priority and then by age. Its row is started, the other
-- rows stay, and no file is removed.
pub claim_job-IsClaim :
    (now : ℕ) (jobs : List Job) {id : Text}
    → (claim_job now jobs).job_id ≡ some id
    → (j : Job) × IsClaim now jobs (claim_job now jobs) id j
unfolding claim_job
claim_job-IsClaim now jobs e = claim_found-IsClaim now jobs (next_queued jobs) refl e
