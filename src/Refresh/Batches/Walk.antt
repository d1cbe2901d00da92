-- ===== src/Refresh/Batches/Walk.antt =====
-- The batches of a job of app/worker.py take every account of its scope, in order, once.
use token_loom.Prelude.{
  ℕ, zero, suc, ◌≤◌, ◌<◌, ◌≡◌, refl, sym, ap, ◌∙◌, ◌+◌, ◌⊎◌, true, false, List, [], ◌∷◌, ◌++◌, take,
  drop, is_empty, length, max, arith, Bool-cases, inl, inr, take-append-drop, if◌then◌else◌,
  length-drop, length-take, subst,
}
use token_loom.Prelude.Paging.{
  IsGrowing, behind, last_key, take-IsGrowing, behind-IsGrowing, behind-last_key,
}
use token_loom.Records.{Account, Job, completed}
use token_loom.Jobs.Queue.{is_queued}
use token_loom.Refresh.Batches.{in_scope, load_work, largest_id, finish_empty, finish_batch}

abbrev pub id_of : Account → ℕ
id_of a = a.id

-- On a batch by growing id the largest id is the last one.
largest_id-eq-last_key :
    (low : ℕ) (rows : List Account)
    → IsGrowing id_of low rows
    → max low (largest_id rows) ≡ last_key id_of low rows
unfolding largest_id last_key
largest_id-eq-last_key low [] h = omega arith
largest_id-eq-last_key low (a ∷ rows) h = omega (arith, largest_id-eq-last_key a.id rows h.1)

-- The batches of a job in turn, as `process_account_job` writes the job behind each of them: the
-- accounts that they take, and the job at the end. The loop ends with an empty batch or where the
-- job is not put back into the queue; `results` says how many accounts of a batch succeeded and
-- failed.
module _ (results : List Account → ℕ × ℕ) where
  unfoldable pub walk : ℕ → ℕ → ℕ → Job → List Account → List Account × Job
  walk zero now n j rows = ([], j)
  walk (suc fuel) now n j rows =
      let batch = load_work now n j rows in
      let (success, failures) = results batch in
      let k = finish_batch now n batch success failures j in
      let more = walk fuel now n k rows in
      let rest = if is_queued k.status then more else ([], k) in
      if is_empty batch then ([], finish_empty now j) else (batch ++ rest.0, rest.1)

-- what a batch writes to a job that is not to be cancelled
record IsCounted (n size : ℕ) (largest : ℕ) (j k : Job) : Type 0 where
  pub cursor_id : k.cursor_id ≡ largest
  pub processed : k.processed ≡ j.processed + size
  pub total : k.total ≡ j.total
  pub unstopped : k.cancel_requested ≡ false
  pub options : k.options ≡ j.options
  pub scope : k.scope ≡ j.scope
  pub account_ids : k.account_ids ≡ j.account_ids
  pub goes_on : is_queued k.status ≡ true → (j.processed + size < j.total) × (n ≤ size)
  pub ends :
      is_queued k.status ≡ false
      → (k.status ≡ completed) × ((j.total ≤ j.processed + size) ⊎ (size < n))

finish_batch-IsCounted :
    (now n : ℕ) (batch : List Account) (success failures : ℕ) (j : Job)
    → j.cancel_requested ≡ false
    → IsCounted n (length batch) (largest_id batch) j (finish_batch now n batch success failures j)
unfolding finish_batch is_queued
finish_batch-IsCounted now n batch success failures j c = record {
  cursor_id = ground arith;
  processed = ground arith;
  total = ground arith;
  unstopped = ground (arith, c);
  options = ground arith;
  scope = ground arith;
  account_ids = ground arith;
  goes_on = λ q. ground (arith, q, c);
  ends = λ q. ground (arith, q, c);
}

behind-scope :
    (now cursor : ℕ) (j k : Job) (rows : List Account)
    → k.options ≡ j.options
    → k.scope ≡ j.scope
    → k.account_ids ≡ j.account_ids
    → behind id_of (in_scope now k) cursor rows ≡ behind id_of (in_scope now j) cursor rows
unfolding behind in_scope
behind-scope now cursor j k rows a b c = rw (a, b, c) refl

take-empty {ℓ} : {A : Type ℓ} (n : ℕ) (s : List A) → 0 < n → is_empty (take n s) ≡ true → s ≡ []
take-empty zero s pos e = elim pos [ ]
take-empty (suc n) [] pos e = refl
take-empty (suc n) (x ∷ s) pos e = cc

nonempty_length {ℓ} : {A : Type ℓ} (n : ℕ) (s : List A) → is_empty (take n s) ≡ false → 0 < length s
nonempty_length zero s e = cc
nonempty_length (suc n) [] e = cc
nonempty_length (suc n) (x ∷ s) e = omega arith

below_largest :
    (low : ℕ) (rows : List Account)
    → IsGrowing id_of low rows
    → is_empty rows ≡ false
    → low ≤ largest_id rows
unfolding largest_id
below_largest low [] h e = cc
below_largest low (a ∷ rows) h e = omega (arith, h.0)

-- what is left of the scope behind a batch that is not empty
behind_batch :
    (now n low : ℕ) (j : Job) (rows : List Account)
    → IsGrowing id_of low rows
    → is_empty (take n (behind id_of (in_scope now j) j.cursor_id rows)) ≡ false
    → behind id_of
        (in_scope now j)
        (largest_id (take n (behind id_of (in_scope now j) j.cursor_id rows)))
        rows
      ≡ drop n (behind id_of (in_scope now j) j.cursor_id rows)
behind_batch now n low j rows g e =
    let scope = behind id_of (in_scope now j) j.cursor_id rows in
    let batch = take n scope in
    let growing =
      take-IsGrowing id_of n j.cursor_id scope
        (behind-IsGrowing id_of (in_scope now j) low j.cursor_id rows g) in
    let largest : largest_id batch ≡ last_key id_of j.cursor_id batch = omega (
      arith,
      largest_id-eq-last_key j.cursor_id batch growing,
      below_largest j.cursor_id batch growing e,
    ) in
    ap (λ (c : ℕ). behind id_of (in_scope now j) c rows) largest
    ∙ behind-last_key id_of (in_scope now j) n low j.cursor_id rows g

nil-of-length {ℓ} : {A : Type ℓ} (s : List A) → length s ≡ 0 → s ≡ []
nil-of-length [] e = refl
nil-of-length (x ∷ s) e = absurd (omega (arith, e))

-- the job has taken these accounts and is completed
abbrev pub IsDone : List Account → Job → List Account × Job → Type 0
IsDone scope j (taken, k) =
    (taken ≡ scope) × (k.status ≡ completed) × (k.processed ≡ j.total) × (k.total ≡ j.total)

module _ (results : List Account → ℕ × ℕ) where
  -- one turn of the walk, for a batch that is not empty
  walk_turn :
      (fuel now n : ℕ) (j k : Job) (rows batch rest : List Account) (more : List Account × Job)
      → IsCounted n (length batch) (largest_id batch) j k
      → length batch ≤ n
      → (length batch < n → length rest ≡ 0)
      → j.total ≡ j.processed + (length batch + length rest)
      → (is_queued k.status ≡ true → IsDone rest k more)
      → IsDone
          (batch ++ rest)
          j
          (let next = if is_queued k.status then more else ([], k) in (batch ++ next.0, next.1))
  walk_turn fuel now n j k rows batch rest more counted fits short whole goes =
      elim (Bool-cases (is_queued k.status)) [
        | inl q ↦
            let (taken, done, processed, total) = goes q in
            rw q (
              ap (λ (t : List Account). batch ++ t) taken,
              done,
              processed ∙ counted.total,
              total ∙ counted.total,
            )
        | inr q ↦
            let (done, reason) = counted.ends q in
            let over : length rest ≡ 0 = elim reason [
              | inl full ↦ omega (arith, whole, full)
              | inr few ↦ short few
            ] in
            rw q (
              ap (λ (t : List Account). batch ++ t) (sym (nil-of-length rest over)),
              done,
              omega (arith, counted.processed, whole, over),
              counted.total,
            )
      ]

  -- On a table by growing id, which stays the same between the batches as the instant does, for a
  -- positive batch size and more fuel than the scope has accounts: the batches of a job that is not
  -- to be cancelled, and whose total is what it has processed and the accounts of its scope behind
  -- its cursor, take every one of these accounts, in order, once, and complete the job with all of
  -- its total processed.
  pub walk-eq-scope :
      (fuel now n low : ℕ) (j : Job) (rows : List Account)
      → IsGrowing id_of low rows
      → 0 < n
      → length (behind id_of (in_scope now j) j.cursor_id rows) < fuel
      → j.cancel_requested ≡ false
      → j.total ≡ j.processed + length (behind id_of (in_scope now j) j.cursor_id rows)
      → IsDone (behind id_of (in_scope now j) j.cursor_id rows) j (walk results fuel now n j rows)
  unfolding walk load_work
  walk-eq-scope zero now n low j rows g pos f c t = elim f [ ]
  walk-eq-scope (suc fuel) now n low j rows g pos f c t =
      let scope = behind id_of (in_scope now j) j.cursor_id rows in
      let batch = take n scope in
      let k = finish_batch now n batch (results batch).0 (results batch).1 j in
      let counted = finish_batch-IsCounted now n batch (results batch).0 (results batch).1 j c in
      elim (Bool-cases (is_empty batch)) [
        | inl e ↦
            let nothing = take-empty n scope pos e in
            rw e (
              sym nothing,
              unfold finish_empty in rw c refl,
              unfold finish_empty in omega (arith, t, ap length nothing),
              unfold finish_empty in refl,
            )
        | inr e ↦
            let left : behind id_of (in_scope now k) k.cursor_id rows ≡ drop n scope =
              behind-scope now k.cursor_id j k rows counted.options counted.scope
                counted.account_ids
              ∙ ap (λ (i : ℕ). behind id_of (in_scope now j) i rows) counted.cursor_id
              ∙ behind_batch now n low j rows g e in
            let rest = length-drop n scope in
            let taken = length-take n scope in
            let some_left = nonempty_length n scope e in
            let ih =
              walk-eq-scope fuel now n low k rows g pos
                (omega (arith, ap length left, rest, some_left)) counted.unstopped
                (omega (arith, ap length left, rest, taken, t, counted.total, counted.processed)) in
            rw e (
              subst
                (λ (whole : List Account). IsDone whole j (
                  let next =
                    if is_queued k.status then walk results fuel now n k rows else ([], k) in
                  (batch ++ next.0, next.1)))
                (take-append-drop n scope)
                (walk_turn fuel now n j k rows batch (drop n scope) (walk results fuel now n k rows)
                  counted (omega (arith, taken)) (λ few. omega (arith, few, taken, rest))
                  (omega (arith, taken, rest, t))
                  (λ q.
                    subst (λ (r : List Account). IsDone r k (walk results fuel now n k rows)) left
                      ih)))
      ]
