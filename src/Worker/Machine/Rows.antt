-- ===== src/Worker/Machine/Rows.antt =====
-- What a write to one row of the table of jobs, a deletion and an insertion leave true of all rows.
use token_loom.Prelude.{
  ◌≡◌, refl, Bool, false, none, some, List, [], ◌∷◌, ◌++◌, map, filter, subst, All, Text, text_eq,
  text_eq_iff, text_eq_refl, arith, inl, inr, Bool-cases,
}
use token_loom.Records.{Job}
use token_loom.Jobs.Queue.{find_job, update_job}
use token_loom.Jobs.Queue.Claims.{IsIn}

-- No two rows have one id.
abbrev pub IsDistinct : List Job → Type 0
IsDistinct [] = Unit
IsDistinct (j ∷ jobs) = (find_job j.id jobs ≡ none) × IsDistinct jobs

-- the function keeps the ids
abbrev pub KeepsId : (Job → Job) → Type 0
KeepsId f = (j : Job) → (f j).id ≡ j.id

pub find_job-id : (id : Text) (jobs : List Job) {j : Job} → find_job id jobs ≡ some j → j.id ≡ id
unfolding find_job
find_job-id id [] e = cc
find_job-id id (k ∷ jobs) {j} e = elim (Bool-cases (text_eq k.id id)) [
  | inl t ↦ ground (arith, e, t, text_eq_iff k.id id)
  | inr t ↦ find_job-id id jobs {j = j} (ground (arith, e, t))
]

find_job-update :
    (id k : Text) (f : Job → Job) (jobs : List Job)
    → KeepsId f
    → find_job k jobs ≡ none
    → find_job k (update_job id f jobs) ≡ none
unfolding find_job update_job
find_job-update id k f [] keep e = refl
find_job-update id k f (j ∷ jobs) keep e =
    ground (arith, e, keep j, find_job-update id k f jobs keep)

pub update_job-IsDistinct :
    (id : Text) (f : Job → Job) (jobs : List Job)
    → KeepsId f
    → IsDistinct jobs
    → IsDistinct (update_job id f jobs)
unfolding update_job
update_job-IsDistinct id f [] keep d = tt
update_job-IsDistinct id f (j ∷ jobs) keep d =
    let later = find_job-update id j.id f jobs keep d.0 in
    let ih = update_job-IsDistinct id f jobs keep d.1 in
    elim (Bool-cases (text_eq j.id id)) [
      | inl t ↦ rw (t, keep j) (later, ih)
      | inr t ↦ rw t (later, ih)
    ]

find_job-map :
    (k : Text) (f : Job → Job) (jobs : List Job)
    → KeepsId f
    → find_job k jobs ≡ none
    → find_job k (map f jobs) ≡ none
unfolding find_job
find_job-map k f [] keep e = refl
find_job-map k f (j ∷ jobs) keep e = ground (arith, e, keep j, find_job-map k f jobs keep)

pub map-IsDistinct :
    (f : Job → Job) (jobs : List Job) → KeepsId f → IsDistinct jobs → IsDistinct (map f jobs)
map-IsDistinct f [] keep d = tt
map-IsDistinct f (j ∷ jobs) keep d =
    rw (keep j) (find_job-map j.id f jobs keep d.0, map-IsDistinct f jobs keep d.1)

find_job-filter :
    (k : Text) (p : Job → Bool) (jobs : List Job)
    → find_job k jobs ≡ none
    → find_job k (filter p jobs) ≡ none
unfolding find_job
find_job-filter k p [] e = refl
find_job-filter k p (j ∷ jobs) e = ground (arith, e, find_job-filter k p jobs)

pub filter-IsDistinct :
    (p : Job → Bool) (jobs : List Job) → IsDistinct jobs → IsDistinct (filter p jobs)
filter-IsDistinct p [] d = tt
filter-IsDistinct p (j ∷ jobs) d = elim (Bool-cases (p j)) [
  | inl t ↦ rw t (find_job-filter j.id p jobs d.0, filter-IsDistinct p jobs d.1)
  | inr t ↦ rw t (filter-IsDistinct p jobs d.1)
]

find_job-append :
    (k : Text) (jobs : List Job) (j : Job)
    → find_job k jobs ≡ none
    → text_eq j.id k ≡ false
    → find_job k (jobs ++ j ∷ []) ≡ none
unfolding find_job
find_job-append k [] j e t = ground (arith, t)
find_job-append k (i ∷ jobs) j e t = ground (arith, e, find_job-append k jobs j)

text_eq-false_sym : (a b : Text) → text_eq a b ≡ false → text_eq b a ≡ false
text_eq-false_sym a b e = ground (arith, e, text_eq_iff a b, text_eq_iff b a)

pub append-IsDistinct :
    (jobs : List Job) (j : Job)
    → IsDistinct jobs
    → find_job j.id jobs ≡ none
    → IsDistinct (jobs ++ j ∷ [])
unfolding find_job
append-IsDistinct [] j d e = (refl, tt)
append-IsDistinct (i ∷ jobs) j d e = elim (Bool-cases (text_eq i.id j.id)) [
  | inl t ↦ ground (arith, e, t)
  | inr t ↦ (
    find_job-append i.id jobs j d.0 (text_eq-false_sym i.id j.id t),
    append-IsDistinct jobs j d.1 (ground (arith, e, t)),
  )
]

-- the row that is found is the one that a distinct table has
pub IsIn-find_job :
    (j : Job) (jobs : List Job) → IsDistinct jobs → IsIn j jobs → find_job j.id jobs ≡ some j
unfolding find_job IsIn
IsIn-find_job j [] d m = elim m [ ]
IsIn-find_job j (k ∷ jobs) d m = elim m [
  | inl same ↦ rw (same, text_eq_refl k.id)
  | inr later ↦ elim (Bool-cases (text_eq k.id j.id)) [
    | inl t ↦
        let found = IsIn-find_job j jobs d.1 later in
        let id : k.id ≡ j.id = (text_eq_iff k.id j.id).0 t in let absent = rw id at d.0 in cc
    | inr t ↦ rw t (IsIn-find_job j jobs d.1 later)
  ]
]

pub All-find_job :
    (P : Job → Type 0) (id : Text) (jobs : List Job) {j : Job}
    → All P jobs
    → find_job id jobs ≡ some j
    → P j
unfolding find_job
All-find_job P id [] h e = cc
All-find_job P id (k ∷ jobs) {j} h e = elim (Bool-cases (text_eq k.id id)) [
  | inl t ↦ let same : k ≡ j = ground (arith, e, t) in subst P same h.0
  | inr t ↦ All-find_job P id jobs {j = j} h.1 (ground (arith, e, t))
]

module _ (P Q : Job → Type 0) where
  -- A write to a row that is not there.
  pub update_job-All_absent :
      (id : Text) (f : Job → Job) (jobs : List Job)
      → find_job id jobs ≡ none
      → ((k : Job) → P k → text_eq k.id id ≡ false → Q k)
      → All P jobs
      → All Q (update_job id f jobs)
  unfolding find_job update_job
  update_job-All_absent id f [] e other h = tt
  update_job-All_absent id f (k ∷ jobs) e other h = elim (Bool-cases (text_eq k.id id)) [
    | inl t ↦ ground (arith, e, t)
    | inr t ↦
        let ih = update_job-All_absent id f jobs (ground (arith, e, t)) other h.1 in
        rw t (other k h.0 t, ih)
  ]

  -- A write to the one row of that id, where the others keep what they have.
  pub update_job-All :
      (id : Text) (f : Job → Job) (jobs : List Job) (j : Job)
      → IsDistinct jobs
      → find_job id jobs ≡ some j
      → Q (f j)
      → ((k : Job) → P k → text_eq k.id id ≡ false → Q k)
      → All P jobs
      → All Q (update_job id f jobs)
  unfolding find_job update_job
  update_job-All id f [] j d e q other h = tt
  update_job-All id f (k ∷ jobs) j d e q other h = elim (Bool-cases (text_eq k.id id)) [
    | inl t ↦
        let same : j ≡ k = ground (arith, e, t) in
        let absent : find_job id jobs ≡ none = rw (← (text_eq_iff k.id id).0 t) d.0 in
        rw t (subst (λ (i : Job). Q (f i)) same q, update_job-All_absent id f jobs absent other h.1)
    | inr t ↦
        let ih = update_job-All id f jobs j d.1 (ground (arith, e, t)) q other h.1 in
        rw t (other k h.0 t, ih)
  ]

  pub map-All :
      (f : Job → Job) (jobs : List Job)
      → ((k : Job) → P k → Q (f k))
      → All P jobs
      → All Q (map f jobs)
  map-All f [] step h = tt
  map-All f (k ∷ jobs) step h = (step k h.0, map-All f jobs step h.1)

module _ (P : Job → Type 0) where
  pub filter-All : (p : Job → Bool) (jobs : List Job) → All P jobs → All P (filter p jobs)
  filter-All p [] h = tt
  filter-All p (k ∷ jobs) h = elim (Bool-cases (p k)) [
    | inl t ↦ rw t (h.0, filter-All p jobs h.1)
    | inr t ↦ rw t (filter-All p jobs h.1)
  ]

  pub append-All : (jobs : List Job) (j : Job) → All P jobs → P j → All P (jobs ++ j ∷ [])
  append-All [] j h q = (q, tt)
  append-All (k ∷ jobs) j h q = (h.0, append-All jobs j h.1 q)
