-- ===== src/Views/Newest.antt =====
-- Which jobs `list_jobs` of app/main.py shows.
use mathlib.Core.List.{Perm}
use mathlib.Core.List.Perm
use token_loom.Prelude.{
  ℕ, zero, suc, ◌≤◌, ◌≡◌, refl, sym, List, [], ◌∷◌, ◌++◌, map, take, drop, All, leb, length, min,
  arith, Bool-cases, inl, inr, length-take, take-append-drop, subst,
}
use token_loom.Records.{Job}
use token_loom.Views.{insert_newest, newest_first, list_jobs, job_public}

-- None of the jobs was created behind that instant.
abbrev pub IsNoNewer : ℕ → List Job → Type 0
IsNoNewer t jobs = All (λ j. j.created_at ≤ t) jobs

-- newest first
abbrev pub IsSorted : List Job → Type 0
IsSorted [] = Unit
IsSorted (j ∷ jobs) = IsNoNewer j.created_at jobs × IsSorted jobs

-- What a page of jobs shows, and what it leaves out.
pub record IsNewest (limit : ℕ) (jobs page rest : List Job) : Type 0 where
  pub all_there : Perm (page ++ rest) jobs
  pub sorted : IsSorted page
  pub newest : All (λ j. IsNoNewer j.created_at rest) page
  pub full : length page ≡ min limit (length jobs)

raise-IsNoNewer : (s t : ℕ) (jobs : List Job) → s ≤ t → IsNoNewer s jobs → IsNoNewer t jobs
raise-IsNoNewer s t [] le h = tt
raise-IsNoNewer s t (j ∷ jobs) le h = (omega arith, raise-IsNoNewer s t jobs le h.1)

insert_newest-IsNoNewer :
    (t : ℕ) (j : Job) (jobs : List Job)
    → j.created_at ≤ t
    → IsNoNewer t jobs
    → IsNoNewer t (insert_newest j jobs)
unfolding insert_newest
insert_newest-IsNoNewer t j [] le h = (le, tt)
insert_newest-IsNoNewer t j (k ∷ jobs) le h = elim (Bool-cases (leb k.created_at j.created_at)) [
  | inl e ↦ rw e (le, h)
  | inr e ↦ rw e (h.0, insert_newest-IsNoNewer t j jobs le h.1)
]

insert_newest-IsSorted :
    (j : Job) (jobs : List Job) → IsSorted jobs → IsSorted (insert_newest j jobs)
unfolding insert_newest
insert_newest-IsSorted j [] h = (tt, tt)
insert_newest-IsSorted j (k ∷ jobs) h = elim (Bool-cases (leb k.created_at j.created_at)) [
  | inl e ↦
      let le : k.created_at ≤ j.created_at = ground (arith, e) in
      rw e ((le, raise-IsNoNewer k.created_at j.created_at jobs le h.0), h)
  | inr e ↦
      let le : j.created_at ≤ k.created_at = ground (arith, e) in
      rw e (insert_newest-IsNoNewer k.created_at j jobs le h.0, insert_newest-IsSorted j jobs h.1)
]

insert_newest-perm : (j : Job) (jobs : List Job) → Perm (insert_newest j jobs) (j ∷ jobs)
unfolding insert_newest
insert_newest-perm j [] = Perm.refl (j ∷ [])
insert_newest-perm j (k ∷ jobs) = elim (Bool-cases (leb k.created_at j.created_at)) [
  | inl e ↦ rw e (Perm.refl (j ∷ k ∷ jobs))
  | inr e ↦ rw e (Perm.trans (Perm.cons k (insert_newest-perm j jobs)) (Perm.swap j k jobs))
]

newest_first-IsSorted : (jobs : List Job) → IsSorted (newest_first jobs)
unfolding newest_first
newest_first-IsSorted [] = tt
newest_first-IsSorted (j ∷ jobs) =
    insert_newest-IsSorted j (newest_first jobs) (newest_first-IsSorted jobs)

newest_first-perm : (jobs : List Job) → Perm (newest_first jobs) jobs
unfolding newest_first
newest_first-perm [] = Perm.refl []
newest_first-perm (j ∷ jobs) =
    Perm.trans (insert_newest-perm j (newest_first jobs)) (Perm.cons j (newest_first-perm jobs))

length-insert_newest :
    (j : Job) (jobs : List Job) → length (insert_newest j jobs) ≡ suc (length jobs)
unfolding insert_newest
length-insert_newest j [] = refl
length-insert_newest j (k ∷ jobs) = ground (arith, length-insert_newest j jobs)

length-newest_first : (jobs : List Job) → length (newest_first jobs) ≡ length jobs
unfolding newest_first
length-newest_first [] = refl
length-newest_first (j ∷ jobs) =
    omega (arith, length-insert_newest j (newest_first jobs), length-newest_first jobs)

take-IsNoNewer : (n t : ℕ) (jobs : List Job) → IsNoNewer t jobs → IsNoNewer t (take n jobs)
take-IsNoNewer zero t jobs h = tt
take-IsNoNewer (suc n) t [] h = tt
take-IsNoNewer (suc n) t (j ∷ jobs) h = (h.0, take-IsNoNewer n t jobs h.1)

drop-IsNoNewer : (n t : ℕ) (jobs : List Job) → IsNoNewer t jobs → IsNoNewer t (drop n jobs)
drop-IsNoNewer zero t jobs h = h
drop-IsNoNewer (suc n) t [] h = tt
drop-IsNoNewer (suc n) t (j ∷ jobs) h = drop-IsNoNewer n t jobs h.1

take-IsSorted : (n : ℕ) (jobs : List Job) → IsSorted jobs → IsSorted (take n jobs)
take-IsSorted zero jobs h = tt
take-IsSorted (suc n) [] h = tt
take-IsSorted (suc n) (j ∷ jobs) h =
    (take-IsNoNewer n j.created_at jobs h.0, take-IsSorted n jobs h.1)

take-drop-newest :
    (n : ℕ) (jobs : List Job)
    → IsSorted jobs
    → All (λ j. IsNoNewer j.created_at (drop n jobs)) (take n jobs)
take-drop-newest zero jobs h = tt
take-drop-newest (suc n) [] h = tt
take-drop-newest (suc n) (j ∷ jobs) h =
    (drop-IsNoNewer n j.created_at jobs h.0, take-drop-newest n jobs h.1)

-- The page shows jobs of the table, as many as the limit lets, newest first, and each is at least as
-- new as every job that is left out.
pub list_jobs-IsNewest :
    (rounded : ℕ → ℕ → ℕ) (limit : ℕ) (jobs : List Job)
    → (page : List Job) × (rest : List Job) × (list_jobs rounded limit jobs
        ≡ map (job_public rounded) page)
      × IsNewest limit jobs page rest
unfolding list_jobs
list_jobs-IsNewest rounded limit jobs =
    let sorted = newest_first jobs in
    (
      take limit sorted,
      drop limit sorted,
      refl,
      record {
        all_there =
            subst (λ (t : List Job). Perm t jobs) (sym (take-append-drop limit sorted))
              (newest_first-perm jobs);
        sorted = take-IsSorted limit sorted (newest_first-IsSorted jobs);
        newest = take-drop-newest limit sorted (newest_first-IsSorted jobs);
        full = omega (arith, length-take limit sorted, length-newest_first jobs);
      },
    )
