-- ===== src/Worker/Machine/Spools.antt =====
-- The files of imports beside the table of jobs, in the machine of app/worker.py and app/main.py.
pub mod Writes
pub mod Commits
pub mod Turns
pub mod Events
pub mod Runs
use token_loom.Prelude.{
  ℕ, ◌≡◌, refl, sym, ap, ◌∙◌, subst, Bool, true, false, not, ◌&&◌, ◌||◌, Option, none, some, List,
  [], ◌∷◌, ◌++◌, map, filter, All, Text, codes, text_eq, text_eq_iff, text_eq_refl, length,
  length-append, append_injective, if◌then◌else◌, arith, ◌⊎◌, inl, inr, Bool-cases, Option-cases,
  Result-cases, ok, err,
}
use token_loom.Prelude.Utf8.{Bytes}
use token_loom.Prelude.Dict.{Dict, contains, pop, put, contains-put, contains-pop_ne}
use token_loom.Records.{Job}
use token_loom.Jobs.Queue.{is_active, is_import, find_job, update_job, released_spool}
use token_loom.Jobs.Queue.Claims.{IsIn}
use token_loom.Worker.Maintenance.{FilePath, safe_spool_path}
use token_loom.Worker.Work.{Outside, remove_import_spool}
use token_loom.Worker.Machine.Rows.{IsDistinct, find_job-id, update_job-All}

-- an import that waits or runs
unfoldable pub needs_file : Job → Bool
needs_file j = is_import j.kind && is_active j.status

-- `f"{job_id}.txt"`
abbrev pub file_name : Text → Text
file_name id = id ++ codes ".txt"

pub safe_spool_path-name :
    (resolve : Text → FilePath) (folder value : Text) {p : FilePath}
    → safe_spool_path resolve folder value ≡ ok p
    → p.name ≡ (resolve value).name
unfolding safe_spool_path
safe_spool_path-name resolve folder value {p} e = ground (arith, e)

file_name_injective : (id k : Text) → file_name id ≡ file_name k → id ≡ k
file_name_injective id k e =
    let lengths : length (file_name id) ≡ length (file_name k) = ap length e in
    (append_injective id k (codes ".txt") (codes ".txt")
      (omega (arith, lengths, length-append id (codes ".txt"), length-append k (codes ".txt"))) e).0

file_name-ne : (id k : Text) → text_eq k id ≡ false → text_eq (file_name id) (file_name k) ≡ false
file_name-ne id k ne = elim (Bool-cases (text_eq (file_name id) (file_name k))) [
  | inr e ↦ e
  | inl e ↦ ground (
    arith,
    ne,
    text_eq_iff k id,
    sym (file_name_injective id k ((text_eq_iff (file_name id) (file_name k)).0 e)),
  )
]

-- A write that keeps the id and the path, and makes no job an import that waits or runs.
pub record KeepsFile (f : Job → Job) : Type 0 where
  pub keeps_id : (j : Job) → (f j).id ≡ j.id
  pub keeps_path : (j : Job) → (f j).source_path ≡ j.source_path
  pub needs_before : (j : Job) → needs_file (f j) ≡ true → needs_file j ≡ true

module _ (path_of : Text → Text) where
  -- The import that waits or runs has its file, at the path of its id.
  abbrev pub HasFile : Dict Bytes → Job → Type 0
  HasFile files j =
      needs_file j ≡ true
      → (j.source_path ≡ some (path_of j.id)) × (contains (file_name j.id) files ≡ true)

  -- `resolve` gives the path of an id the name of its file.
  abbrev pub IsPlacing : Outside → Type 0
  IsPlacing o = (id : Text) → (o.resolve (path_of id)).name ≡ file_name id

  -- The files are the same, or the one of that id is gone.
  abbrev pub Lost : Text → Dict Bytes → Dict Bytes → Type 0
  Lost id files files' = (files' ≡ files) ⊎ (files' ≡ pop (file_name id) files)

  pub Lost-HasFile :
      (id : Text) (files files' : Dict Bytes) (k : Job)
      → Lost id files files'
      → HasFile files k
      → text_eq k.id id ≡ false
      → HasFile files' k
  Lost-HasFile id files files' k (inl same) h ne n = rw same (h n)
  Lost-HasFile id files files' k (inr gone) h ne n =
      let (path, there) = h n in
      (
        path,
        rw gone (
            contains-pop_ne (file_name id) (file_name k.id) files (file_name-ne id k.id ne)
            ∙ there),
      )

  -- a write to the job of that id, and the files behind it
  pub settled-HasFile :
      (id : Text) (f : Job → Job) (files files' : Dict Bytes) (jobs : List Job) (j : Job)
      → IsDistinct jobs
      → find_job id jobs ≡ some j
      → HasFile files' (f j)
      → Lost id files files'
      → All (HasFile files) jobs
      → All (HasFile files') (update_job id f jobs)
  settled-HasFile id f files files' jobs j d found row lost h =
      update_job-All (HasFile files) (HasFile files') id f jobs j d found row
        (λ k here ne. Lost-HasFile id files files' k lost here ne) h

  pub kept-HasFile :
      (f : Job → Job) (files : Dict Bytes) (j : Job)
      → KeepsFile f
      → HasFile files j
      → HasFile files (f j)
  kept-HasFile f files j keep h n =
      rw (keep.keeps_id j, keep.keeps_path j) (h (keep.needs_before j n))

  pub update_job-HasFile :
      (id : Text) (f : Job → Job) (files : Dict Bytes) (jobs : List Job)
      → KeepsFile f
      → All (HasFile files) jobs
      → All (HasFile files) (update_job id f jobs)
  unfolding update_job
  update_job-HasFile id f files [] keep h = tt
  update_job-HasFile id f files (j ∷ jobs) keep h = elim (Bool-cases (text_eq j.id id)) [
    | inl t ↦ rw t (kept-HasFile f files j keep h.0, update_job-HasFile id f files jobs keep h.1)
    | inr t ↦ rw t (h.0, update_job-HasFile id f files jobs keep h.1)
  ]

  removed_at :
      (o : Outside) (id : Text) (files : Dict Bytes)
      → IsPlacing o
      → Lost id files (remove_import_spool o (some (path_of id)) files)
  unfolding remove_import_spool
  removed_at o id files placing =
      elim (Result-cases (safe_spool_path o.resolve o.imports_dir (path_of id))) [
        | inr (x, e) ↦ inl (rw (remove_import_spool, e) refl)
        | inl (p, e) ↦ inr (
            rw
              (
                remove_import_spool,
                e,
                safe_spool_path-name o.resolve o.imports_dir (path_of id) e,
                placing id,
              )
              refl)
      ]

  -- What an import that waits or runs lets go of is its own file.
  pub released-Lost :
      (o : Outside) (j : Job) (files : Dict Bytes)
      → IsPlacing o
      → is_active j.status ≡ true
      → HasFile files j
      → Lost j.id files (remove_import_spool o (released_spool j) files)
  unfolding released_spool remove_import_spool
  released-Lost o j files placing active h = elim (Bool-cases (is_import j.kind)) [
    | inr i ↦ inl (rw i refl)
    | inl i ↦
        rw (i, (h (unfold needs_file in rw (i, active) refl)).0) (removed_at o j.id files placing)
  ]
