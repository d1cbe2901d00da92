-- ===== src/Worker/Machine/Spools/Events.antt =====
-- What the events of app/main.py and of the maintenance leave of the files of imports.
use token_loom.Prelude.{
  ℕ, ◌≡◌, refl, ap, subst, Bool, true, false, not, ◌&&◌, ◌||◌, Option, none, some, List, [], ◌∷◌,
  ◌++◌, filter, any, All, Text, text_eq_iff, text_eq_refl, ◌==◌, ok, arith, inl, inr, Bool-cases,
  Result-cases,
}
use token_loom.Prelude.Utf8.{Bytes}
use token_loom.Prelude.Ints.{ℤ}
use token_loom.Prelude.Dict.{Dict, contains, put, contains-put}
use token_loom.Records.{Account, Job, JobKind, JobScope, refresh, due}
use token_loom.Jobs.Queue.{
  is_active, is_import, is_running, find_job, update_job, recover_job, beat, heartbeat,
  request_cancel, cancel_job, cancel_found,
}
use token_loom.Jobs.Queue.Claims.{IsIn}
use token_loom.Refresh.Batches.{scope_snapshot}
use token_loom.Api.Orders.{new_job, queue_order}
use token_loom.Import.Upload.{Upload, import_job}
use token_loom.Worker.Scheduler.{is_pending, due_job, add_due_job}
use token_loom.Worker.Maintenance.{
  SpoolFile, MaintenanceSettings, is_stale_file, is_active_path, is_path,
}
use token_loom.Worker.Machine.{
  Phase, idle, claimed, importing, refreshing, beat_phase, cancelled_jobs, add_order,
}
use token_loom.Worker.Machine.Rows.{append-All}
use token_loom.Worker.Machine.Spools.{needs_file, file_name, HasFile, KeepsFile, update_job-HasFile}

beat-KeepsFile : (now : ℕ) → KeepsFile (beat now)
unfolding beat needs_file
beat-KeepsFile now = record {
  keeps_id = λ j. ground arith;
  keeps_path = λ j. ground arith;
  needs_before = λ j n. ground (arith, n);
}

request_cancel-KeepsFile : KeepsFile request_cancel
unfolding request_cancel needs_file
request_cancel-KeepsFile = record {
  keeps_id = λ j. refl;
  keeps_path = λ j. refl;
  needs_before = λ j n. n;
}

pub recover_job-KeepsFile : (now : ℕ) → KeepsFile (recover_job now)
unfolding recover_job needs_file is_active is_running
recover_job-KeepsFile now = record {
  keeps_id = λ j. ground arith;
  keeps_path = λ j. ground arith;
  needs_before = λ j n. ground (arith, n);
}

new_job-idle :
    (id : Text) (now : ℕ) (kind : JobKind) (scope : JobScope) (ids : List ℤ) (total largest : ℕ)
    → is_import kind ≡ false
    → needs_file (new_job id now kind scope ids total largest) ≡ false
unfolding new_job needs_file
new_job-idle id now kind scope ids total largest i = ground (arith, i)

-- A key whose entries all pass a test stays.
contains-filter :
    {V : Type 0} (k : Text) (p : Text × V → Bool) (d : Dict V)
    → ((v : V) → p (k, v) ≡ true)
    → contains k d ≡ true
    → contains k (filter p d) ≡ true
unfolding contains
contains-filter k p [] pass h = h
contains-filter k p ((j, v) ∷ d) pass h =
    ground (arith, h, text_eq_iff j k, pass v, contains-filter k p d pass)

needs-is_path :
    (j : Job) {path : Text}
    → needs_file j ≡ true
    → j.source_path ≡ some path
    → (is_import j.kind && is_active j.status && is_path path j.source_path) ≡ true
unfolding needs_file
needs-is_path j {path} n e = rw e (ground (arith, n, text_eq_refl path))

IsIn-active_path :
    (j : Job) (jobs : List Job) {path : Text}
    → IsIn j jobs
    → needs_file j ≡ true
    → j.source_path ≡ some path
    → is_active_path jobs path ≡ true
unfolding IsIn is_active_path
IsIn-active_path j [] m n e = elim m [ ]
IsIn-active_path j (k ∷ jobs) {path} m n e = elim m [
  | inl same ↦
      let head =
        needs-is_path k {path = path} (subst (λ (i : Job). needs_file i ≡ true) same n)
          (subst (λ (i : Job). i.source_path ≡ some path) same e) in
      ground (arith, head)
  | inr later ↦ ground (arith, IsIn-active_path j jobs {path = path} later n e)
]

contains-put_old :
    {V : Type 0} (k j : Text) (v : V) (d : Dict V)
    → contains j d ≡ true
    → contains j (put k v d) ≡ true
contains-put_old k j v d h = ground (arith, h, contains-put k j v d)

contains-put_self : {V : Type 0} (k : Text) (v : V) (d : Dict V) → contains k (put k v d) ≡ true
contains-put_self k v d = ground (arith, contains-put k k v d, text_eq_refl k)

active-fresh :
    (wall : ℕ) (jobs : List Job) (f : SpoolFile)
    → is_active_path jobs f.path ≡ true
    → is_stale_file wall jobs f ≡ false
unfolding is_stale_file
active-fresh wall jobs f a = ground (arith, a)

-- the members of a list in turn
All-member :
    (P Q : Job → Type 0) (jobs : List Job)
    → ((j : Job) → IsIn j jobs → P j → Q j)
    → All P jobs
    → All Q jobs
unfolding IsIn
All-member P Q [] step h = tt
All-member P Q (j ∷ jobs) step h =
    (step j (inl refl) h.0, All-member P Q jobs (λ k m. step k (inr m)) h.1)

new-All :
    (path_of : Text → Text) (files : Dict Bytes) (jobs : List Job) (j : Job)
    → needs_file j ≡ false
    → All (HasFile path_of files) jobs
    → All (HasFile path_of files) (jobs ++ j ∷ [])
new-All path_of files jobs j waits h =
    append-All (HasFile path_of files) jobs j h (λ n. absurd (ground (arith, n, waits)))

module _ (path_of : Text → Text) where
  pub beat_phase-HasFile :
      (now : ℕ) (phase : Phase) (files : Dict Bytes) (jobs : List Job)
      → All (HasFile path_of files) jobs
      → All (HasFile path_of files) (beat_phase now phase jobs)
  unfolding beat_phase heartbeat
  beat_phase-HasFile now idle files jobs h = h
  beat_phase-HasFile now (claimed id) files jobs h = h
  beat_phase-HasFile now (importing id r) files jobs h = h
  beat_phase-HasFile now (refreshing id rows results) files jobs h =
      update_job-HasFile path_of id (beat now) files jobs (beat-KeepsFile now) h

  cancel_found-HasFile :
      (id : Text) (files : Dict Bytes) (jobs : List Job) (o : Option Job)
      → All (HasFile path_of files) jobs
      → (jobs' : List Job) → cancel_found id jobs o ≡ ok jobs'
      → All (HasFile path_of files) jobs'
  unfolding cancel_found
  cancel_found-HasFile id files jobs none h jobs' e = ground (arith, e)
  cancel_found-HasFile id files jobs (some j) h jobs' e = elim (Bool-cases (is_active j.status)) [
    | inr t ↦ ground (arith, e, t)
    | inl t ↦
        let marked =
          update_job-HasFile path_of id request_cancel files jobs request_cancel-KeepsFile h in
        let same : update_job id request_cancel jobs ≡ jobs' = cc (rw t at e) in
        subst (All (HasFile path_of files)) same marked
  ]

  pub cancelled-HasFile :
      (id : Text) (files : Dict Bytes) (jobs : List Job)
      → All (HasFile path_of files) jobs
      → All (HasFile path_of files) (cancelled_jobs id jobs)
  unfolding cancelled_jobs
  cancelled-HasFile id files jobs h = elim (Result-cases (cancel_job id jobs)) [
    | inr (x, e) ↦ rw (e, cancelled_jobs) h
    | inl (jobs', e) ↦
        rw (e, cancelled_jobs)
          (cancel_found-HasFile id files jobs (find_job id jobs) h jobs' (unfold cancel_job in e))
  ]

  pub scheduled-HasFile :
      (id : Text) (now : ℕ) (rows : List Account) (files : Dict Bytes) (jobs : List Job)
      → All (HasFile path_of files) jobs
      → All (HasFile path_of files) (add_due_job id now rows jobs)
  unfolding add_due_job is_import
  scheduled-HasFile id now rows files jobs h =
      let (total, largest) = scope_snapshot now due [] rows in
      elim (Bool-cases (any is_pending jobs || total == 0)) [
        | inl e ↦ rw e h
        | inr e ↦ rw e (
            new-All path_of files jobs (due_job id now total largest)
              (unfold due_job needs_file in new_job-idle id now refresh due [] total largest refl)
              h)
      ]

  pub ordered-HasFile :
      (id : Text) (now : ℕ) (kind : JobKind) (scope : JobScope) (rows : List Account) (ids : List ℤ)
      (files : Dict Bytes) (jobs : List Job)
      → is_import kind ≡ false
      → All (HasFile path_of files) jobs
      → All (HasFile path_of files) (add_order (queue_order id now kind scope rows ids) jobs)
  unfolding queue_order
  ordered-HasFile id now kind scope rows ids files jobs i h =
      let (total, largest) = scope_snapshot now scope ids rows in
      elim (Bool-cases (total == 0)) [
        | inl e ↦ rw e h
        | inr e ↦ rw e (
            new-All path_of files jobs (new_job id now kind scope ids total largest)
              (new_job-idle id now kind scope ids total largest i) h)
      ]

  pub uploaded-HasFile :
      (id : Text) (now : ℕ) (path name : Text) (u : Upload) (files : Dict Bytes) (jobs : List Job)
      → path ≡ path_of id
      → All (HasFile path_of files) jobs
      → All
          (HasFile path_of (put (file_name id) u.content files))
          (jobs ++ import_job id now path name u ∷ [])
  uploaded-HasFile id now path name u files jobs at h =
      let old =
        All-member (HasFile path_of files) (HasFile path_of (put (file_name id) u.content files))
          jobs
          (λ j _ row n.
            ((row n).0, contains-put_old (file_name id) (file_name j.id) u.content files (row n).1))
          h in
      append-All (HasFile path_of (put (file_name id) u.content files)) jobs
        (import_job id now path name u) old
        (λ n.
          unfold import_job in
          (ap (λ (p : Text). some p) at, contains-put_self (file_name id) u.content files))

  -- the paths of the files are those of their ids
  abbrev pub IsShelved : (Text → SpoolFile) → Type 0
  IsShelved file_of = (id : Text) → (file_of (file_name id)).path ≡ path_of id

  pub tidied-HasFile :
      (s : MaintenanceSettings) (now wall : ℕ) (file_of : Text → SpoolFile) (files : Dict Bytes)
      (jobs : List Job)
      → IsShelved file_of
      → All (HasFile path_of files) jobs
      → All
          (HasFile path_of
            (filter (λ (f : Text × Bytes). not (is_stale_file wall jobs (file_of f.0))) files))
          jobs
  tidied-HasFile s now wall file_of files jobs shelved h =
      All-member (HasFile path_of files)
        (HasFile path_of
          (filter (λ (f : Text × Bytes). not (is_stale_file wall jobs (file_of f.0))) files))
        jobs
        (λ j member row n.
          let (path, there) = row n in
          let active = IsIn-active_path j jobs {path = path_of j.id} member n path in
          (
            path,
            contains-filter (file_name j.id)
                (λ (f : Text × Bytes). not (is_stale_file wall jobs (file_of f.0))) files
                (λ v.
                  ap not
                    (active-fresh wall jobs (file_of (file_name j.id)) (rw (shelved j.id) active)))
                there,
          ))
        h
