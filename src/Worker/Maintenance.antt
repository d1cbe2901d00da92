-- ===== src/Worker/Maintenance.antt =====
-- `safe_spool_path` and `maintenance_tick` of app/worker.py. A path is its folder and its name, and
-- resolving it is a parameter; `now` and `wall` are `utcnow` and `time.time` in seconds.
use token_loom.Prelude.{
  ℕ, zero, suc, ◌+◌, ◌*◌, ◌≡◌, refl, Bool, true, false, ◌&&◌, ◌||◌, not, Option, none, some, List,
  [], ◌∷◌, any, filter, ltb, leb, ◌==◌, if◌then◌else◌, Text, text_eq, Result, ok, err, arith,
}
use token_loom.Records.{AuditEvent, Job, day}
use token_loom.Jobs.Queue.{is_active, is_import}

-- one character of the pattern SPOOL_NAME, which ignores case
pub data NameClass : Type 0 where
  hex version variant : NameClass
  letter : ℕ → NameClass

unfoldable pub is_hex_digit : ℕ → Bool
is_hex_digit c =
    (leb b'0' c && leb c b'9') || (leb b'a' c && leb c b'f') || (leb b'A' c && leb c b'F')

unfoldable pub is_class : NameClass → ℕ → Bool
unfolding is_hex_digit
is_class hex c = is_hex_digit c
is_class version c = leb b'1' c && leb c b'5'
is_class variant c = c == b'8' || c == b'9' || c == b'a' || c == b'b' || c == b'A' || c == b'B'
is_class (letter l) c = c == l || c + 32 == l

abbrev pub times : ℕ → NameClass → List NameClass → List NameClass
times zero k rest = rest
times (suc n) k rest = k ∷ times n k rest

abbrev pub dash : NameClass
dash = letter b'-'

-- `[0-9a-f]{8}-[0-9a-f]{4}-[1-5][0-9a-f]{3}-[89ab][0-9a-f]{3}-[0-9a-f]{12}\.txt`
abbrev pub spool_name : List NameClass
spool_name = times 8 hex (
    dash
    ∷ times 4 hex (
        dash
        ∷ version
        ∷ times 3 hex (
            dash
            ∷ variant
            ∷ times 3 hex (
                dash ∷ times 12 hex (letter b'.' ∷ letter b't' ∷ letter b'x' ∷ letter b't' ∷ [])))))

-- `fullmatch`
unfoldable pub matches : List NameClass → Text → Bool
matches [] [] = true
matches [] (c ∷ s) = false
matches (k ∷ ks) [] = false
matches (k ∷ ks) (c ∷ s) = is_class k c && matches ks s

pub record FilePath : Type 0 where
  pub folder : Text
  pub name : Text

pub data SpoolError : Type 0 where
  unsafe_path : SpoolError

-- `Path(value).resolve(strict=False)` is the parameter `resolve`
unfoldable pub safe_spool_path : (Text → FilePath) → Text → Text → Result SpoolError FilePath
safe_spool_path resolve imports_dir value =
    let path = resolve value in
    if not (text_eq path.folder imports_dir) || not (matches spool_name path.name)
    then err unsafe_path
    else ok path

-- a file of the folder of imports, whose path as a text is `path`
pub record SpoolFile : Type 0 where
  pub path : Text
  pub name : Text
  pub is_file : Bool
  pub modified : ℕ

pub record MaintenanceSettings : Type 0 where
  pub audit_retention_days : ℕ
  pub job_retention_days : ℕ

-- `Job.finished_at < now - timedelta(…)`, where it is not null
unfoldable pub finished_before : ℕ → ℕ → Option ℕ → Bool
finished_before now days none = false
finished_before now days (some t) = ltb (t + days * day) now

unfoldable pub is_expired_job : MaintenanceSettings → ℕ → Job → Bool
is_expired_job s now j =
    not (is_active j.status) && finished_before now s.job_retention_days j.finished_at

unfoldable pub is_expired_event : MaintenanceSettings → ℕ → AuditEvent → Bool
is_expired_event s now e = ltb (e.created_at + s.audit_retention_days * day) now

abbrev pub is_path : Text → Option Text → Bool
is_path path none = false
is_path path (some p) = text_eq p path

-- the path is one of `active_paths`
unfoldable pub is_active_path : List Job → Text → Bool
is_active_path jobs path =
    any (λ j. is_import j.kind && is_active j.status && is_path path j.source_path) jobs

unfoldable pub is_stale_file : ℕ → List Job → SpoolFile → Bool
is_stale_file wall jobs f =
    f.is_file
    && matches spool_name f.name
    && not (is_active_path jobs f.path)
    && ltb (f.modified + 3600) wall

pub record Store : Type 0 where
  pub events : List AuditEvent
  pub jobs : List Job
  pub files : List SpoolFile

unfoldable pub maintenance_tick : MaintenanceSettings → ℕ → ℕ → Store → Store
maintenance_tick s now wall store =
    let jobs = filter (λ j. not (is_expired_job s now j)) store.jobs in
    record {
      events = filter (λ e. not (is_expired_event s now e)) store.events;
      jobs = jobs;
      files = filter (λ f. not (is_stale_file wall jobs f)) store.files;
    }

-- A test that lets through no more than another one does not see what the other one drops.
filter-filter {ℓ} :
    {A : Type ℓ} (p q : A → Bool) (xs : List A)
    → ((x : A) → p x ≡ true → q x ≡ true)
    → filter p (filter q xs) ≡ filter p xs
filter-filter p q [] h = refl
filter-filter p q (x ∷ xs) h = ground (arith, filter-filter p q xs h, h x)

any-filter {ℓ} :
    {A : Type ℓ} (p q : A → Bool) (xs : List A)
    → ((x : A) → p x ≡ true → q x ≡ true)
    → any p (filter q xs) ≡ any p xs
any-filter p q [] h = refl
any-filter p q (x ∷ xs) h = ground (arith, any-filter p q xs h, h x)

-- the jobs that wait or run, and the files that an import among them still needs
unfoldable pub active_jobs : List Job → List Job
active_jobs jobs = filter (λ j. is_active j.status) jobs

unfoldable pub needed_files : List Job → List SpoolFile → List SpoolFile
needed_files jobs files = filter (λ f. is_active_path jobs f.path) files

is_active_path-kept :
    (s : MaintenanceSettings) (now : ℕ) (jobs : List Job) (path : Text)
    → is_active_path (filter (λ j. not (is_expired_job s now j)) jobs) path
      ≡ is_active_path jobs path
unfolding is_active_path is_expired_job
is_active_path-kept s now jobs path =
    any-filter (λ j. is_import j.kind && is_active j.status && is_path path j.source_path)
      (λ j.
        not (not (is_active j.status) && finished_before now s.job_retention_days j.finished_at))
      jobs (λ j h. ground (arith, h))

-- The cleaning keeps every job that waits or runs, and every file that an import among them needs,
-- whatever their age.
maintenance_tick-keeps :
    (s : MaintenanceSettings) (now wall : ℕ) (store : Store)
    → (active_jobs (maintenance_tick s now wall store).jobs ≡ active_jobs store.jobs)
      × (needed_files store.jobs (maintenance_tick s now wall store).files
          ≡ needed_files store.jobs store.files)
unfolding maintenance_tick active_jobs needed_files
maintenance_tick-keeps s now wall store = (
  filter-filter (λ (j : Job). is_active j.status) (λ j. not (is_expired_job s now j)) store.jobs
      (λ j h. unfold is_expired_job in ground (arith, h)),
  filter-filter (λ (f : SpoolFile). is_active_path store.jobs f.path)
      (λ f. not (is_stale_file wall (filter (λ j. not (is_expired_job s now j)) store.jobs) f))
      store.files
      (λ f h.
        unfold is_stale_file in ground (arith, h, is_active_path-kept s now store.jobs f.path)),
)
