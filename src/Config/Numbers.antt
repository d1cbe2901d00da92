-- ===== src/Config/Numbers.antt =====
-- The numbers among the settings of app/config.py.
use token_loom.Prelude.{
  ℕ, ◌≤◌, ◌≡◌, refl, subst, false, Option, Text, codes, Result, ok, ◌>>=◌, >>=-eq-ok, arith,
}
use token_loom.Prelude.Ints.{ℤ, pos, negsuc, int_ltb}
use token_loom.Config.{ConfigError, int_setting}
use token_loom.Config.Checks.{int_setting-range}

-- the fields of `Settings` that are numbers
pub record Numbers : Type 0 where
  pub session_hours : ℤ
  pub bind_port : ℤ
  pub max_upload_bytes : ℤ
  pub min_free_bytes : ℤ
  pub max_import_line_bytes : ℤ
  pub import_batch_size : ℤ
  pub worker_batch_size : ℤ
  pub audit_retention_days : ℤ
  pub job_retention_days : ℤ

-- `_int` raises where the program starts: the first that is out of its range ends the start.
unfoldable pub load_numbers : (Text → Option Text) → (Text → Option ℤ) → Result ConfigError Numbers
load_numbers env int_of = do
  hours ← int_setting env int_of (codes "SESSION_HOURS") (pos 12) (pos 1) (pos 168)
  port ← int_setting env int_of (codes "BIND_PORT") (pos 8787) (pos 1) (pos 65535)
  upload ←
      int_setting env int_of (codes "MAX_UPLOAD_BYTES") (pos 2147483648) (pos 1024)
        (pos 21474836480)
  free ← int_setting env int_of (codes "MIN_FREE_BYTES") (pos 2147483648) (pos 0) (pos 107374182400)
  line ←
      int_setting env int_of (codes "MAX_IMPORT_LINE_BYTES") (pos 262144) (pos 1024) (pos 4194304)
  imports ← int_setting env int_of (codes "IMPORT_BATCH_SIZE") (pos 1000) (pos 1) (pos 10000)
  batch ← int_setting env int_of (codes "WORKER_BATCH_SIZE") (pos 500) (pos 1) (pos 5000)
  audit ← int_setting env int_of (codes "AUDIT_RETENTION_DAYS") (pos 180) (pos 7) (pos 3650)
  jobs ← int_setting env int_of (codes "JOB_RETENTION_DAYS") (pos 90) (pos 7) (pos 3650)
  ok (record {
    session_hours = hours;
    bind_port = port;
    max_upload_bytes = upload;
    min_free_bytes = free;
    max_import_line_bytes = line;
    import_batch_size = imports;
    worker_batch_size = batch;
    audit_retention_days = audit;
    job_retention_days = jobs;
  })

-- the integer is a natural number of that range
abbrev pub IsWithin : ℕ → ℕ → ℤ → Type 0
IsWithin low high z = (k : ℕ) × (z ≡ pos k) × (low ≤ k) × (k ≤ high)

pub record InRange (n : Numbers) : Type 0 where
  pub session_hours : IsWithin 1 168 n.session_hours
  pub bind_port : IsWithin 1 65535 n.bind_port
  pub max_upload_bytes : IsWithin 1024 21474836480 n.max_upload_bytes
  pub min_free_bytes : IsWithin 0 107374182400 n.min_free_bytes
  pub max_import_line_bytes : IsWithin 1024 4194304 n.max_import_line_bytes
  pub import_batch_size : IsWithin 1 10000 n.import_batch_size
  pub worker_batch_size : IsWithin 1 5000 n.worker_batch_size
  pub audit_retention_days : IsWithin 7 3650 n.audit_retention_days
  pub job_retention_days : IsWithin 7 3650 n.job_retention_days

within :
    (low high : ℕ) (z : ℤ)
    → int_ltb z (pos low) ≡ false
    → int_ltb (pos high) z ≡ false
    → IsWithin low high z
unfolding int_ltb
within low high (pos k) a b = (k, refl, ground (arith, a), ground (arith, b))
within low high (negsuc k) a b = cc

int_setting-within :
    (env : Text → Option Text) (int_of : Text → Option ℤ) (name : Text) (default : ℤ) (low high : ℕ)
    {value : ℤ}
    → int_setting env int_of name default (pos low) (pos high) ≡ ok value
    → IsWithin low high value
int_setting-within env int_of name default low high {value} h =
    let (a, b) = int_setting-range env int_of name default (pos low) (pos high) {value = value} h in
    within low high value a b

ok_injective : {A : Type 0} {a b : A} → ◌≡◌ {A = Result ConfigError A} (ok a) (ok b) → a ≡ b
ok_injective e = cc

-- Where the numbers of the environment are read, each is a natural number of its range: a batch, an
-- hour and a day are positive, and what is kept is kept for a week at least.
pub load_numbers-InRange :
    (env : Text → Option Text) (int_of : Text → Option ℤ) {n : Numbers}
    → load_numbers env int_of ≡ ok n
    → InRange n
unfolding load_numbers
load_numbers-InRange env int_of {n} h =
    let (hours, hours_read, h0) =
      >>=-eq-ok (int_setting env int_of (codes "SESSION_HOURS") (pos 12) (pos 1) (pos 168)) _ h in
    let (port, port_read, h1) =
      >>=-eq-ok (int_setting env int_of (codes "BIND_PORT") (pos 8787) (pos 1) (pos 65535)) _ h0 in
    let (upload, upload_read, h2) =
      >>=-eq-ok
        (int_setting env int_of (codes "MAX_UPLOAD_BYTES") (pos 2147483648) (pos 1024)
          (pos 21474836480))
        _ h1 in
    let (free, free_read, h3) =
      >>=-eq-ok
        (int_setting env int_of (codes "MIN_FREE_BYTES") (pos 2147483648) (pos 0)
          (pos 107374182400))
        _ h2 in
    let (line, line_read, h4) =
      >>=-eq-ok
        (int_setting env int_of (codes "MAX_IMPORT_LINE_BYTES") (pos 262144) (pos 1024)
          (pos 4194304))
        _ h3 in
    let (imports, imports_read, h5) =
      >>=-eq-ok (int_setting env int_of (codes "IMPORT_BATCH_SIZE") (pos 1000) (pos 1) (pos 10000))
        _ h4 in
    let (batch, batch_read, h6) =
      >>=-eq-ok (int_setting env int_of (codes "WORKER_BATCH_SIZE") (pos 500) (pos 1) (pos 5000)) _
        h5 in
    let (audit, audit_read, h7) =
      >>=-eq-ok (int_setting env int_of (codes "AUDIT_RETENTION_DAYS") (pos 180) (pos 7) (pos 3650))
        _ h6 in
    let (jobs, jobs_read, h8) =
      >>=-eq-ok (int_setting env int_of (codes "JOB_RETENTION_DAYS") (pos 90) (pos 7) (pos 3650)) _
        h7 in
    let same : (record {
      session_hours = hours;
      bind_port = port;
      max_upload_bytes = upload;
      min_free_bytes = free;
      max_import_line_bytes = line;
      import_batch_size = imports;
      worker_batch_size = batch;
      audit_retention_days = audit;
      job_retention_days = jobs;
    })
        ≡ n =
      ok_injective h8 in
    subst InRange same (record {
      session_hours =
          int_setting-within env int_of (codes "SESSION_HOURS") (pos 12) 1 168 {value = hours}
            hours_read;
      bind_port =
          int_setting-within env int_of (codes "BIND_PORT") (pos 8787) 1 65535 {value = port}
            port_read;
      max_upload_bytes =
          int_setting-within env int_of (codes "MAX_UPLOAD_BYTES") (pos 2147483648) 1024 21474836480
            {value = upload} upload_read;
      min_free_bytes =
          int_setting-within env int_of (codes "MIN_FREE_BYTES") (pos 2147483648) 0 107374182400
            {value = free} free_read;
      max_import_line_bytes =
          int_setting-within env int_of (codes "MAX_IMPORT_LINE_BYTES") (pos 262144) 1024 4194304
            {value = line} line_read;
      import_batch_size =
          int_setting-within env int_of (codes "IMPORT_BATCH_SIZE") (pos 1000) 1 10000
            {value = imports} imports_read;
      worker_batch_size =
          int_setting-within env int_of (codes "WORKER_BATCH_SIZE") (pos 500) 1 5000 {value = batch}
            batch_read;
      audit_retention_days =
          int_setting-within env int_of (codes "AUDIT_RETENTION_DAYS") (pos 180) 7 3650
            {value = audit} audit_read;
      job_retention_days =
          int_setting-within env int_of (codes "JOB_RETENTION_DAYS") (pos 90) 7 3650 {value = jobs}
            jobs_read;
    })
