-- ===== src/Records.antt =====
-- The tables of app/models.py. Instants are seconds since the epoch; identifiers are naturals.
use token_loom.Prelude.{ℕ, Bool, Option, List, Text}
use token_loom.Prelude.Ints.{ℤ}
use token_loom.Prelude.Utf8.{Bytes}

-- `timedelta(days=1)`
abbrev pub day : ℕ
day = 86400

-- the values that the program writes to `Account.status`, the keys of STATUS_LABELS
pub data AccountStatus : Type 0 where
  unknown healthy refreshed token_invalid fetch_failed transient_error : AccountStatus

pub record Account : Type 0 where
  pub id : ℕ
  pub email_encrypted : Bytes
  pub email_hash : Text
  pub email_masked : Text
  pub domain : Text
  pub client_id_encrypted : Bytes
  pub refresh_token_encrypted : Bytes
  pub status : AccountStatus
  pub source_name : Text
  pub last_refresh_at : Option ℕ
  pub last_refresh_success_at : Option ℕ
  pub last_health_at : Option ℕ
  pub last_health_success_at : Option ℕ
  pub token_expires_at : Option ℕ
  pub next_refresh_at : Option ℕ
  pub last_error_code : Option Text
  pub last_error_summary : Option Text
  pub created_at : ℕ
  pub updated_at : ℕ

-- `Job.kind`; the worker refuses any other text
pub data JobKind : Type 0 where
  import_file refresh health : JobKind
  other_kind : Text → JobKind

pub data JobScope : Type 0 where
  file selected everything due : JobScope

pub data JobStatus : Type 0 where
  queued running completed failed cancelled : JobStatus

pub data DuplicateMode : Type 0 where
  update skip : DuplicateMode

-- `Job.options`
pub record JobOptions : Type 0 where
  pub max_account_id : Option ℕ
  pub duplicate_mode : Option DuplicateMode

pub record Job : Type 0 where
  pub id : Text
  pub kind : JobKind
  pub scope : JobScope
  pub status : JobStatus
  pub priority : ℕ
  pub account_ids : Option (List ℤ)
  pub options : JobOptions
  pub source_path : Option Text
  pub source_name : Option Text
  pub cursor_id : ℕ
  pub total : ℕ
  pub processed : ℕ
  pub succeeded : ℕ
  pub failed : ℕ
  pub skipped : ℕ
  pub error_summary : Option Text
  pub cancel_requested : Bool
  pub created_at : ℕ
  pub started_at : Option ℕ
  pub heartbeat_at : Option ℕ
  pub finished_at : Option ℕ

-- `AuditEvent`, less its id
pub record AuditEvent : Type 0 where
  pub action : Text
  pub ip_hash : Text
  pub created_at : ℕ
