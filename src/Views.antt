-- ===== src/Views.antt =====
-- What app/services.py and app/main.py show of the tables: `dashboard_counts`, `job_public`,
-- `account_public`, and the newest jobs of `dashboard` and `list_jobs`.
pub mod Counts
pub mod Newest
use token_loom.Prelude.{
  ℕ, zero, suc, ◌+◌, ◌*◌, Bool, true, false, ◌&&◌, ◌||◌, not, Option, none, some, List, [], ◌∷◌,
  map, filter, take, min, ltb, leb, ◌==◌, if◌then◌else◌, length, Text, codes,
}
use token_loom.Records.{
  Account, AccountStatus, unknown, healthy, refreshed, token_invalid, fetch_failed, transient_error,
  day, Job, JobKind, JobScope, JobStatus, completed,
}
use token_loom.Jobs.Queue.{is_active}
use token_loom.Refresh.Results.{is_due}

-- `Account.status.in_([…])` of the counts
unfoldable pub is_healthy : AccountStatus → Bool
is_healthy healthy = true
is_healthy refreshed = true
is_healthy _ = false

unfoldable pub is_invalid : AccountStatus → Bool
is_invalid token_invalid = true
is_invalid _ = false

unfoldable pub needs_attention : AccountStatus → Bool
needs_attention fetch_failed = true
needs_attention transient_error = true
needs_attention _ = false

unfoldable pub is_unknown : AccountStatus → Bool
is_unknown unknown = true
is_unknown _ = false

-- `token_expires_at > now` and `token_expires_at <= soon`, where it is not null
unfoldable pub is_expiring : ℕ → Account → Bool
is_expiring now a = elim a.token_expires_at [
  | none ↦ false
  | some t ↦ ltb now t && leb t (now + 14 * day)
]

unfoldable pub count_of : (Account → Bool) → List Account → ℕ
count_of p rows = length (filter p rows)

-- the dict of `dashboard_counts`
pub record DashboardCounts : Type 0 where
  pub total : ℕ
  pub healthy : ℕ
  pub invalid : ℕ
  pub attention : ℕ
  pub unknown : ℕ
  pub expiring : ℕ
  pub overdue : ℕ
  pub active_jobs : ℕ

unfoldable pub dashboard_counts : ℕ → List Account → List Job → DashboardCounts
unfolding count_of
dashboard_counts now rows jobs = record {
  total = length rows;
  healthy = count_of (λ a. is_healthy a.status) rows;
  invalid = count_of (λ a. is_invalid a.status) rows;
  attention = count_of (λ a. needs_attention a.status) rows;
  unknown = count_of (λ a. is_unknown a.status) rows;
  expiring = count_of (is_expiring now) rows;
  overdue = count_of (is_due now) rows;
  active_jobs = length (filter (λ (j : Job). is_active j.status) jobs);
}

-- `STATUS_LABELS.get(account.status, account.status)`
unfoldable pub status_label : AccountStatus → Text
status_label AccountStatus.unknown = codes "待检测"
status_label AccountStatus.healthy = codes "取件正常"
status_label refreshed = codes "刷新成功"
status_label token_invalid = codes "令牌失效"
status_label fetch_failed = codes "取件异常"
status_label transient_error = codes "暂时异常"

-- the dict of `account_public`, its instants before `isoformat`
pub record AccountView : Type 0 where
  pub id : ℕ
  pub email : Text
  pub domain : Text
  pub status : AccountStatus
  pub status_label : Text
  pub source : Text
  pub last_refresh_at : Option ℕ
  pub last_health_at : Option ℕ
  pub token_expires_at : Option ℕ
  pub next_refresh_at : Option ℕ
  pub error : Option Text
  pub created_at : ℕ

unfoldable pub account_public : Account → AccountView
account_public a = record {
  id = a.id;
  email = a.email_masked;
  domain = a.domain;
  status = a.status;
  status_label = status_label a.status;
  source = a.source_name;
  last_refresh_at = a.last_refresh_at;
  last_health_at = a.last_health_at;
  token_expires_at = a.token_expires_at;
  next_refresh_at = a.next_refresh_at;
  error = a.last_error_summary;
  created_at = a.created_at;
}

-- the dict of `job_public`; the progress is in tenths of a percent
pub record JobView : Type 0 where
  pub id : Text
  pub kind : JobKind
  pub scope : JobScope
  pub status : JobStatus
  pub total : ℕ
  pub processed : ℕ
  pub succeeded : ℕ
  pub failed : ℕ
  pub skipped : ℕ
  pub progress : ℕ
  pub source_name : Option Text
  pub error : Option Text
  pub cancel_requested : Bool
  pub created_at : ℕ
  pub started_at : Option ℕ
  pub finished_at : Option ℕ

unfoldable pub is_completed : JobStatus → Bool
is_completed completed = true
is_completed _ = false

-- `rounded n m` is `round(n / m * 100, 1)`, which is not negative
module _ (rounded : ℕ → ℕ → ℕ) where
  -- `max(0, min(100, progress))`
  unfoldable pub progress_of : Job → ℕ
  unfolding is_completed
  progress_of j = min 1000 (
      if j.total == 0
      then if is_completed j.status then 1000 else 0
      else rounded j.processed j.total)

  unfoldable pub job_public : Job → JobView
  unfolding progress_of
  job_public j = record {
    id = j.id;
    kind = j.kind;
    scope = j.scope;
    status = j.status;
    total = j.total;
    processed = j.processed;
    succeeded = j.succeeded;
    failed = j.failed;
    skipped = j.skipped;
    progress = progress_of j;
    source_name = j.source_name;
    error = j.error_summary;
    cancel_requested = j.cancel_requested;
    created_at = j.created_at;
    started_at = j.started_at;
    finished_at = j.finished_at;
  }

-- `order_by(Job.created_at.desc())`; of two of one instant the first in the table comes first
unfoldable pub insert_newest : Job → List Job → List Job
insert_newest j [] = j ∷ []
insert_newest j (k ∷ jobs) =
    if leb k.created_at j.created_at then j ∷ k ∷ jobs else k ∷ insert_newest j jobs

unfoldable pub newest_first : List Job → List Job
newest_first [] = []
newest_first (j ∷ jobs) = insert_newest j (newest_first jobs)

-- `list_jobs`; `dashboard` takes six
unfoldable pub list_jobs : (ℕ → ℕ → ℕ) → ℕ → List Job → List JobView
unfolding newest_first
list_jobs rounded limit jobs = map (job_public rounded) (take limit (newest_first jobs))
