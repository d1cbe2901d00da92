-- ===== src/Worker/Work.antt =====
-- `process_import` and `process_account_job` of app/worker.py: what each reads in its first
-- transactions, and what it commits in the last. The numbers of the policy are arguments.
use token_loom.Prelude.{
  ℕ, suc, Bool, ◌||◌, Option, none, some, List, [], ◌∷◌, map, ◌==◌, if◌then◌else◌, is_empty, Text,
  codes, Result, ok, err, ◌>>=◌, or_raise,
}
use token_loom.Prelude.Utf8.{Bytes}
use token_loom.Prelude.Dict.{Dict, get, pop}
use token_loom.Crypto.Context.{refresh_token}
use token_loom.Crypto.Vault.{VaultError, Primitives}
use token_loom.Records.{Account, Job, DuplicateMode, update}
use token_loom.Accounts.Parse.{ParsedAccount}
use token_loom.Jobs.Queue.{find_job, update_job}
use token_loom.Import.Batch.{Batch, Fault, start_batch, read_batch, finish_import}
use token_loom.Import.Rows.{
  Row, Nonces, AccountTable, StatementError, account_row, seal_field, upsert_accounts,
}
use token_loom.Refresh.Token as Token
use token_loom.Refresh.Results.{AccountResult, ImapResult, account_result, apply_result}
use token_loom.Refresh.Batches.{load_work, finish_batch, finish_empty}
use token_loom.Database.{WorkAccount, work_account}
use token_loom.Worker.Maintenance.{FilePath, SpoolError, safe_spool_path}

-- what the worker finds outside of the repository's code and tables
pub record Outside : Type 0 where
  pub lower : Text → Text
  pub lookup_hash : Text → Text
  pub primitives : Primitives
  pub refuses : List Row → Bool
  pub resolve : Text → FilePath
  pub imports_dir : Text
  pub sanitize : Text → Text
  pub isdigit : Text → Bool
  pub float_of : Text → Result Text ℕ
  pub replies : ℕ → ℕ → Token.Reply
  pub imap : ℕ → ImapResult
  pub nonces : ℕ → Nonces
  pub nonce_for : ℕ → Bytes
  pub joined : List (ℕ × Fault) → Option Text

-- the settings and the policy that are read
pub record Limits : Type 0 where
  pub import_batch_size : ℕ
  pub max_import_line_bytes : ℕ
  pub worker_batch_size : ℕ
  pub interval_days : ℕ
  pub max_retries : ℕ

-- the exceptions that end a turn; a reader never is out of fuel
pub data WorkError : Type 0 where
  no_import_file no_job unsafe_path no_such_file unknown_kind reader_out_of_fuel : WorkError
  vault : VaultError → WorkError
  database : StatementError → WorkError

abbrev pub raised_as {ℓ κ μ} :
    {E : Type ℓ} {F : Type κ} {A : Type μ} → (E → F) → Result E A → Result F A
raised_as f (ok a) = ok a
raised_as f (err e) = err (f e)

abbrev pub or_default {ℓ} : {A : Type ℓ} → Option A → A → A
or_default none d = d
or_default (some a) d = a

-- The variables of `process_import` behind its loop.
pub record ImportRead : Type 0 where
  pub name : Text
  pub source_name : Text
  pub duplicate_mode : DuplicateMode
  pub batch : Batch

-- `[account_row(item, …) for item in parsed]`, the nonces numbered
unfoldable pub account_rows :
    Outside → Text → ℕ → ℕ → ℕ → List ParsedAccount → Result VaultError (List Row)
account_rows o source_name interval_days now k [] = ok []
account_rows o source_name interval_days now k (a ∷ parsed) = do
  row ← account_row o.lower o.lookup_hash o.primitives a source_name interval_days now (o.nonces k)
  rows ← account_rows o source_name interval_days now (suc k) parsed
  ok (row ∷ rows)

-- `remove_import_spool`: an unsafe path is left alone, and so is a file that is not there
unfoldable pub remove_import_spool : Outside → Option Text → Dict Bytes → Dict Bytes
remove_import_spool o none files = files
remove_import_spool o (some value) files = elim (safe_spool_path o.resolve o.imports_dir value) [
  | err _ ↦ files
  | ok path ↦ pop path.name files
]

module _ (o : Outside) (limits : Limits) where
  unfoldable pub read_spool : Job → Dict Bytes → FilePath → Result WorkError ImportRead
  read_spool j files path = do
    content ← or_raise (get path.name files) no_such_file
    batch ←
        or_raise
          (read_batch o.lower limits.max_import_line_bytes j.cursor_id j.processed
            limits.import_batch_size (start_batch j.cursor_id content))
          reader_out_of_fuel
    ok (record {
      name = path.name;
      source_name = or_default j.source_name (codes "TXT 导入");
      duplicate_mode = or_default j.options.duplicate_mode update;
      batch = batch;
    })

  -- `process_import` up to its last transaction
  unfoldable pub read_import : Text → List Job → Dict Bytes → Result WorkError ImportRead
  read_import id jobs files = do
    j ← or_raise (find_job id jobs) no_import_file
    value ← or_raise j.source_path no_import_file
    path ←
        raised_as (λ (_ : SpoolError). unsafe_path) (safe_spool_path o.resolve o.imports_dir value)
    read_spool j files path

-- the tables and the files of imports, by their names
pub record Tables : Type 0 where
  pub jobs : List Job
  pub accounts : AccountTable
  pub files : Dict Bytes

module _ (o : Outside) (limits : Limits) (now : ℕ) where
  -- the last transaction of `process_import`, and the file that it removes behind it
  unfoldable pub commit_import : Text → ImportRead → Tables → Result WorkError Tables
  commit_import id r t = do
    j ← or_raise (find_job id t.jobs) no_job
    rows ← raised_as vault (account_rows o r.source_name limits.interval_days now 0 r.batch.parsed)
    written ← raised_as database (upsert_accounts o.refuses r.duplicate_mode rows t.accounts)
    ok (record {
      jobs =
          update_job id (finish_import now r.batch written.0 written.1 (o.joined r.batch.errors))
            t.jobs;
      accounts = written.2;
      files = if r.batch.eof || j.cancel_requested then pop r.name t.files else t.files;
    })

  -- `one(account)` of `run_account_batch`: the calls of the account's own replies
  unfoldable pub run_account : Bool → WorkAccount → AccountResult
  run_account is_health w =
      let token =
        (Token.refresh_token o.sanitize o.isdigit o.float_of w.refresh_token limits.max_retries
          (o.replies w.id)).0 in
      account_result w.id is_health token (o.imap w.id)

  -- `gather` keeps the order of the accounts
  unfoldable pub run_account_batch : Bool → List WorkAccount → List AccountResult
  run_account_batch is_health accounts = map (run_account is_health) accounts

  -- `result_map[account.id]`, where the account has a result
  unfoldable pub find_result : ℕ → List AccountResult → Option AccountResult
  find_result id [] = none
  find_result id (r ∷ results) = if r.account_id == id then some r else find_result id results

  -- the body of `for account in db_accounts`, with the seal of a new token
  unfoldable pub settle_account : Account → AccountResult → Result VaultError Account
  settle_account a r =
      if is_empty r.refresh_token
      then ok (apply_result o.sanitize now limits.interval_days [] r a)
      else (do
        sealed ←
            seal_field o.lower o.lookup_hash o.primitives a.email_hash refresh_token r.refresh_token
              (o.nonce_for a.id)
        ok (apply_result o.sanitize now limits.interval_days sealed r a))

  -- the table behind the loop, with `success` and `failed`
  unfoldable pub settle_accounts :
      List AccountResult → List Account → Result VaultError (ℕ × ℕ × List Account)
  settle_accounts results [] = ok (0, 0, [])
  settle_accounts results (a ∷ rows) = do
    rest ← settle_accounts results rows
    elim (find_result a.id results) [
      | none ↦ ok (rest.0, rest.1, a ∷ rest.2)
      | some r ↦ settle_account a r >>= λ (settled : Account). ok (
        if r.ok then suc rest.0 else rest.0,
        if r.ok then rest.1 else suc rest.1,
        settled ∷ rest.2,
      )
    ]

  -- the last transaction of `process_account_job`; `accounts` are those that it took
  unfoldable pub commit_batch :
      Text → List Account → List AccountResult → Tables → Result WorkError Tables
  commit_batch id accounts results t = do
    j ← or_raise (find_job id t.jobs) no_job
    settled ← raised_as vault (settle_accounts results t.accounts.rows)
    ok (record t {
      jobs =
          update_job id (finish_batch now limits.worker_batch_size accounts settled.0 settled.1)
            t.jobs;
      accounts = record t.accounts { rows = settled.2 };
    })

  -- `if not accounts:` of `process_account_job`
  unfoldable pub commit_empty : Text → Tables → Result WorkError Tables
  commit_empty id t = do
    j ← or_raise (find_job id t.jobs) no_job
    ok (record t { jobs = update_job id (finish_empty now) t.jobs })

  -- `[work_account(row) for row in rows]`
  unfoldable pub work_accounts : List Account → Result VaultError (List WorkAccount)
  work_accounts [] = ok []
  work_accounts (a ∷ rows) = do
    work ← work_account o.primitives a
    rest ← work_accounts rows
    ok (work ∷ rest)

  -- `load_work`: the rows of the batch, and what is opened of them
  unfoldable pub load_batch : Text → Tables → Result WorkError (List Account × List WorkAccount)
  load_batch id t = do
    j ← or_raise (find_job id t.jobs) no_job
    let rows = load_work now limits.worker_batch_size j t.accounts.rows
    work ← raised_as vault (work_accounts rows)
    ok (rows, work)
