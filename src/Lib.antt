-- ===== src/Lib.antt =====
-- TokenLoom keeps OAuth refresh tokens of mail accounts alive: a web application (app/main.py) takes
-- account files and orders, a worker (app/worker.py) imports the files and refreshes the accounts,
-- and both keep their state in the tables of app/models.py. The application puts a row into the
-- table of jobs; the worker claims it, works one batch, and puts it back or ends it; `cancel_job`
-- only leaves a mark, which the worker reads behind its batch.
--
-- Prelude: shared names; texts are lists of code points, bytes lists of numbers, `Dict` is a Python
--   dict in the order of insertion, `Utf8` the codec, `Paging` reading a table behind a cursor.
-- Records: the tables of app/models.py; a status or a kind is a data type of the texts that occur.
-- Auth.Attempts: the login throttle of app/auth.py (`_prune_attempts`, `reserve_login_attempt`,
--   `login_allowed`, `clear_failed_logins`). The dict `_attempts` is passed on from call to call,
--   as the lock makes each call one step; `time.time()` is an argument, in whole seconds.
-- Crypto: app/crypto.py. `Email` is `normalize_email` and `mask_email`, `Context` is
--   `account_cipher_context`, `Vault` is `SecretVault`. AES-GCM and zlib are a record of functions,
--   `Primitives`, whose documented behaviour is `AreSound`; `str.lower` is a function.
-- Accounts.Parse: `parse_account_line` of app/services.py.
-- Jobs.Queue: `recover_stale_jobs`, `claim_job`, `fail_job` and `heartbeat_job` of app/worker.py and
--   `cancel_job` of app/main.py, on the list of the rows of the table.
-- Import: `read_limited_line` and `process_import` of app/worker.py (`Reader`, `Batch`), `account_row`
--   and `upsert_accounts` of app/services.py (`Rows`); whether the database refuses an
--   update is a parameter. A file is the bytes that are left of it. The
--   reader has one unit of fuel more than bytes, since every turn takes a byte.
-- Refresh: `refresh_token` of app/services.py (`Token`), whose replies are a function of the
--   attempt; `run_account_batch` for one account and the writes of `process_account_job` to it
--   (`Results`); `account_scope_clause`, `scope_snapshot`, `load_work` and the end of a batch
--   (`Batches`).
-- Worker.Work, Worker.Machine: `process_import` and `process_account_job` whole, each as what it reads
--   first and what it commits last, and the loop `run` as a machine: `advance` takes the worker from
--   one transaction to the next, with `fail_job` where one raises; `execute` also has the events
--   between them, which are restarts, the scheduler, the maintenance, and orders, uploads,
--   cancellations and deletions by the web application. `Machine.Order` is the invariant of the
--   table, `Machine.Spools` that of the files of imports.
-- Database: `migrate_account_ciphertexts` of app/database.py in pages (one unit of fuel more than
--   rows), and `work_account` of app/services.py.
-- Worker.Lifecycle: what each write to a job makes of its times, and the jobs of the routes as their
--   first states. `Machine.Ends` follows the end of a job and a request to cancel it.
-- Worker.Scheduler, Worker.Maintenance: `scheduler_tick`, `safe_spool_path` and `maintenance_tick` of
--   app/worker.py. The setting `last_scheduler_run` is there, as `ensure_defaults` leaves it.
-- Auth.Session: the cookie of app/auth.py (`create_session`, `read_session`, `require_csrf`) and what
--   the headers of a proxy may say (`request_is_https`, `client_ip`). HMAC and the JSON text in
--   base64 are a record of functions, `SessionCodec`.
-- Guard: `RequestGuardMiddleware` of app/request_guard.py over a list of messages.
-- Import.Upload: `import_accounts` and `import_pasted_accounts` of app/main.py, with the chunks of the
--   uploaded file as a list and the disk budget as a number.
-- Config: `_bool`, `_int`, `_csv`, `production_ready` and `validate` of app/config.py, over the
--   environment as a function; `Numbers` are the settings that are numbers.
-- Auth.Keys: `verify_admin_key` of app/auth.py.
-- Views: `dashboard_counts`, `account_public` and `job_public` of app/services.py, `list_jobs` of
--   app/main.py. A progress is in tenths of a percent, and rounding is a parameter.
-- Redaction: `sanitize_error` of app/services.py. Each of its four patterns is a function that says
--   what a match at a place is replaced by and how long it is; `sub_matches` is `re.sub`.
-- Scripts: scripts/generate_admin_key.py, scripts/build_bootstrap.py and
--   scripts/generate_docker_env.py: the texts of the files they read and write.
-- Api, of app/main.py: `safe_source_name` (`Names`), `index`, `login_page`, the cookie of `login` and
--   `security_headers` (`Pages`), `login` with the verification of a key as a parameter, none where it
--   raises (`Login`),
--   `logout` (`Logout`), `list_accounts` (`Listing`), `create_job` and `delete_accounts` (`Orders`),
--   `update_settings` (`Policy`), and the writing routes behind `require_csrf` with their rows of the
--   audit table (`Writes`); `ensure_defaults` and `get_policy` of app/services.py (`Defaults`).
--   JSON values are a parameter type.
-- Tests: runs at concrete inputs, with concrete functions in place of the parameters.
--
-- Not modelled: the details of the audit rows, and the rows of logins and imports; sockets, TLS,
-- IMAP, the isolation of the database (a transaction is one step), logging, templates and the QA
-- scripts. Refresh and Worker take `sanitize_error` as a parameter. Texts of error messages are
-- constructors of the error types.
pub mod Prelude
pub mod Crypto
pub mod Records
pub mod Accounts
pub mod Jobs
pub mod Import
pub mod Refresh
pub mod Worker
pub mod Auth
pub mod Guard
pub mod Api
pub mod Config
pub mod Database
pub mod Views
pub mod Scripts
pub mod Redaction
pub mod Tests
