-- ===== src/Refresh/Results.antt =====
-- `run_account_batch` of app/services.py for one account, and what `process_account_job` of
-- app/worker.py writes to the account of a result.
pub mod Laws
use token_loom.Prelude.{
  ℕ, ◌+◌, ◌*◌, Bool, true, false, not, Option, none, some, List, [], ◌∷◌, if◌then◌else◌, is_empty,
  take, Text, text_eq, codes, leb,
}
use token_loom.Prelude.Utf8.{Bytes}
use token_loom.Records.{
  Account, AccountStatus, healthy, refreshed, token_invalid, fetch_failed, transient_error, day,
}
use token_loom.Refresh.Token.{TokenResult}

-- `AccountResult`
pub record AccountResult : Type 0 where
  pub account_id : ℕ
  pub ok : Bool
  pub refresh_token : Text
  pub error_code : Text
  pub error_summary : Text
  pub permanent : Bool
  pub health_checked : Bool

-- what `_imap_health` returns
pub record ImapResult : Type 0 where
  pub ok : Bool
  pub error : Text

abbrev pub imap_failed : Text
imap_failed = codes "imap_failed"

-- `one(account)`, with the results of its two calls; `is_health` is `kind == "health"`
unfoldable pub account_result : ℕ → Bool → TokenResult → ImapResult → AccountResult
account_result id is_health token imap =
    if not token.ok
    then record {
      account_id = id;
      ok = false;
      refresh_token = [];
      error_code = token.error_code;
      error_summary = token.error_summary;
      permanent = token.permanent;
      health_checked = is_health;
    }
    else if is_health
    then if not imap.ok
      then record {
        account_id = id;
        ok = false;
        refresh_token = token.refresh_token;
        error_code = imap_failed;
        error_summary = imap.error;
        permanent = false;
        health_checked = true;
      }
      else record {
        account_id = id;
        ok = true;
        refresh_token = token.refresh_token;
        error_code = [];
        error_summary = [];
        permanent = false;
        health_checked = true;
      }
    else record {
      account_id = id;
      ok = true;
      refresh_token = token.refresh_token;
      error_code = [];
      error_summary = [];
      permanent = false;
      health_checked = false;
    }

-- `if result.refresh_token:`; `sealed` is the new ciphertext
unfoldable pub store_token : ℕ → ℕ → Bytes → AccountResult → Account → Account
store_token now interval_days sealed r a = if is_empty r.refresh_token then a else record a {
  refresh_token_encrypted = sealed;
  last_refresh_success_at = some now;
  token_expires_at = some (now + 90 * day);
  next_refresh_at = some (now + interval_days * day);
}

unfoldable pub store_health : ℕ → AccountResult → Account → Account
store_health now r a = if r.health_checked then record a { last_health_at = some now } else a

-- the branch `if result.ok:`
unfoldable pub store_success : ℕ → AccountResult → Account → Account
store_success now r a =
    let done = record a { last_error_code = none; last_error_summary = none } in
    if r.health_checked
    then record done { status = healthy; last_health_success_at = some now }
    else record done { status = refreshed }

-- the branch `else:`, less the texts of the error
unfoldable pub store_failure : ℕ → AccountResult → Account → Account
store_failure now r a =
    if r.permanent
    then record a { status = token_invalid; next_refresh_at = none }
    else if text_eq r.error_code imap_failed
    then record a { status = fetch_failed }
    else record a { status = transient_error; next_refresh_at = some (now + day) }

unfoldable pub store_error : (Text → Text) → AccountResult → Account → Account
store_error sanitize r a = record a {
  last_error_code = some (take 80 r.error_code);
  last_error_summary = some (sanitize r.error_summary);
}

module _ (sanitize : Text → Text) where
  -- the body of `for account in db_accounts`
  unfoldable pub apply_result : ℕ → ℕ → Bytes → AccountResult → Account → Account
  unfolding store_token store_health store_success store_failure store_error
  apply_result now interval_days sealed r a =
      let seen = record a { last_refresh_at = some now } in
      let stored = store_health now r (store_token now interval_days sealed r seen) in
      let settled =
        if r.ok
        then store_success now r stored
        else store_error sanitize r (store_failure now r stored) in
      record settled { updated_at = now }

-- The account is in the scope `due` at that instant.
unfoldable pub is_due : ℕ → Account → Bool
is_due now a = elim a.next_refresh_at [ none ↦ false | some t ↦ leb t now ]
