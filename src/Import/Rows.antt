-- ===== src/Import/Rows.antt =====
-- `account_row` and `upsert_accounts` of app/services.py. The lookup hash is HMAC-SHA256 under
-- the vault's key and a parameter, as `str.lower` is.
pub mod Written
pub mod Upsert
use token_loom.Prelude.{
  ℕ, suc, ◌+◌, ◌-◌, ◌*◌, Bool, true, false, not, Option, none, some, List, [], ◌∷◌, ◌++◌,
  if◌then◌else◌, length, take, Text, text_eq, codes, rcut, Result, ok, err, ◌>>=◌,
}
use token_loom.Prelude.Utf8.{Bytes}
use token_loom.Crypto.Email.{normalize_email, mask_email}
use token_loom.Crypto.Context.{Field, email, client_id, refresh_token, account_cipher_context}
use token_loom.Crypto.Vault.{VaultError, bad_context, Primitives, seal}
use token_loom.Records.{Account, unknown, day, DuplicateMode, update, skip}
use token_loom.Accounts.Parse.{ParsedAccount}

-- The dict of `account_row`: the columns of a new row, less its id.
pub record Row : Type 0 where
  pub email_encrypted : Bytes
  pub email_hash : Text
  pub email_masked : Text
  pub domain : Text
  pub client_id_encrypted : Bytes
  pub refresh_token_encrypted : Bytes
  pub source_name : Text
  pub next_refresh_at : ℕ
  pub now : ℕ

-- the random nonces of the three calls of `seal`
pub record Nonces : Type 0 where
  pub for_email : Bytes
  pub for_client_id : Bytes
  pub for_refresh_token : Bytes

-- `parsed.email.rsplit("@", 1)[-1]`
unfoldable pub last_part : Text → Option (Text × Text) → Text
last_part whole none = whole
last_part whole (some (_, b)) = b

module _ (lower lookup_hash : Text → Text) (p : Primitives) where
  -- `vault.seal(value, account_cipher_context(email_hash, field))`
  unfoldable pub seal_field : Text → Field → Text → Bytes → Result VaultError Bytes
  seal_field email_hash field value nonce = elim (account_cipher_context email_hash field) [
    | err _ ↦ err bad_context
    | ok context ↦ seal p value context nonce
  ]

  unfoldable pub account_row : ParsedAccount → Text → ℕ → ℕ → Nonces → Result VaultError Row
  unfolding last_part
  account_row parsed source_name interval_days now nonces = do
    let email_hash = lookup_hash (normalize_email lower parsed.email)
    sealed_email ← seal_field email_hash email parsed.email nonces.for_email
    sealed_client ← seal_field email_hash client_id parsed.client_id nonces.for_client_id
    sealed_token ← seal_field email_hash refresh_token parsed.refresh_token nonces.for_refresh_token
    ok (record {
      email_encrypted = sealed_email;
      email_hash = email_hash;
      email_masked = mask_email lower parsed.email;
      domain = last_part parsed.email (rcut b'@' parsed.email);
      client_id_encrypted = sealed_client;
      refresh_token_encrypted = sealed_token;
      source_name = take 255 source_name;
      next_refresh_at = now + interval_days * day;
      now = now;
    })

-- The table `accounts`, by growing id, and the id that the next row gets.
pub record AccountTable : Type 0 where
  pub rows : List Account
  pub next_id : ℕ

-- a row that `INSERT` adds
unfoldable pub new_account : ℕ → Row → Account
new_account id r = record {
  id = id;
  email_encrypted = r.email_encrypted;
  email_hash = r.email_hash;
  email_masked = r.email_masked;
  domain = r.domain;
  client_id_encrypted = r.client_id_encrypted;
  refresh_token_encrypted = r.refresh_token_encrypted;
  status = unknown;
  source_name = r.source_name;
  last_refresh_at = none;
  last_refresh_success_at = none;
  last_health_at = none;
  last_health_success_at = none;
  token_expires_at = none;
  next_refresh_at = some r.next_refresh_at;
  last_error_code = none;
  last_error_summary = none;
  created_at = r.now;
  updated_at = r.now;
}

-- `on_conflict_do_update(set_={…})`
unfoldable pub overwrite : Row → Account → Account
overwrite r a = record a {
  email_encrypted = r.email_encrypted;
  email_masked = r.email_masked;
  domain = r.domain;
  client_id_encrypted = r.client_id_encrypted;
  refresh_token_encrypted = r.refresh_token_encrypted;
  status = unknown;
  source_name = r.source_name;
  next_refresh_at = some r.next_refresh_at;
  last_error_code = none;
  last_error_summary = none;
  updated_at = r.now;
}

unfoldable pub find_hash : Text → List Account → Option Account
find_hash h [] = none
find_hash h (a ∷ rows) = if text_eq a.email_hash h then some a else find_hash h rows

unfoldable pub overwrite_hash : Row → List Account → List Account
unfolding overwrite
overwrite_hash r [] = []
overwrite_hash r (a ∷ rows) =
    if text_eq a.email_hash r.email_hash then overwrite r a ∷ rows else a ∷ overwrite_hash r rows

abbrev pub is_some {ℓ} : {A : Type ℓ} → Option A → Bool
is_some none = false
is_some (some _) = true

unfoldable pub add_row : Row → AccountTable → AccountTable
add_row r t = record { rows = t.rows ++ new_account t.next_id r ∷ []; next_id = suc t.next_id }

-- `INSERT … ON CONFLICT (email_hash) DO UPDATE` of one row, and of all the rows in turn
unfoldable pub update_row : Row → AccountTable → AccountTable
update_row r t =
    if is_some (find_hash r.email_hash t.rows)
    then record t { rows = overwrite_hash r t.rows }
    else add_row r t

unfoldable pub update_rows : List Row → AccountTable → AccountTable
update_rows [] t = t
update_rows (r ∷ rows) t = update_rows rows (update_row r t)

-- `INSERT … ON CONFLICT (email_hash) DO NOTHING`, with the number of rows that went in
unfoldable pub insert_rows : List Row → AccountTable → ℕ × AccountTable
insert_rows [] t = (0, t)
insert_rows (r ∷ rows) t =
    let old = is_some (find_hash r.email_hash t.rows) in
    let (n, t') = insert_rows rows (if old then t else add_row r t) in
    (if old then n else suc n, t')

-- the database's refusal to update one row twice in a statement (CardinalityViolation)
pub data StatementError : Type 0 where
  row_affected_twice : StatementError

-- `refuses` stands for the database: whether it refuses to update with these rows in one statement.
module _ (refuses : List Row → Bool) where
  unfoldable pub upsert_by_mode :
      DuplicateMode → List Row → AccountTable → Result StatementError (ℕ × ℕ × AccountTable)
  upsert_by_mode update rows t =
      if refuses rows then err row_affected_twice else ok (length rows, 0, update_rows rows t)
  upsert_by_mode skip rows t =
      let (inserted, t') = insert_rows rows t in ok (inserted, length rows - inserted, t')

  -- the statement of `upsert_accounts`; the result is the number inserted and the number skipped
  unfoldable pub upsert_accounts :
      DuplicateMode → List Row → AccountTable → Result StatementError (ℕ × ℕ × AccountTable)
  unfolding upsert_by_mode
  upsert_accounts mode [] t = ok (0, 0, t)
  upsert_accounts mode (r ∷ rows) t = upsert_by_mode mode (r ∷ rows) t
