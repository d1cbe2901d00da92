-- ===== src/Database.antt =====
-- `migrate_account_ciphertexts` of app/database.py, and `work_account` of app/services.py. A nonce is
-- drawn at most once for an account and a field, so the random source is a function of these.
pub mod Writes
pub mod Fields
pub mod Pages
pub mod Passes
use token_loom.Prelude.{
  ℕ, zero, suc, ◌+◌, Bool, true, false, not, Option, none, some, List, [], ◌∷◌, map, take, ◌==◌,
  if◌then◌else◌, is_empty, length, Text, Result, ok, err, ◌>>=◌,
}
use token_loom.Prelude.Utf8.{Bytes}
use token_loom.Prelude.Paging.{behind, last_key}
use token_loom.Crypto.Context.{Field, email, client_id, refresh_token, account_cipher_context}
use token_loom.Crypto.Vault.{
  VaultError, bad_context, Primitives, needs_upgrade, open_value, upgrade,
}
use token_loom.Records.{Account}
use token_loom.Refresh.Batches.Walk.{id_of}

-- `WorkAccount`
pub record WorkAccount : Type 0 where
  pub id : ℕ
  pub email : Text
  pub client_id : Text
  pub refresh_token : Text

module _ (p : Primitives) where
  -- `vault.open(value, account_cipher_context(email_hash, field))`
  unfoldable pub open_field : Text → Field → Bytes → Result VaultError Text
  open_field email_hash field value = elim (account_cipher_context email_hash field) [
    | err _ ↦ err bad_context
    | ok context ↦ open_value p value context
  ]

  unfoldable pub work_account : Account → Result VaultError WorkAccount
  work_account a = do
    address ← open_field a.email_hash email a.email_encrypted
    client ← open_field a.email_hash client_id a.client_id_encrypted
    token ← open_field a.email_hash refresh_token a.refresh_token_encrypted
    ok (record { id = a.id; email = address; client_id = client; refresh_token = token })

-- What a page writes to a row: the page's own row of that id.
unfoldable pub written : List Account → Account → Account
written [] a = a
written (b ∷ page) a = if b.id == a.id then b else written page a

-- `session.commit()`
unfoldable pub save : List Account → List Account → List Account
save page rows = map (written page) rows

-- The table behind the pages that were committed, and the count that is returned or what was raised.
pub record Migration : Type 0 where
  pub rows : List Account
  pub outcome : Result VaultError ℕ

-- `onupdate=utcnow` of `updated_at`: the commit writes it to a row of which a value has changed.
unfoldable pub touch : ℕ → ℕ → Account → Account
touch now changed a = record a { updated_at = if changed == 0 then a.updated_at else now }

-- `clock` is `utcnow()` at the commit of the row of that id.
module _ (p : Primitives) (nonce : ℕ → Field → Bytes) (clock : ℕ → ℕ) where
  -- the body of the loop over the fields: how many values it upgraded, and the value
  unfoldable pub migrate_field : Account → Field → Bytes → Result VaultError (ℕ × Bytes)
  migrate_field a field value =
      if not (needs_upgrade value)
      then ok (0, value)
      else (elim (account_cipher_context a.email_hash field) [
        | err _ ↦ err bad_context
        | ok context ↦
            upgrade p value context (nonce a.id field) >>= λ (upgraded : Bytes). ok (1, upgraded)
      ])

  -- the row as the commit leaves it
  unfoldable pub migrate_account : Account → Result VaultError (ℕ × Account)
  unfolding touch
  migrate_account a = do
    address ← migrate_field a email a.email_encrypted
    client ← migrate_field a client_id a.client_id_encrypted
    token ← migrate_field a refresh_token a.refresh_token_encrypted
    let changed = address.0 + client.0 + token.0
    ok (
      changed,
      touch (clock a.id) changed (record a {
        email_encrypted = address.1;
        client_id_encrypted = client.1;
        refresh_token_encrypted = token.1;
      }),
    )

  -- `for account in rows`
  unfoldable pub migrate_page : List Account → Result VaultError (ℕ × List Account)
  migrate_page [] = ok (0, [])
  migrate_page (a ∷ page) = do
    first ← migrate_account a
    rest ← migrate_page page
    ok (first.0 + rest.0, first.1 ∷ rest.1)

  -- `while True`; `none` is a loop out of fuel
  unfoldable pub migrate_from : ℕ → ℕ → ℕ → ℕ → List Account → Option Migration
  migrate_from zero batch_size cursor migrated rows = none
  migrate_from (suc fuel) batch_size cursor migrated rows =
      let page = take batch_size (behind id_of (λ _. true) cursor rows) in
      let more : Option Migration = elim (migrate_page page) [
        | err raised ↦ some (record { rows = rows; outcome = err raised })
        | ok (count, upgraded) ↦
            migrate_from fuel batch_size (last_key id_of cursor page) (migrated + count)
              (save upgraded rows)
      ] in
      if is_empty page then some (record { rows = rows; outcome = ok migrated }) else more

  unfoldable pub migrate_account_ciphertexts : ℕ → List Account → Option Migration
  unfolding migrate_from
  migrate_account_ciphertexts batch_size rows = migrate_from (suc (length rows)) batch_size 0 0 rows
