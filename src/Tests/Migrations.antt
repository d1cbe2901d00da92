-- ===== src/Tests/Migrations.antt =====
-- The migration of the ciphertexts at work, in pages of one row.
use token_loom.Prelude.{ℕ, ◌+◌, ◌≡◌, refl, none, some, List, [], ◌∷◌, ◌++◌, codes, ok, err, arith}
use token_loom.Prelude.Utf8.{Bytes}
use token_loom.Records.{Account}
use token_loom.Crypto.Context.{Field}
use token_loom.Crypto.Vault.{bad_tag, bound_prefix, aad_prefix, legacy_aad}
use token_loom.Database.{Migration, migrate_account_ciphertexts}
use token_loom.Database.Pages.{IsMigrated}
use token_loom.Database.Passes.{migrate_account_ciphertexts-IsMigrated}
use token_loom.Tests.Samples.{toy, toy-AreSound, nonce_a, hash_a, account_of}

abbrev legacy : Bytes
legacy = nonce_a ++ 14 ∷ legacy_aad ++ codes "id"

abbrev old_row : ℕ → Account
old_row id = record (account_of id hash_a none) {
  client_id_encrypted = legacy;
  refresh_token_encrypted = [];
}

abbrev clock : ℕ → ℕ
clock id = 2000 + id

abbrev new_row : ℕ → Account
new_row id = record (old_row id) {
  client_id_encrypted =
      bound_prefix
      ++ nonce_a
      ++ 96 ∷ (aad_prefix ++ codes "account:" ++ hash_a ++ codes ":client_id")
      ++ codes "id";
  updated_at = clock id;
}

abbrev broken_row : ℕ → Account
broken_row id = record (old_row id) { refresh_token_encrypted = 1 ∷ [] }

abbrev two_rows : List Account
two_rows = old_row 3 ∷ old_row 5 ∷ []

abbrev same_nonce : ℕ → Field → Bytes
same_nonce _ _ = nonce_a

migrate_two_rows :
    migrate_account_ciphertexts toy same_nonce clock 1 two_rows
    ≡ some (record { rows = new_row 3 ∷ new_row 5 ∷ []; outcome = ok 2 })
unfolding migrate_account_ciphertexts token_loom.Prelude.Paging.behind
    token_loom.Prelude.Paging.last_key token_loom.Database.migrate_from
    token_loom.Database.migrate_page token_loom.Database.migrate_account token_loom.Database.touch
    token_loom.Database.migrate_field token_loom.Database.save token_loom.Database.written
    token_loom.Crypto.Vault.needs_upgrade token_loom.Crypto.Vault.upgrade
    token_loom.Crypto.Vault.open_value token_loom.Crypto.Vault.unpack token_loom.Crypto.Vault.seal
    token_loom.Crypto.Vault.aad token_loom.Crypto.Context.account_cipher_context
    token_loom.Crypto.Context.is_known token_loom.Crypto.Context.is_hex
    token_loom.Crypto.Context.field_name token_loom.Prelude.starts_with token_loom.Prelude.text_eq
    token_loom.Prelude.Utf8.decode token_loom.Prelude.Utf8.encode
migrate_two_rows = refl

-- the page before the row that cannot be opened stays committed
migrate_broken_row :
    migrate_account_ciphertexts toy same_nonce clock 1 (old_row 3 ∷ broken_row 5 ∷ [])
    ≡ some (record { rows = new_row 3 ∷ broken_row 5 ∷ []; outcome = err bad_tag })
unfolding migrate_account_ciphertexts token_loom.Prelude.Paging.behind
    token_loom.Prelude.Paging.last_key token_loom.Database.migrate_from
    token_loom.Database.migrate_page token_loom.Database.migrate_account token_loom.Database.touch
    token_loom.Database.migrate_field token_loom.Database.save token_loom.Database.written
    token_loom.Crypto.Vault.needs_upgrade token_loom.Crypto.Vault.upgrade
    token_loom.Crypto.Vault.open_value token_loom.Crypto.Vault.unpack token_loom.Crypto.Vault.seal
    token_loom.Crypto.Vault.aad token_loom.Crypto.Context.account_cipher_context
    token_loom.Crypto.Context.is_known token_loom.Crypto.Context.is_hex
    token_loom.Crypto.Context.field_name token_loom.Prelude.starts_with token_loom.Prelude.text_eq
    token_loom.Prelude.Utf8.decode token_loom.Prelude.Utf8.encode
migrate_broken_row = refl

migrate_account_ciphertexts-IsMigrated_example :
    (m : Migration) × (migrate_account_ciphertexts toy same_nonce clock 1 two_rows ≡ some m)
    × IsMigrated toy same_nonce clock 0 two_rows m.rows m.outcome
migrate_account_ciphertexts-IsMigrated_example =
    migrate_account_ciphertexts-IsMigrated toy toy-AreSound same_nonce clock (λ _ _. refl) 1
      two_rows (omega arith) (omega arith)
