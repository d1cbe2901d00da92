-- ===== src/Database/Fields.antt =====
-- One row in the migration of app/database.py: what becomes of its three ciphertexts.
use token_loom.Prelude.{
  ℕ, ◌+◌, ◌≡◌, ◌⊎◌, ◌==◌, ◌∙◌, refl, false, inl, inr, if◌then◌else◌, length, ok, arith, Bool-cases,
  Result-cases, >>=-eq-ok,
}
use token_loom.Prelude.Utf8.{Bytes}
use token_loom.Crypto.Context.{Field, email, client_id, refresh_token, account_cipher_context}
use token_loom.Crypto.Vault.{Primitives, AreSound, needs_upgrade, upgrade}
use token_loom.Crypto.Vault.Laws.{upgrade_keeps}
use token_loom.Records.{Account}
use token_loom.Database.{open_field, work_account, migrate_field, touch, migrate_account}

-- how many of the row's ciphertexts want an upgrade
abbrev pub stale_field : Bytes → ℕ
stale_field value = if needs_upgrade value then 1 else 0

abbrev pub stale_fields : Account → ℕ
stale_fields a =
    stale_field a.email_encrypted
    + stale_field a.client_id_encrypted
    + stale_field a.refresh_token_encrypted

-- None of the row's ciphertexts wants an upgrade.
pub record IsClean (a : Account) : Type 0 where
  pub email : needs_upgrade a.email_encrypted ≡ false
  pub client_id : needs_upgrade a.client_id_encrypted ≡ false
  pub refresh_token : needs_upgrade a.refresh_token_encrypted ≡ false

module _ (p : Primitives) (clock : ℕ → ℕ) where
  -- The rows differ in nothing but the ciphertexts and `updated_at`: it is the instant of the commit
  -- where a ciphertext wanted an upgrade. The ciphertexts open to the same, field by field, so that
  -- the worker reads the same account.
  pub record Keeps (a b : Account) : Type 0 where
    pub others : b ≡ record a {
      email_encrypted = b.email_encrypted;
      client_id_encrypted = b.client_id_encrypted;
      refresh_token_encrypted = b.refresh_token_encrypted;
      updated_at = b.updated_at;
    }
    pub touched :
        (b ≡ a) ⊎ (b.updated_at ≡ (if stale_fields a == 0 then a.updated_at else clock a.id))
    pub email :
        open_field p a.email_hash email b.email_encrypted
        ≡ open_field p a.email_hash email a.email_encrypted
    pub client_id :
        open_field p a.email_hash client_id b.client_id_encrypted
        ≡ open_field p a.email_hash client_id a.client_id_encrypted
    pub refresh_token :
        open_field p a.email_hash refresh_token b.refresh_token_encrypted
        ≡ open_field p a.email_hash refresh_token a.refresh_token_encrypted
    pub work : work_account p b ≡ work_account p a

  pub Keeps-refl : (a : Account) → Keeps a a
  Keeps-refl a = record {
    others = refl;
    touched = inl refl;
    email = refl;
    client_id = refl;
    refresh_token = refl;
    work = refl;
  }

  -- what a migrated row is made of
  migrate_account-eq_ok :
      (nonce : ℕ → Field → Bytes) (a : Account) {count : ℕ} {b : Account}
      → migrate_account p nonce clock a ≡ ok (count, b)
      → (x : ℕ × Bytes) × (y : ℕ × Bytes) × (z : ℕ × Bytes) × (migrate_field p nonce clock a email
            a.email_encrypted
          ≡ ok x)
        × (migrate_field p nonce clock a client_id a.client_id_encrypted ≡ ok y)
        × (migrate_field p nonce clock a refresh_token a.refresh_token_encrypted ≡ ok z)
        × (b
            ≡ touch (clock a.id) (x.0 + y.0 + z.0) (record a {
              email_encrypted = x.1;
              client_id_encrypted = y.1;
              refresh_token_encrypted = z.1;
            }))
        × (count ≡ x.0 + y.0 + z.0)
  unfolding migrate_account
  migrate_account-eq_ok nonce a h =
      let (x, dx, hx) = >>=-eq-ok (migrate_field p nonce clock a email a.email_encrypted) _ h in
      let (y, dy, hy) =
        >>=-eq-ok (migrate_field p nonce clock a client_id a.client_id_encrypted) _ hx in
      let (z, dz, hz) =
        >>=-eq-ok (migrate_field p nonce clock a refresh_token a.refresh_token_encrypted) _ hy in
      (x, y, z, dx, dy, dz, cc, cc)

  rebuilt-Keeps :
      (a : Account) (count : ℕ) (x y z : Bytes) {b : Account}
      → b
        ≡ touch
            (clock a.id)
            count
            (record a { email_encrypted = x; client_id_encrypted = y; refresh_token_encrypted = z })
      → count ≡ stale_fields a
      → open_field p a.email_hash email x ≡ open_field p a.email_hash email a.email_encrypted
      → open_field p a.email_hash client_id y
        ≡ open_field p a.email_hash client_id a.client_id_encrypted
      → open_field p a.email_hash refresh_token z
        ≡ open_field p a.email_hash refresh_token a.refresh_token_encrypted
      → Keeps a b
  unfolding work_account touch
  rebuilt-Keeps a count x y z form stale ex ey ez =
      rw (form, stale)
        (record {
          others = refl;
          touched = inr refl;
          email = ex;
          client_id = ey;
          refresh_token = ez;
          work = rw (ex, ey, ez);
        })

  module _ (sound : AreSound p) (nonce : ℕ → Field → Bytes)
      (twelve : (id : ℕ) (f : Field) → length (nonce id f) ≡ 12) where
    migrate_field_lem :
        (a : Account) (f : Field) (value : Bytes) {count : ℕ} {upgraded : Bytes}
        → migrate_field p nonce clock a f value ≡ ok (count, upgraded)
        → (open_field p a.email_hash f upgraded ≡ open_field p a.email_hash f value)
          × (needs_upgrade upgraded ≡ false)
          × (count ≡ stale_field value)
    unfolding migrate_field open_field
    migrate_field_lem a f value {count} {upgraded} h = elim (Bool-cases (needs_upgrade value)) [
      | inr e ↦ ground (arith, e, h)
      | inl e ↦ elim (Result-cases (account_cipher_context a.email_hash f)) [
        | inr (x, g) ↦ ground (arith, h, e, g)
        | inl (c, g) ↦ elim (Result-cases (upgrade p value c (nonce a.id f))) [
          | inr (x, raised) ↦ ground (arith, h, e, g, raised)
          | inl (v, done) ↦
              let kept = upgrade_keeps p sound value c (nonce a.id f) (twelve a.id f) done in
              ground (arith, h, e, g, done, kept.0, kept.1)
        ]
      ]
    ]

    -- A row that is migrated keeps what it says, is clean, and counts its old ciphertexts.
    pub migrate_account_lem :
        (a : Account) {count : ℕ} {b : Account}
        → migrate_account p nonce clock a ≡ ok (count, b)
        → Keeps a b × IsClean b × (count ≡ stale_fields a)
    migrate_account_lem a h =
        let (x, y, z, dx, dy, dz, form, sum) = migrate_account-eq_ok nonce a h in
        let fx = migrate_field_lem a email a.email_encrypted dx in
        let fy = migrate_field_lem a client_id a.client_id_encrypted dy in
        let fz = migrate_field_lem a refresh_token a.refresh_token_encrypted dz in
        let stale : x.0 + y.0 + z.0 ≡ stale_fields a = omega (arith, fx.2, fy.2, fz.2) in
        (
          rebuilt-Keeps a (x.0 + y.0 + z.0) x.1 y.1 z.1 form stale fx.0 fy.0 fz.0,
          unfold touch in ground (arith, form, fx.1, fy.1, fz.1),
          sum ∙ stale,
        )
