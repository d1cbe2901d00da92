-- ===== src/Database/Pages.antt =====
-- One page of `migrate_account_ciphertexts` of app/database.py.
use token_loom.Prelude.{
  ℕ, ◌+◌, ◌≡◌, refl, ap, Bool, true, false, List, [], ◌∷◌, ◌++◌, All, any, length, Result, ok, err,
  inl, inr, arith, Result-cases, >>=-eq-ok, if◌then◌else◌,
}
use token_loom.Prelude.Utf8.{Bytes}
use token_loom.Crypto.Context.{Field}
use token_loom.Crypto.Vault.{VaultError, Primitives, AreSound}
use token_loom.Records.{Account}
use token_loom.Database.{migrate_account, migrate_page}
use token_loom.Database.Fields.{stale_fields, IsClean, Keeps, Keeps-refl, migrate_account_lem}
use token_loom.Database.Writes.{Pairs, SameId}

-- the ciphertexts of the table that want an upgrade
abbrev pub stale : List Account → ℕ
stale [] = 0
stale (a ∷ rows) = stale_fields a + stale rows

abbrev pub is_err {ℓ κ} : {E : Type ℓ} {A : Type κ} → Result E A → Bool
is_err (ok a) = false
is_err (err e) = true

module _ (p : Primitives) (nonce : ℕ → Field → Bytes) (clock : ℕ → ℕ) where
  -- some row of the table cannot be migrated
  abbrev pub has_refused : List Account → Bool
  has_refused rows = any (λ a. is_err (migrate_account p nonce clock a)) rows

  -- What the outcome says of the old and the new rows: the count is that of the stale ciphertexts and
  -- all rows are clean, or there was a row that cannot be migrated.
  abbrev pub Settled : ℕ → List Account → List Account → Result VaultError ℕ → Type 0
  Settled migrated old new (ok count) = All IsClean new × (count ≡ migrated + stale old)
  Settled migrated old new (err raised) = has_refused old ≡ true

  pub record IsMigrated (migrated : ℕ) (old new : List Account) (outcome : Result VaultError ℕ)
      : Type 0 where
    pub kept : Pairs (Keeps p clock) old new
    pub settled : Settled migrated old new outcome

module _ (p : Primitives) (clock : ℕ → ℕ) where
  pub Pairs-Keeps_refl : (rows : List Account) → Pairs (Keeps p clock) rows rows
  Pairs-Keeps_refl [] = tt
  Pairs-Keeps_refl (a ∷ rows) = (Keeps-refl p clock a, Pairs-Keeps_refl rows)

  pub Keeps-SameId : (xs ys : List Account) → Pairs (Keeps p clock) xs ys → Pairs SameId xs ys
  Keeps-SameId [] [] k = tt
  Keeps-SameId [] (y ∷ ys) k = absurd k
  Keeps-SameId (x ∷ xs) [] k = absurd k
  Keeps-SameId (x ∷ xs) (y ∷ ys) k = (ap (λ (a : Account). a.id) k.0.others, Keeps-SameId xs ys k.1)

  pub Pairs-append :
      (xs ys us vs : List Account)
      → Pairs (Keeps p clock) xs us
      → Pairs (Keeps p clock) ys vs
      → Pairs (Keeps p clock) (xs ++ ys) (us ++ vs)
  Pairs-append [] ys [] vs k l = l
  Pairs-append [] ys (u ∷ us) vs k l = absurd k
  Pairs-append (x ∷ xs) ys [] vs k l = absurd k
  Pairs-append (x ∷ xs) ys (u ∷ us) vs k l = (k.0, Pairs-append xs ys us vs k.1 l)

pub All-append : (xs ys : List Account) → All IsClean xs → All IsClean ys → All IsClean (xs ++ ys)
All-append [] ys h k = k
All-append (x ∷ xs) ys h k = (h.0, All-append xs ys h.1 k)

pub stale-append : (xs ys : List Account) → stale (xs ++ ys) ≡ stale xs + stale ys
stale-append [] ys = omega arith
stale-append (x ∷ xs) ys = omega (arith, stale-append xs ys)

pub any-append {ℓ} :
    {A : Type ℓ} (p : A → Bool) (xs ys : List A)
    → any p (xs ++ ys) ≡ (if any p xs then true else any p ys)
any-append p [] ys = refl
any-append p (x ∷ xs) ys = ground (arith, any-append p xs ys)

module _ (p : Primitives) (sound : AreSound p) (nonce : ℕ → Field → Bytes) (clock : ℕ → ℕ)
    (twelve : (id : ℕ) (f : Field) → length (nonce id f) ≡ 12) where
  pub migrate_page-eq_ok :
      (a : Account) (page : List Account) {r : ℕ × List Account}
      → migrate_page p nonce clock (a ∷ page) ≡ ok r
      → (x : ℕ × Account) × (y : ℕ × List Account) × (migrate_account p nonce clock a ≡ ok x)
        × (migrate_page p nonce clock page ≡ ok y)
        × (r ≡ (x.0 + y.0, x.1 ∷ y.1))
  unfolding migrate_page
  migrate_page-eq_ok a page h =
      let (x, dx, hx) = >>=-eq-ok (migrate_account p nonce clock a) _ h in
      let (y, dy, hy) = >>=-eq-ok (migrate_page p nonce clock page) _ hx in (x, y, dx, dy, cc)

  pub migrate_page-nil : {r : ℕ × List Account} → migrate_page p nonce clock [] ≡ ok r → (0, []) ≡ r
  unfolding migrate_page
  migrate_page-nil h = cc

  pub migrate_page_lem :
      (page : List Account) {r : ℕ × List Account}
      → migrate_page p nonce clock page ≡ ok r
      → Pairs (Keeps p clock) page r.1 × All IsClean r.1 × (r.0 ≡ stale page)
  migrate_page_lem [] h = rw (← migrate_page-nil h) (tt, tt, refl)
  migrate_page_lem (a ∷ page) h =
      let (x, y, dx, dy, form) = migrate_page-eq_ok a page h in
      let (kept, clean, count) = migrate_account_lem p clock sound nonce twelve a dx in
      let (kept', clean', count') = migrate_page_lem page dy in
      rw form ((kept, kept'), (clean, clean'), omega (arith, count, count'))

  pub migrate_page-err :
      (page : List Account) {raised : VaultError}
      → migrate_page p nonce clock page ≡ err raised
      → has_refused p nonce clock page ≡ true
  unfolding migrate_page
  migrate_page-err [] h = cc
  migrate_page-err (a ∷ page) h = elim (Result-cases (migrate_account p nonce clock a)) [
    | inr (e, d) ↦ ground (arith, d)
    | inl (x, d) ↦ elim (Result-cases (migrate_page p nonce clock page)) [
      | inr (e, g) ↦ ground (arith, migrate_page-err page g)
      | inl (y, g) ↦ ground (arith, h, d, g)
    ]
  ]
