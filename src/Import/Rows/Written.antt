-- ===== src/Import/Rows/Written.antt =====
-- What one row of a statement of `upsert_accounts` of app/services.py leaves in the table.
use token_loom.Prelude.{
  ℕ, ◌≡◌, refl, sym, ◌∙◌, true, false, Option, none, some, List, [], ◌∷◌, ◌++◌, if◌then◌else◌, Text,
  text_eq, text_eq_iff, text_eq_refl, arith, inl, inr, Bool-cases,
}
use mathlib.Core.Path.{subst}
use token_loom.Records.{Account, unknown}
use token_loom.Import.Rows.{
  Row, AccountTable, new_account, overwrite, find_hash, overwrite_hash, is_some, add_row,
  update_row,
}

module _ (h : Text) where
  pub find_hash-append_one :
      (rows : List Account) (a : Account)
      → find_hash h (rows ++ a ∷ []) ≡ (
          if is_some (find_hash h rows)
          then find_hash h rows
          else (if text_eq a.email_hash h then some a else none))
  unfolding find_hash
  find_hash-append_one [] a = refl
  find_hash-append_one (b ∷ rows) a = ground (arith, find_hash-append_one rows a)

  find_hash-overwrite_ne :
      (r : Row) (rows : List Account)
      → text_eq r.email_hash h ≡ false
      → find_hash h (overwrite_hash r rows) ≡ find_hash h rows
  unfolding find_hash overwrite_hash
  find_hash-overwrite_ne r [] ne = refl
  find_hash-overwrite_ne r (a ∷ rows) ne = ground (
    arith,
    text_eq_iff a.email_hash r.email_hash,
    text_eq_iff a.email_hash h,
    text_eq_iff r.email_hash h,
    find_hash-overwrite_ne r rows ne,
  )

-- The row that one statement leaves in the table at its hash.
abbrev pub written : Row → ℕ → Option Account → Account
written r id none = new_account id r
written r id (some a) = overwrite r a

pub hash-new_account : (id : ℕ) (r : Row) → (new_account id r).email_hash ≡ r.email_hash
unfolding new_account
hash-new_account id r = refl

find_hash-overwrite :
    (r : Row) (id : ℕ) (rows : List Account)
    → is_some (find_hash r.email_hash rows) ≡ true
    → find_hash r.email_hash (overwrite_hash r rows)
      ≡ some (written r id (find_hash r.email_hash rows))
unfolding find_hash overwrite_hash
find_hash-overwrite r id [] h = cc
find_hash-overwrite r id (a ∷ rows) h = ground (arith, find_hash-overwrite r id rows)

is_some-eq_false : (o : Option Account) → is_some o ≡ false → o ≡ none
is_some-eq_false none e = refl
is_some-eq_false (some a) e = cc

find_hash-update_row_self :
    (r : Row) (t : AccountTable)
    → find_hash r.email_hash (update_row r t).rows
      ≡ some (written r t.next_id (find_hash r.email_hash t.rows))
unfolding update_row add_row new_account
find_hash-update_row_self r t = elim (Bool-cases (is_some (find_hash r.email_hash t.rows))) [
  | inl e ↦ rw e (find_hash-overwrite r t.next_id t.rows e)
  | inr e ↦
      let missing = is_some-eq_false (find_hash r.email_hash t.rows) e in
      rw (e, find_hash-append_one r.email_hash t.rows (new_account t.next_id r))
        (rw (missing, text_eq_refl r.email_hash))
]

pub find_hash-update_row_ne :
    (h : Text) (r : Row) (t : AccountTable)
    → text_eq r.email_hash h ≡ false
    → find_hash h (update_row r t).rows ≡ find_hash h t.rows
unfolding update_row add_row
find_hash-update_row_ne h r t ne = elim (Bool-cases (is_some (find_hash r.email_hash t.rows))) [
  | inl e ↦ rw e (find_hash-overwrite_ne h r t.rows ne)
  | inr e ↦ rw e (
      rw (find_hash-append_one h t.rows (new_account t.next_id r))
        (rw (hash-new_account t.next_id r, ne) (ground arith)))
]

-- An account whose columns, less those that a refresh fills in, are as the row has them.
pub record IsWritten (r : Row) (a : Account) : Type 0 where
  pub email_encrypted : a.email_encrypted ≡ r.email_encrypted
  pub email_hash : a.email_hash ≡ r.email_hash
  pub email_masked : a.email_masked ≡ r.email_masked
  pub domain : a.domain ≡ r.domain
  pub client_id : a.client_id_encrypted ≡ r.client_id_encrypted
  pub refresh_token : a.refresh_token_encrypted ≡ r.refresh_token_encrypted
  pub status : a.status ≡ unknown
  pub source_name : a.source_name ≡ r.source_name
  pub next_refresh_at : a.next_refresh_at ≡ some r.next_refresh_at
  pub no_error_code : a.last_error_code ≡ none
  pub no_error_summary : a.last_error_summary ≡ none
  pub updated_at : a.updated_at ≡ r.now

-- The columns that an update of the row leaves alone.
pub record SameHistory (b a : Account) : Type 0 where
  pub id : a.id ≡ b.id
  pub last_refresh_at : a.last_refresh_at ≡ b.last_refresh_at
  pub last_refresh_success_at : a.last_refresh_success_at ≡ b.last_refresh_success_at
  pub last_health_at : a.last_health_at ≡ b.last_health_at
  pub last_health_success_at : a.last_health_success_at ≡ b.last_health_success_at
  pub token_expires_at : a.token_expires_at ≡ b.token_expires_at
  pub created_at : a.created_at ≡ b.created_at

overwrite-SameHistory : (r : Row) (b : Account) → SameHistory b (overwrite r b)
unfolding overwrite
overwrite-SameHistory r b = record {
  id = refl;
  last_refresh_at = refl;
  last_refresh_success_at = refl;
  last_health_at = refl;
  last_health_success_at = refl;
  token_expires_at = refl;
  created_at = refl;
}

pub SameHistory-trans : {a b c : Account} → SameHistory a b → SameHistory b c → SameHistory a c
SameHistory-trans f g = record {
  id = g.id ∙ f.id;
  last_refresh_at = g.last_refresh_at ∙ f.last_refresh_at;
  last_refresh_success_at = g.last_refresh_success_at ∙ f.last_refresh_success_at;
  last_health_at = g.last_health_at ∙ f.last_health_at;
  last_health_success_at = g.last_health_success_at ∙ f.last_health_success_at;
  token_expires_at = g.token_expires_at ∙ f.token_expires_at;
  created_at = g.created_at ∙ f.created_at;
}

SameHistory-refl : (a : Account) → SameHistory a a
SameHistory-refl a = record {
  id = refl;
  last_refresh_at = refl;
  last_refresh_success_at = refl;
  last_health_at = refl;
  last_health_success_at = refl;
  token_expires_at = refl;
  created_at = refl;
}

hash-find_hash :
    (h : Text) (rows : List Account) {a : Account} → find_hash h rows ≡ some a → a.email_hash ≡ h
unfolding find_hash
hash-find_hash h [] e = cc
hash-find_hash h (b ∷ rows) {a} e =
    ground (arith, text_eq_iff b.email_hash h, hash-find_hash h rows {a = a})

pub written-IsWritten :
    (r : Row) (id : ℕ) (o : Option Account) (rows : List Account)
    → find_hash r.email_hash rows ≡ o
    → IsWritten r (written r id o)
unfolding new_account overwrite
written-IsWritten r id none rows e = record {
  email_encrypted = refl;
  email_hash = refl;
  email_masked = refl;
  domain = refl;
  client_id = refl;
  refresh_token = refl;
  status = refl;
  source_name = refl;
  next_refresh_at = refl;
  no_error_code = refl;
  no_error_summary = refl;
  updated_at = refl;
}
written-IsWritten r id (some a) rows e = record {
  email_encrypted = refl;
  email_hash = hash-find_hash r.email_hash rows e;
  email_masked = refl;
  domain = refl;
  client_id = refl;
  refresh_token = refl;
  status = refl;
  source_name = refl;
  next_refresh_at = refl;
  no_error_code = refl;
  no_error_summary = refl;
  updated_at = refl;
}

pub written-SameHistory :
    (r : Row) (id : ℕ) (o : Option Account) (b : Account)
    → o ≡ some b
    → SameHistory b (written r id o)
written-SameHistory r id o b e =
    subst (λ (q : Option Account). SameHistory b (written r id q)) (sym e)
      (overwrite-SameHistory r b)

pub update_row-found :
    (h : Text) (r : Row) (t : AccountTable)
    → text_eq r.email_hash h ≡ true
    → find_hash h (update_row r t).rows ≡ some (written r t.next_id (find_hash h t.rows))
update_row-found h r t e =
    subst
      (λ (k : Text).
        find_hash k (update_row r t).rows ≡ some (written r t.next_id (find_hash k t.rows)))
      ((text_eq_iff r.email_hash h).0 e) (find_hash-update_row_self r t)

pub update_row-SameHistory :
    (h : Text) (r : Row) (t : AccountTable) (b : Account)
    → find_hash h t.rows ≡ some b
    → (c : Account) × (find_hash h (update_row r t).rows ≡ some c) × SameHistory b c
update_row-SameHistory h r t b e = elim (Bool-cases (text_eq r.email_hash h)) [
  | inl same ↦ (
    written r t.next_id (find_hash h t.rows),
    update_row-found h r t same,
    written-SameHistory r t.next_id (find_hash h t.rows) b e,
  )
  | inr ne ↦ (b, find_hash-update_row_ne h r t ne ∙ e, SameHistory-refl b)
]
