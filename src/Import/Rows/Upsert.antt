-- ===== src/Import/Rows/Upsert.antt =====
-- What the rows of a statement of `upsert_accounts` of app/services.py leave in the table together.
use token_loom.Prelude.{
  ℕ, ◌+◌, ◌≤◌, ◌≡◌, refl, ap, ◌∙◌, Bool, Option, none, some, List, [], ◌∷◌, if◌then◌else◌, length,
  Text, text_eq, text_eq_iff, ok, arith, inl, inr, Bool-cases, length-append,
}
use mathlib.Core.Path.{subst}
use token_loom.Records.{Account, DuplicateMode, update, skip}
use token_loom.Import.Rows.{
  Row, AccountTable, new_account, find_hash, is_some, add_row, update_row, update_rows, insert_rows,
  upsert_accounts,
}
use token_loom.Import.Rows.Written.{
  written, IsWritten, SameHistory, find_hash-append_one, find_hash-update_row_ne, SameHistory-trans,
  written-IsWritten, written-SameHistory, update_row-found, update_row-SameHistory,
}

abbrev or_else : Option Row → Option Row → Option Row
or_else none o = o
or_else (some r) o = some r

-- the last row of a statement with that hash
abbrev pub last_with : Text → List Row → Option Row
last_with h [] = none
last_with h (r ∷ rows) =
    or_else (last_with h rows) (if text_eq r.email_hash h then some r else none)

-- What stands in the table at a hash, by the last row that has it: that row, with the history of
-- what stood there, or what stood there.
abbrev pub Outcome : Text → List Account → List Account → Option Row → Type 0
Outcome h before after none = find_hash h after ≡ find_hash h before
Outcome h before after (some r) =
    (a : Account) × (find_hash h after ≡ some a)
    × IsWritten r a
    × ((b : Account) → find_hash h before ≡ some b → SameHistory b a)

Outcome-step :
    (h : Text) (r : Row) (t : AccountTable) (after : List Account) (o : Option Row)
    → Outcome h (update_row r t).rows after o
    → Outcome h t.rows after (or_else o (if text_eq r.email_hash h then some r else none))
Outcome-step h r t after (some s) (a, found, w, keeps) = (
  a,
  found,
  w,
  λ b e. let (c, at, f) = update_row-SameHistory h r t b e in SameHistory-trans f (keeps c at),
)
Outcome-step h r t after none w = elim (Bool-cases (text_eq r.email_hash h)) [
  | inl e ↦ rw e (
    written r t.next_id (find_hash h t.rows),
    w ∙ update_row-found h r t e,
    written-IsWritten r t.next_id (find_hash h t.rows) t.rows
        (ap (λ (k : Text). find_hash k t.rows) ((text_eq_iff r.email_hash h).0 e)),
    λ b old. written-SameHistory r t.next_id (find_hash h t.rows) b old,
  )
  | inr e ↦ rw e (w ∙ find_hash-update_row_ne h r t e)
]

pub update_rows-Outcome :
    (h : Text) (rows : List Row) (t : AccountTable)
    → Outcome h t.rows (update_rows rows t).rows (last_with h rows)
unfolding update_rows
update_rows-Outcome h [] t = refl
update_rows-Outcome h (r ∷ rows) t =
    Outcome-step h r t (update_rows rows (update_row r t)).rows (last_with h rows)
      (update_rows-Outcome h rows (update_row r t))

length-insert_rows :
    (rows : List Row) (t : AccountTable)
    → let (n, t') = insert_rows rows t in (n ≤ length rows) × (length t'.rows ≡ length t.rows + n)
unfolding insert_rows add_row
length-insert_rows [] t = (omega arith, omega arith)
length-insert_rows (r ∷ rows) t = elim (Bool-cases (is_some (find_hash r.email_hash t.rows))) [
  | inl e ↦ rw e (let h = length-insert_rows rows t in (omega (arith, h.0), omega (arith, h.1)))
  | inr e ↦ rw e (
      let h = length-insert_rows rows (add_row r t) in
      (omega (arith, h.0), omega (arith, h.1, length-append t.rows (new_account t.next_id r ∷ []))))
]

-- Under `skip` an account that stands in the table stays as it is.
insert_rows-keeps :
    (h : Text) (rows : List Row) (t : AccountTable) {a : Account}
    → find_hash h t.rows ≡ some a
    → find_hash h (insert_rows rows t).1.rows ≡ some a
unfolding insert_rows add_row
insert_rows-keeps h [] t e = e
insert_rows-keeps h (r ∷ rows) t e = elim (Bool-cases (is_some (find_hash r.email_hash t.rows))) [
  | inl old ↦ rw old (insert_rows-keeps h rows t e)
  | inr new ↦ rw new (
      insert_rows-keeps h rows (add_row r t)
        (rw (find_hash-append_one h t.rows (new_account t.next_id r)) (rw e)))
]

-- Where the database takes the statement, the numbers inserted and skipped add up to the rows.
upsert_accounts-counts :
    (refuses : List Row → Bool) (mode : DuplicateMode) (rows : List Row) (t : AccountTable)
    {inserted skipped : ℕ} {t' : AccountTable}
    → upsert_accounts refuses mode rows t ≡ ok (inserted, skipped, t')
    → inserted + skipped ≡ length rows
unfolding upsert_accounts
upsert_accounts-counts refuses mode [] t h = ground arith
upsert_accounts-counts refuses update (r ∷ rows) t h = ground arith
upsert_accounts-counts refuses skip (r ∷ rows) t h =
    ground (arith, (length-insert_rows (r ∷ rows) t).0)

-- An update that the database takes leaves each address as the last row of the statement that has
-- it, but for the id, the times of the last refreshes and checks, the expiry of the token and the
-- time of creation, which stay those of the account that stood there, if one did; where no row has
-- the address, it stays as it was.
pub upsert_accounts-Outcome :
    (refuses : List Row → Bool) (h : Text) (rows : List Row) (t : AccountTable)
    {inserted skipped : ℕ} {t' : AccountTable}
    → upsert_accounts refuses update rows t ≡ ok (inserted, skipped, t')
    → Outcome h t.rows t'.rows (last_with h rows)
unfolding upsert_accounts
upsert_accounts-Outcome refuses h [] t {t'} e =
    let same : t ≡ t' = ground arith in
    subst (λ (u : AccountTable). find_hash h u.rows ≡ find_hash h t.rows) same refl
upsert_accounts-Outcome refuses h (r ∷ rows) t {t'} e =
    let same : update_rows (r ∷ rows) t ≡ t' = ground arith in
    subst (λ (u : AccountTable). Outcome h t.rows u.rows (last_with h (r ∷ rows))) same
      (update_rows-Outcome h (r ∷ rows) t)

-- Under `skip` an account that stands in the table stays as it is, whatever the rows are.
pub upsert_accounts-keeps :
    (refuses : List Row → Bool) (h : Text) (rows : List Row) (t : AccountTable) (a : Account)
    {inserted skipped : ℕ} {t' : AccountTable}
    → upsert_accounts refuses skip rows t ≡ ok (inserted, skipped, t')
    → find_hash h t.rows ≡ some a
    → find_hash h t'.rows ≡ some a
unfolding upsert_accounts
upsert_accounts-keeps refuses h [] t a {t'} e found =
    let same : t ≡ t' = ground arith in
    subst (λ (u : AccountTable). find_hash h u.rows ≡ some a) same found
upsert_accounts-keeps refuses h (r ∷ rows) t a {t'} e found =
    let same : (insert_rows (r ∷ rows) t).1 ≡ t' = ground arith in
    subst (λ (u : AccountTable). find_hash h u.rows ≡ some a) same
      (insert_rows-keeps h (r ∷ rows) t found)
