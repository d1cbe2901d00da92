-- ===== src/Prelude/Paging.antt =====
-- Reading rows in pages by a growing key: `WHERE key > cursor AND … ORDER BY key LIMIT n`. Rows
-- stand by growing key, as the database returns them.
use Prim.Native.Nat.{ℕ, zero, suc, ◌≤◌, ◌<◌}
use mathlib.Core.Path.{◌≡◌, refl, sym, ◌∙◌}
use mathlib.Core.Logic.{inl, inr}
use mathlib.Core.Bool.{Bool, true, false, ◌&&◌}
use mathlib.Core.List.{List, [], ◌∷◌}
use native.Mathlib.Omega.{arith}
use token_loom.Prelude.Tests.{ltb, Bool-cases}
use token_loom.Prelude.Lists.{take, drop, filter}

module _ {ℓ} {A : Type ℓ} (key : A → ℕ) where
  -- Every key is above the bound, and the keys grow.
  abbrev pub IsGrowing : ℕ → List A → Type 0
  IsGrowing low [] = Unit
  IsGrowing low (a ∷ rows) = (low < key a) × IsGrowing (key a) rows

  -- the rows behind a cursor that pass the test
  unfoldable pub behind : (A → Bool) → ℕ → List A → List A
  behind p cursor rows = filter (λ a. ltb cursor (key a) && p a) rows

  -- the key of the last row, or the cursor where there is none
  unfoldable pub last_key : ℕ → List A → ℕ
  last_key cursor [] = cursor
  last_key cursor (a ∷ rows) = last_key (key a) rows

  pub lower-IsGrowing :
      (low high : ℕ) (rows : List A) → low ≤ high → IsGrowing high rows → IsGrowing low rows
  lower-IsGrowing low high [] le h = tt
  lower-IsGrowing low high (a ∷ rows) le h = (omega arith, h.1)

  pub filter-IsGrowing :
      (p : A → Bool) (low : ℕ) (rows : List A) → IsGrowing low rows → IsGrowing low (filter p rows)
  filter-IsGrowing p low [] h = tt
  filter-IsGrowing p low (a ∷ rows) h = elim (Bool-cases (p a)) [
    | inl e ↦ rw e (h.0, filter-IsGrowing p (key a) rows h.1)
    | inr e ↦
        rw e (filter-IsGrowing p low rows (lower-IsGrowing low (key a) rows (omega arith) h.1))
  ]

  pub take-IsGrowing :
      (n low : ℕ) (rows : List A) → IsGrowing low rows → IsGrowing low (take n rows)
  take-IsGrowing zero low rows h = tt
  take-IsGrowing (suc n) low [] h = tt
  take-IsGrowing (suc n) low (a ∷ rows) h = (h.0, take-IsGrowing n (key a) rows h.1)

  pub last_key-ge : (low : ℕ) (rows : List A) → IsGrowing low rows → low ≤ last_key low rows
  unfolding last_key
  last_key-ge low [] h = omega arith
  last_key-ge low (a ∷ rows) h = omega (arith, h.0, last_key-ge (key a) rows h.1)

  -- Rows whose keys lie above the cursor all stand behind it.
  behind-above :
      (p : A → Bool) (cursor low : ℕ) (rows : List A)
      → cursor ≤ low
      → IsGrowing low rows
      → behind p cursor rows ≡ filter p rows
  unfolding behind
  behind-above p cursor low [] le h = refl
  behind-above p cursor low (a ∷ rows) le h = ground (arith, behind-above p cursor (key a) rows)

  pub behind-IsGrowing :
      (p : A → Bool) (low cursor : ℕ) (rows : List A)
      → IsGrowing low rows
      → IsGrowing cursor (behind p cursor rows)
  unfolding behind
  behind-IsGrowing p low cursor [] h = tt
  behind-IsGrowing p low cursor (a ∷ rows) h = elim (Bool-cases (ltb cursor (key a) && p a)) [
    | inl e ↦
        rw e (ground arith, filter-IsGrowing (λ b. ltb cursor (key b) && p b) (key a) rows h.1)
    | inr e ↦ rw e (behind-IsGrowing p (key a) cursor rows h.1)
  ]

  -- one row that the cursor or the test leaves out
  behind-skip :
      (p : A → Bool) (cursor : ℕ) (a : A) (rows : List A)
      → (ltb cursor (key a) && p a) ≡ false
      → behind p cursor (a ∷ rows) ≡ behind p cursor rows
  unfolding behind
  behind-skip p cursor a rows e = rw e

  behind-take :
      (p : A → Bool) (cursor : ℕ) (a : A) (rows : List A)
      → (ltb cursor (key a) && p a) ≡ true
      → behind p cursor (a ∷ rows) ≡ a ∷ behind p cursor rows
  unfolding behind
  behind-take p cursor a rows e = rw e

  -- The rows behind the last key of a page are what the page has left of the rows.
  pub behind-last_key :
      (p : A → Bool) (n low cursor : ℕ) (rows : List A)
      → IsGrowing low rows
      → behind p (last_key cursor (take n (behind p cursor rows))) rows
        ≡ drop n (behind p cursor rows)
  unfolding last_key
  behind-last_key p zero low cursor rows h = refl
  behind-last_key p (suc n) low cursor [] h = unfold behind in refl
  behind-last_key p (suc n) low cursor (a ∷ rows) h =
      elim (Bool-cases (ltb cursor (key a) && p a)) [
        | inl e ↦
            let same : behind p cursor rows ≡ behind p (key a) rows =
              behind-above p cursor (key a) rows (ground arith) h.1
              ∙ sym (behind-above p (key a) (key a) rows (omega arith) h.1) in
            let page = take n (behind p (key a) rows) in
            let low_end = last_key-ge (key a) page (
              take-IsGrowing n (key a) (behind p (key a) rows)
                (behind-IsGrowing p (key a) (key a) rows h.1)) in
            rw (behind-take p cursor a rows e, same)
              (behind-skip p (last_key (key a) page) a rows (ground arith)
                ∙ behind-last_key p n (key a) (key a) rows h.1)
        | inr e ↦
            let page = take (suc n) (behind p cursor rows) in
            let low_end = last_key-ge cursor page (
              take-IsGrowing (suc n) cursor (behind p cursor rows)
                (behind-IsGrowing p (key a) cursor rows h.1)) in
            rw (behind-skip p cursor a rows e) (
              behind-skip p (last_key cursor page) a rows (ground arith)
              ∙ behind-last_key p (suc n) (key a) cursor rows h.1)
      ]
