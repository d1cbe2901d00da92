-- ===== src/Prelude/Cuts.antt =====
-- Laws of the cuts of a text at a character, and of stripping.
use Prim.Native.Nat.{ℕ}
use mathlib.Core.Path.{◌≡◌, refl}
use mathlib.Core.Bool.{false}
use mathlib.Core.Option.{none, some}
use mathlib.Core.List.{[], ◌∷◌, ◌++◌}
use native.Mathlib.Omega.{arith}
use token_loom.Prelude.Texts.{Text, has_char, cut, rcut}

module _ (c : ℕ) where
  pub rcut-absent : (s : Text) → has_char c s ≡ false → rcut c s ≡ none
  unfolding has_char rcut
  rcut-absent [] h = refl
  rcut-absent (d ∷ s) h = ground (arith, rcut-absent s)

  pub rcut-eq_none : (s : Text) → rcut c s ≡ none → has_char c s ≡ false
  unfolding rcut has_char
  rcut-eq_none [] h = refl
  rcut-eq_none (d ∷ s) h = ground (arith, rcut-eq_none s)

  pub rcut-append : (a b : Text) → has_char c b ≡ false → rcut c (a ++ c ∷ b) ≡ some (a, b)
  unfolding rcut
  rcut-append [] b h = rw (rcut-absent b h) (ground arith)
  rcut-append (d ∷ a) b h = rw (rcut-append a b h)

  pub cut-append : (a b : Text) → has_char c a ≡ false → cut c (a ++ c ∷ b) ≡ some (a, b)
  unfolding cut has_char
  cut-append [] b h = ground arith
  cut-append (d ∷ a) b h = ground (arith, cut-append a b)

  pub cut-eq_some :
      (s : Text) (a b : Text) → cut c s ≡ some (a, b) → (s ≡ a ++ c ∷ b) × (has_char c a ≡ false)
  unfolding cut has_char
  cut-eq_some [] a b h = cc
  cut-eq_some (d ∷ s) [] b h = ground arith
  cut-eq_some (d ∷ s) (x ∷ a) b h = ground (arith, cut-eq_some s a b)

  pub cut-eq_none : (s : Text) → cut c s ≡ none → has_char c s ≡ false
  unfolding cut has_char
  cut-eq_none [] h = refl
  cut-eq_none (d ∷ s) h = ground (arith, cut-eq_none s)

  pub rcut-eq_some :
      (s : Text) (a b : Text) → rcut c s ≡ some (a, b) → (s ≡ a ++ c ∷ b) × (has_char c b ≡ false)
  unfolding rcut has_char
  rcut-eq_some [] a b h = cc
  rcut-eq_some (d ∷ s) [] b h = ground (arith, rcut-eq_none s)
  rcut-eq_some (d ∷ s) (x ∷ a) b h = ground (arith, rcut-eq_some s a b)
