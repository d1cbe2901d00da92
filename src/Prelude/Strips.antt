-- ===== src/Prelude/Strips.antt =====
-- Laws of stripping and of prefixes.
use Prim.Native.Nat.{ℕ, ◌≤◌}
use mathlib.Core.Path.{◌≡◌, refl, ap}
use mathlib.Core.Logic.{inl, inr, ◌≢◌}
use mathlib.Core.Bool.{Bool, false}
use mathlib.Core.List.{[], ◌∷◌, ◌++◌}
use native.Mathlib.Omega.{arith}
use token_loom.Prelude.Tests.{Bool-cases}
use token_loom.Prelude.Lists.{length}
use token_loom.Prelude.Texts.{
  Text, is_space, lstrip_by, rstrip_before, rstrip_by, strip, starts_with,
}

pub starts_with-append :
    (p y r : Text) → length p ≤ length y → starts_with p (y ++ r) ≡ starts_with p y
unfolding starts_with
starts_with-append [] y r h = refl
starts_with-append (x ∷ p) [] r h = absurd (omega arith)
starts_with-append (x ∷ p) (c ∷ y) r h = rw (starts_with-append p y r (omega arith))

module _ (p : ℕ → Bool) where
  length-lstrip_by : (s : Text) → length (lstrip_by p s) ≤ length s
  unfolding lstrip_by
  length-lstrip_by [] = omega arith
  length-lstrip_by (c ∷ s) = ground (arith, length-lstrip_by s)

  length-rstrip_by : (s : Text) → length (rstrip_by p s) ≤ length s
  unfolding rstrip_by
  length-rstrip_by [] = omega arith
  length-rstrip_by (c ∷ s) = ground (arith, length-rstrip_by s)

  rstrip_before-nonempty : (c : ℕ) (s : Text) → s ≢ [] → rstrip_before p c s ≡ c ∷ s
  unfolding rstrip_before
  rstrip_before-nonempty c [] h = absurd (h refl)
  rstrip_before-nonempty c (d ∷ s) h = refl

  pub rstrip_by-append : (a b : Text) → b ≢ [] → rstrip_by p b ≡ b → rstrip_by p (a ++ b) ≡ a ++ b
  unfolding rstrip_by
  rstrip_by-append [] b ne h = h
  rstrip_by-append (c ∷ a) b ne h =
      rw (rstrip_by-append a b ne h) (rstrip_before-nonempty c (a ++ b) (append-ne a b ne))
    where
      append-ne : (x y : Text) → y ≢ [] → x ++ y ≢ []
      append-ne [] y q e = q e
      append-ne (z ∷ x) y q e = cc e

-- What strips to itself begins with no space, and ends with none.
pub strip_head : (c : ℕ) (s : Text) → strip (c ∷ s) ≡ c ∷ s → is_space c ≡ false
unfolding strip lstrip_by
strip_head c s h = elim (Bool-cases (is_space c)) [
  | inl e ↦ absurd (
      omega (
        arith,
        ap length (rw e at h),
        length-rstrip_by is_space (lstrip_by is_space s),
        length-lstrip_by is_space s,
      ))
  | inr e ↦ e
]

pub rstrip-strip : (s : Text) → strip s ≡ s → rstrip_by is_space s ≡ s
unfolding strip lstrip_by
rstrip-strip [] h = h
rstrip-strip (c ∷ s) h = rw (strip_head c s h) at h

-- A text that begins and ends with stripped parts strips to itself.
pub strip-append :
    (c : ℕ) (a b t : Text)
    → strip (c ∷ a) ≡ c ∷ a
    → strip t ≡ t
    → t ≢ []
    → strip (c ∷ b ++ t) ≡ c ∷ b ++ t
unfolding strip lstrip_by
strip-append c a b t h k ne =
    rw (strip_head c a h) (rstrip_by-append is_space (c ∷ b) t ne (rstrip-strip t k))
