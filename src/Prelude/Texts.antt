-- ===== src/Prelude/Texts.antt =====
-- Texts as lists of code points, and what the program uses of Python's `str` and `bytes`.
use Prim.Native.Nat.{ℕ, ◌+◌}
use Prim.Native.Char.{code}
use Prim.Native.String.{String}
use mathlib.Core.Path.{◌≡◌, refl}
use mathlib.Core.Logic.{◌↔◌}
use mathlib.Core.Bool.{Bool, true, false, ◌&&◌, ◌||◌}
use mathlib.Core.Option.{Option, none, some}
use mathlib.Core.List.{List, [], ◌∷◌}
use native.Mathlib.Omega.{arith}
use token_loom.Prelude.Tests.{leb, ◌==◌, if◌then◌else◌}

abbrev pub Text : Type 0
Text = List ℕ

-- The code points of a literal. `String` has its own `[]` and `∷`.
abbrev pub codes : String → Text
codes String.[] = []
codes (String.◌∷◌ c s) = code c ∷ codes s

-- `a == b` on texts
unfoldable pub text_eq : Text → Text → Bool
text_eq [] [] = true
text_eq [] (y ∷ ys) = false
text_eq (x ∷ xs) [] = false
text_eq (x ∷ xs) (y ∷ ys) = x == y && text_eq xs ys

pub text_eq_iff : (a b : Text) → (text_eq a b ≡ true) ↔ (a ≡ b)
unfolding text_eq
text_eq_iff [] [] = ground arith
text_eq_iff [] (y ∷ ys) = ground arith
text_eq_iff (x ∷ xs) [] = ground arith
text_eq_iff (x ∷ xs) (y ∷ ys) = ground (arith, text_eq_iff xs ys)

pub text_eq_refl : (a : Text) → text_eq a a ≡ true
text_eq_refl a = (text_eq_iff a a).1 refl

-- `str.isspace` of one character, which is also what `\s` matches
unfoldable pub is_space : ℕ → Bool
is_space c =
    (leb 9 c && leb c 13)
    || (leb 28 c && leb c 32)
    || c == 0x85
    || c == 0xa0
    || c == 0x1680
    || (leb 0x2000 c && leb c 0x200a)
    || c == 0x2028
    || c == 0x2029
    || c == 0x202f
    || c == 0x205f
    || c == 0x3000

-- `lstrip` of the characters that pass a test
unfoldable pub lstrip_by : (ℕ → Bool) → Text → Text
lstrip_by p [] = []
lstrip_by p (c ∷ s) = if p c then lstrip_by p s else c ∷ s

unfoldable pub rstrip_before : (ℕ → Bool) → ℕ → Text → Text
rstrip_before p c [] = if p c then [] else c ∷ []
rstrip_before p c (d ∷ r) = c ∷ d ∷ r

unfoldable pub rstrip_by : (ℕ → Bool) → Text → Text
unfolding rstrip_before
rstrip_by p [] = []
rstrip_by p (c ∷ s) = rstrip_before p c (rstrip_by p s)

-- `s.strip()`
unfoldable pub strip : Text → Text
unfolding lstrip_by rstrip_by
strip s = rstrip_by is_space (lstrip_by is_space s)

-- `s.startswith(p)`
unfoldable pub starts_with : Text → Text → Bool
starts_with [] s = true
starts_with (x ∷ p) [] = false
starts_with (x ∷ p) (y ∷ s) = x == y && starts_with p s

-- `c in s` for a character
unfoldable pub has_char : ℕ → Text → Bool
has_char c [] = false
has_char c (d ∷ s) = d == c || has_char c s

-- `s.endswith(c)` for a character
unfoldable pub ends_with : ℕ → Text → Bool
ends_with c [] = false
ends_with c (d ∷ []) = d == c
ends_with c (d ∷ e ∷ s) = ends_with c (e ∷ s)

-- `s.count(c)` for a character
unfoldable pub count_char : ℕ → Text → ℕ
count_char c [] = 0
count_char c (d ∷ s) = let n = count_char c s in if d == c then n + 1 else n

unfoldable pub cut_before : ℕ → Option (Text × Text) → Option (Text × Text)
cut_before d none = none
cut_before d (some (a, b)) = some (d ∷ a, b)

-- `s.split(c, 1)`: what stands before the first `c` and behind it; `none` where there is no `c`
unfoldable pub cut : ℕ → Text → Option (Text × Text)
unfolding cut_before
cut c [] = none
cut c (d ∷ s) = if d == c then some ([], s) else cut_before d (cut c s)

unfoldable pub rcut_before : ℕ → ℕ → Text → Option (Text × Text) → Option (Text × Text)
rcut_before c d s none = if d == c then some ([], s) else none
rcut_before c d s (some (a, b)) = some (d ∷ a, b)

-- `s.rsplit(c, 1)`: what stands before the last `c` and behind it
unfoldable pub rcut : ℕ → Text → Option (Text × Text)
unfolding rcut_before
rcut c [] = none
rcut c (d ∷ s) = rcut_before c d s (rcut c s)
