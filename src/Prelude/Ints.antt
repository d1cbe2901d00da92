-- ===== src/Prelude/Ints.antt =====
-- Python's integers, and `sorted` on a set of them.
use Prim.Native.Nat.{ℕ, ◌+◌, ◌≤◌}
use mathlib.Core.Path.{◌≡◌, refl}
use mathlib.Core.Bool.{Bool, true, false, ◌||◌}
use mathlib.Core.List.{List, [], ◌∷◌}
use native.Mathlib.Omega.{arith}
use token_loom.Prelude.Tests.{ltb, ◌==◌, if◌then◌else◌}
use token_loom.Prelude.Lists.{length, any}

-- `negsuc n` is -(n + 1)
pub data ℤ : Type 0 where
  pos negsuc : ℕ → ℤ

unfoldable pub int_ltb : ℤ → ℤ → Bool
int_ltb (pos a) (pos b) = ltb a b
int_ltb (pos a) (negsuc b) = false
int_ltb (negsuc a) (pos b) = true
int_ltb (negsuc a) (negsuc b) = ltb b a

-- the integer is that natural number
unfoldable pub is_nat : ℤ → ℕ → Bool
is_nat (pos a) n = a == n
is_nat (negsuc a) n = false

-- into a list by growing value, once
unfoldable pub insert_once : ℤ → List ℤ → List ℤ
insert_once k [] = k ∷ []
insert_once k (j ∷ ks) =
    let rest = insert_once k ks in
    if int_ltb k j then k ∷ j ∷ ks else if int_ltb j k then j ∷ rest else j ∷ ks

-- `sorted({…})`
unfoldable pub sorted_set : List ℤ → List ℤ
sorted_set [] = []
sorted_set (k ∷ ks) = insert_once k (sorted_set ks)

int_eq_of : (k j : ℤ) (n : ℕ) → int_ltb k j ≡ false → int_ltb j k ≡ false → is_nat k n ≡ is_nat j n
unfolding int_ltb is_nat
int_eq_of (pos a) (pos b) n e f = ground arith
int_eq_of (pos a) (negsuc b) n e f = cc
int_eq_of (negsuc a) (pos b) n e f = cc
int_eq_of (negsuc a) (negsuc b) n e f = refl

any-insert_once :
    (n : ℕ) (k : ℤ) (ks : List ℤ)
    → any (λ j. is_nat j n) (insert_once k ks) ≡ (is_nat k n || any (λ j. is_nat j n) ks)
unfolding insert_once
any-insert_once n k [] = refl
any-insert_once n k (j ∷ ks) = ground (arith, int_eq_of k j n, any-insert_once n k ks)

-- The sorted set holds the numbers of the list.
pub any-sorted_set :
    (n : ℕ) (ks : List ℤ) → any (λ j. is_nat j n) (sorted_set ks) ≡ any (λ j. is_nat j n) ks
unfolding sorted_set
any-sorted_set n [] = refl
any-sorted_set n (k ∷ ks) = ground (arith, any-insert_once n k (sorted_set ks), any-sorted_set n ks)

length-insert_once : (k : ℤ) (ks : List ℤ) → length (insert_once k ks) ≤ length ks + 1
unfolding insert_once
length-insert_once k [] = omega arith
length-insert_once k (j ∷ ks) = ground (arith, length-insert_once k ks)
