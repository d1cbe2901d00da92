-- ===== src/Import/Upload/Lines.antt =====
-- How many lines the worker's reader finds in a file, and how many the routes count.
use token_loom.Prelude.{
  ℕ, zero, suc, ◌+◌, ◌≤◌, ◌<◌, ◌≡◌, refl, false, [], ◌∷◌, ◌++◌, if◌then◌else◌, is_empty, length,
  count_char, ends_with, arith,
}
use token_loom.Prelude.Utf8.{Bytes}
use token_loom.Import.Reader.{newline}
use token_loom.Import.Reader.Lines.{after_line}
use token_loom.Import.Upload.{open_end}

-- how many lines the reader finds in the rest of a file
unfoldable pub lines_read : ℕ → Bytes → ℕ
lines_read zero s = 0
lines_read (suc fuel) s =
    let rest = lines_read fuel (after_line s) in if is_empty s then 0 else suc rest

abbrev pub lines_of : Bytes → ℕ
lines_of s = count_char newline s + open_end s

open_end-cons : (c d : ℕ) (s : Bytes) → open_end (c ∷ d ∷ s) ≡ open_end (d ∷ s)
unfolding open_end ends_with
open_end-cons c d s = refl

lines_of-step :
    (c : ℕ) (s : Bytes)
    → (lines_of (c ∷ s) ≡ suc (lines_of (after_line (c ∷ s))))
      × (length (after_line (c ∷ s)) < length (c ∷ s))
unfolding count_char after_line
lines_of-step c [] = unfold open_end ends_with in ground arith
lines_of-step c (d ∷ s) = ground (arith, open_end-cons c d s, lines_of-step d s)

pub lines_read-eq-lines_of :
    (fuel : ℕ) (s : Bytes) → length s ≤ fuel → lines_read fuel s ≡ lines_of s
unfolding lines_read
lines_read-eq-lines_of zero [] h = unfold count_char open_end in refl
lines_read-eq-lines_of zero (c ∷ s) h = absurd (omega (arith, h))
lines_read-eq-lines_of (suc fuel) [] h = unfold count_char open_end in refl
lines_read-eq-lines_of (suc fuel) (c ∷ s) h =
    let step = lines_of-step c s in
    omega
      (arith, step.0, lines_read-eq-lines_of fuel (after_line (c ∷ s)) (omega (arith, step.1, h)))

pub count_char-append :
    (c : ℕ) (a b : Bytes) → count_char c (a ++ b) ≡ count_char c a + count_char c b
unfolding count_char
count_char-append c [] b = omega arith
count_char-append c (d ∷ a) b = ground (arith, count_char-append c a b)

ends_with-append :
    (c : ℕ) (a : Bytes) (d : ℕ) (b : Bytes) → ends_with c (a ++ d ∷ b) ≡ ends_with c (d ∷ b)
unfolding ends_with
ends_with-append c [] d b = refl
ends_with-append c (x ∷ []) d b = refl
ends_with-append c (x ∷ y ∷ a) d b = ends_with-append c (y ∷ a) d b

pub one_newline : count_char newline (newline ∷ []) ≡ 1
unfolding count_char
one_newline = refl

nonempty-append : (a : Bytes) (c : ℕ) (b : Bytes) → is_empty (a ++ c ∷ b) ≡ false
nonempty-append [] c b = refl
nonempty-append (x ∷ a) c b = refl

pub open_end-append :
    (a : Bytes) (c : ℕ) (b : Bytes)
    → open_end (a ++ c ∷ b) ≡ (if ends_with newline (c ∷ b) then 0 else 1)
unfolding open_end
open_end-append a c b = ground (arith, nonempty-append a c b, ends_with-append newline a c b)
