-- ===== src/Import/Reader/Lines.antt =====
-- `read_limited_line` against the plain cut of a file at its first newline.
use token_loom.Prelude.{
  ℕ, zero, suc, ◌+◌, ◌<◌, ◌≡◌, refl, sym, ap, ◌∙◌, true, false, some, [], ◌∷◌, ◌++◌, ltb, ◌==◌,
  if◌then◌else◌, is_empty, length, ends_with, arith, Bool-cases, inl, inr, min, is_empty-eq_true,
}
use token_loom.Prelude.Utf8.{Bytes}
use token_loom.Import.Reader.{newline, readline, drain, blank_long, read_limited_line}

-- The first line with its newline, or all that is left.
unfoldable pub first_line : Bytes → Bytes
first_line [] = []
first_line (c ∷ s) = if c == newline then c ∷ [] else c ∷ first_line s

-- What is behind the first line.
unfoldable pub after_line : Bytes → Bytes
after_line [] = []
after_line (c ∷ s) = if c == newline then s else after_line s

pub first-append-after : (s : Bytes) → first_line s ++ after_line s ≡ s
unfolding first_line after_line
first-append-after [] = refl
first-append-after (c ∷ s) = elim (Bool-cases (c == newline)) [
  | inl e ↦ rw e
  | inr e ↦ rw e (rw (first-append-after s))
]

ends_with-cons :
    (c : ℕ) (a : Bytes) → (c == newline) ≡ false → ends_with newline (c ∷ a) ≡ ends_with newline a
unfolding ends_with
ends_with-cons c [] h = h
ends_with-cons c (x ∷ a) h = refl

length-readline : (n : ℕ) (s : Bytes) → length (readline n s).0 ≡ min n (length (first_line s))
unfolding readline first_line
length-readline zero s = omega arith
length-readline (suc n) [] = omega arith
length-readline (suc n) (c ∷ s) = ground (arith, length-readline n s)

readline-short :
    (n : ℕ) (s : Bytes)
    → length (first_line s) < n
    → ((readline n s).0 ≡ first_line s) × ((readline n s).1 ≡ after_line s)
unfolding readline first_line after_line
readline-short zero s h = elim h [ ]
readline-short (suc n) [] h = (refl, refl)
readline-short (suc n) (c ∷ s) h = ground (arith, readline-short n s)

readline-after :
    (n : ℕ) (s : Bytes)
    → (if ends_with newline (readline n s).0 then (readline n s).1 else after_line (readline n s).1)
      ≡ after_line s
unfolding readline after_line
readline-after zero s = unfold ends_with in refl
readline-after (suc n) [] = unfold ends_with in refl
readline-after (suc n) (c ∷ s) = elim (Bool-cases (c == newline)) [
  | inl e ↦ rw e (unfold ends_with in rw e)
  | inr e ↦ rw e (rw (ends_with-cons c (readline n s).0 e) (readline-after n s))
]

length-readline_rest :
    (n : ℕ) (s : Bytes) → length (readline n s).0 + length (readline n s).1 ≡ length s
unfolding readline
length-readline_rest zero s = omega arith
length-readline_rest (suc n) [] = omega arith
length-readline_rest (suc n) (c ∷ s) = ground (arith, length-readline_rest n s)

after-open : (s : Bytes) → ends_with newline (first_line s) ≡ false → after_line s ≡ []
unfolding first_line after_line
after-open [] h = refl
after-open (c ∷ s) h = elim (Bool-cases (c == newline)) [
  | inl e ↦ unfold ends_with in cc (rw e at h, e)
  | inr e ↦ rw e (after-open s (sym (ends_with-cons c (first_line s) e) ∙ rw e at h))
]

chunk-empty : (n : ℕ) (s : Bytes) → is_empty (readline (suc n) s).0 ≡ true → s ≡ []
unfolding readline
chunk-empty n [] h = refl
chunk-empty n (c ∷ s) h = ground arith

length-pos : (s : Bytes) → is_empty s ≡ false → 0 < length s
length-pos [] h = cc
length-pos (c ∷ s) h = omega arith

-- A line that is too long is drained to its end.
drain-long :
    (fuel limit : ℕ) (raw s : Bytes)
    → length s < fuel
    → is_empty raw ≡ false
    → blank_long (drain fuel limit raw true s)
      ≡ some (record {
        raw = [];
        too_long = true;
        rest = if ends_with newline raw then s else after_line s;
      })
unfolding drain blank_long
drain-long zero limit raw s h ne = elim h [ ]
drain-long (suc fuel) limit raw s h ne =
    let chunk = (readline (suc limit) s).0 in
    let s' = (readline (suc limit) s).1 in
    elim (Bool-cases (ends_with newline raw)) [
      | inl e ↦ rw (ne, e)
      | inr e ↦ elim (Bool-cases (is_empty chunk)) [
        | inl stop ↦ rw (ne, e, stop) (rw (chunk-empty limit s stop) (unfold after_line in refl))
        | inr go ↦
            let smaller : length s' < fuel =
              omega (arith, length-readline_rest (suc limit) s, length-pos chunk go) in
            rw (ne, e, go)
              (drain-long fuel limit chunk s' smaller go
                ∙ ap (λ (t : Bytes). some (record { raw = []; too_long = true; rest = t }))
                    (readline-after (suc limit) s))
      ]
    ]

drain-short :
    (fuel limit : ℕ) (s : Bytes)
    → drain (suc fuel) limit (first_line s) false (after_line s)
      ≡ some (record { raw = first_line s; too_long = false; rest = after_line s })
unfolding drain
drain-short fuel limit s = elim (Bool-cases (ends_with newline (first_line s))) [
  | inl e ↦ ground arith
  | inr e ↦ rw (after-open s e) (unfold readline in ground arith)
]

-- a first chunk of a line that is too long
long_chunk :
    (limit : ℕ) (s : Bytes)
    → ltb limit (length (first_line s)) ≡ true
    → (is_empty (readline (suc limit) s).0 ≡ false)
      × (ltb limit (length (readline (suc limit) s).0) ≡ true)
long_chunk limit s h =
    let n = length-readline (suc limit) s in
    (is_empty_of_pos (readline (suc limit) s).0 (ground arith), ground arith)
  where
    is_empty_of_pos : (t : Bytes) → 0 < length t → is_empty t ≡ false
    is_empty_of_pos [] q = elim q [ ]
    is_empty_of_pos (c ∷ t) q = refl

-- The reader always returns: the first line, or nothing of it and the mark where it is longer than
-- the limit. It stands behind that line.
pub read_limited_line_lem :
    (limit : ℕ) (s : Bytes)
    → read_limited_line limit s
      ≡ some (
          if ltb limit (length (first_line s))
          then record { raw = []; too_long = true; rest = after_line s }
          else record { raw = first_line s; too_long = false; rest = after_line s })
unfolding read_limited_line
read_limited_line_lem limit s =
    let chunk = (readline (suc limit) s).0 in
    let s' = (readline (suc limit) s).1 in
    elim (Bool-cases (ltb limit (length (first_line s)))) [
      | inl e ↦
          let (ne, long) = long_chunk limit s e in
          rw (ne, long, e)
            (drain-long (suc (length s')) limit chunk s' (omega arith) ne
              ∙ ap (λ (t : Bytes). some (record { raw = []; too_long = true; rest = t }))
                  (readline-after (suc limit) s))
      | inr e ↦
          let (raw, rest) = readline-short (suc limit) s (ground arith) in
          rw (raw, rest, e)
            (rw (drain-short (length (after_line s)) limit s)
              (ground (arith, is_empty-eq_true (first_line s))))
    ]
