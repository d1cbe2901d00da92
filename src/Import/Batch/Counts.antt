-- ===== src/Import/Batch/Counts.antt =====
-- The counters and the position of an import batch of app/worker.py.
use token_loom.Prelude.{
  ℕ, zero, suc, ◌+◌, ◌-◌, ◌≤◌, ◌<◌, ◌≡◌, ◌⊎◌, refl, sym, ap, ◌∙◌, Bool, true, false, ◌&&◌, ◌||◌,
  Option, some, List, [], ◌∷◌, ltb, ◌==◌, if◌then◌else◌, is_empty, length, drop, Text, arith, inl,
  inr, Bool-cases, length-append, drop-append, is_empty-eq_true, if_true, if_false,
}
use token_loom.Prelude.Utf8.{Bytes}
use mathlib.Core.Path.{subst}
use token_loom.Records.{Job}
use token_loom.Import.Reader.{LineRead, read_limited_line}
use token_loom.Import.Reader.Lines.{
  first_line, after_line, first-append-after, read_limited_line_lem,
}
use token_loom.Import.Batch.{
  Fault, Batch, add_error, LineOutcome, account, blank, fault, line_outcome, count_line, step_read,
  read_batch, start_batch, finish_import, line_too_long,
}

-- The batch stands where its position says, has counted every parsed and every failed line, and
-- holds no more than five errors.
pub record IsCounted (content : Bytes) (b : Batch) : Type 0 where
  pub placed : b.rest ≡ drop b.pos content
  pub counted : length b.parsed + b.failed ≤ b.processed
  pub listed : length b.errors ≤ 5

pub start_batch-IsCounted :
    (offset : ℕ) (content : Bytes) → IsCounted content (start_batch offset content)
unfolding start_batch
start_batch-IsCounted offset content = record {
  placed = refl;
  counted = omega arith;
  listed = omega arith;
}

length-add_error :
    (errors : List (ℕ × Fault)) (line : ℕ) (f : Fault)
    → length errors ≤ 5
    → length (add_error errors line f) ≤ 5
unfolding add_error
length-add_error errors line f h = ground (arith, length-append errors ((line, f) ∷ []))

count_line-IsCounted :
    (content : Bytes) (base : ℕ) (o : LineOutcome) (b : Batch)
    → IsCounted content b
    → IsCounted content (count_line base o b)
unfolding count_line
count_line-IsCounted content base (account a) b h = record {
  placed = h.placed;
  counted = omega (arith, h.counted, length-append b.parsed (a ∷ []));
  listed = h.listed;
}
count_line-IsCounted content base blank b h = record {
  placed = h.placed;
  counted = omega (arith, h.counted);
  listed = h.listed;
}
count_line-IsCounted content base (fault f) b h = record {
  placed = h.placed;
  counted = omega (arith, h.counted);
  listed = length-add_error b.errors (base + suc b.processed) f h.listed;
}

eof-count_line : (base : ℕ) (o : LineOutcome) (b : Batch) → (count_line base o b).eof ≡ b.eof
unfolding count_line
eof-count_line base (account a) b = refl
eof-count_line base blank b = refl
eof-count_line base (fault f) b = refl

rest-count_line : (base : ℕ) (o : LineOutcome) (b : Batch) → (count_line base o b).rest ≡ b.rest
unfolding count_line
rest-count_line base (account a) b = refl
rest-count_line base blank b = refl
rest-count_line base (fault f) b = refl

drop-nil : (n : ℕ) → drop {A = ℕ} n [] ≡ []
drop-nil zero = refl
drop-nil (suc n) = refl

drop-drop : (m n : ℕ) (s : Bytes) → drop m (drop n s) ≡ drop (n + m) s
drop-drop m zero s = ap (λ (k : ℕ). drop k s) (omega arith)
drop-drop m (suc n) [] = drop-nil m ∙ sym (drop-nil (suc n + m))
drop-drop m (suc n) (x ∷ s) =
    let e : suc n + m ≡ suc (n + m) = omega arith in rw e (drop-drop m n s)

after-eq-drop : (s : Bytes) → after_line s ≡ drop (length s - length (after_line s)) s
after-eq-drop s =
    let whole = first-append-after s in
    let k = length s - length (after_line s) in
    let n : length (first_line s) ≡ k =
      omega (arith, ap length whole, length-append (first_line s) (after_line s)) in
    sym (drop-append k (first_line s) (after_line s) n) ∙ ap (drop k) whole

length-after : (s : Bytes) → length (after_line s) ≤ length s
length-after s =
    omega (arith, ap length (first-append-after s), length-append (first_line s) (after_line s))

-- the read of one line, by the reader's law
line_read : ℕ → Bytes → LineRead
line_read limit s =
    if ltb limit (length (first_line s))
    then record { raw = []; too_long = true; rest = after_line s }
    else record { raw = first_line s; too_long = false; rest = after_line s }

read-line_read : (limit : ℕ) (s : Bytes) → read_limited_line limit s ≡ some (line_read limit s)
unfolding line_read
read-line_read limit s = read_limited_line_lem limit s

rest-line_read : (limit : ℕ) (s : Bytes) → (line_read limit s).rest ≡ after_line s
unfolding line_read
rest-line_read limit s = ground arith

if-IsCounted :
    (content : Bytes) (t : Bool) (x y : Batch)
    → IsCounted content x
    → IsCounted content y
    → IsCounted content (if t then x else y)
if-IsCounted content true x y hx hy = hx
if-IsCounted content false x y hx hy = hy

first_line-nonempty :
    (s : Bytes) → is_empty (first_line s) ≡ false → length (after_line s) < length s
first_line-nonempty s h =
    let n = length-append (first_line s) (after_line s) in
    omega (arith, ap length (first-append-after s), n, pos_of (first_line s) h)
  where
    pos_of : (t : Bytes) → is_empty t ≡ false → 0 < length t
    pos_of [] q = cc
    pos_of (c ∷ t) q = omega arith

line_read-progress :
    (limit : ℕ) (s : Bytes)
    → ((line_read limit s).too_long ≡ true) ⊎ (is_empty (line_read limit s).raw ≡ false)
    → length (line_read limit s).rest < length s
unfolding line_read
line_read-progress limit s h =
    let shorter = first_line-nonempty s in
    elim (Bool-cases (is_empty (first_line s))) [
      | inl e ↦ ground (arith, is_empty-eq_true (first_line s) e, e)
      | inr e ↦ ground (arith, shorter e)
    ]

-- the batch has met the end of the file, where nothing is left of it
abbrev IsAtEnd : Batch → Type 0
IsAtEnd b = (b.eof ≡ true) × (b.rest ≡ [])

-- the batch has met the end of the file, or has less than n bytes to read and did not meet it
abbrev Progress : ℕ → Batch → Type 0
Progress n b = IsAtEnd b ⊎ ((b.eof ≡ false) × (length b.rest < n))

if-Progress :
    (n : ℕ) (t : Bool) (x y : Batch)
    → (t ≡ true → Progress n x)
    → (t ≡ false → Progress n y)
    → Progress n (if t then x else y)
if-Progress n true x y hx hy = hx refl
if-Progress n false x y hx hy = hy refl

count_line-Progress :
    (n base : ℕ) (o : LineOutcome) (b : Batch)
    → b.eof ≡ false
    → length b.rest < n
    → Progress n (count_line base o b)
count_line-Progress n base o b e h = inr (
  eof-count_line base o b ∙ e,
  subst (λ (s : Bytes). length s < n) (sym (rest-count_line base o b)) h,
)

-- A line that is neither too long nor has a byte is the end of the file.
line_read-end :
    (limit : ℕ) (s : Bytes)
    → (line_read limit s).too_long ≡ false
    → is_empty (line_read limit s).raw ≡ true
    → (line_read limit s).rest ≡ []
unfolding line_read first_line after_line
line_read-end limit [] short e = ground arith
line_read-end limit (c ∷ s) short e = ground (arith, short, e)

module _ (lower : Text → Text) (limit offset base : ℕ) (content : Bytes) where
  moved-IsCounted :
      (r : LineRead) (b : Batch)
      → r.rest ≡ after_line b.rest
      → IsCounted content b
      → IsCounted content
          (record b { pos = b.pos + (length b.rest - length r.rest); rest = r.rest })
  moved-IsCounted r b e h =
      let k = length b.rest - length (after_line b.rest) in
      record {
        placed = rw e (after-eq-drop b.rest ∙ ap (drop k) h.placed ∙ drop-drop k b.pos content);
        counted = h.counted;
        listed = h.listed;
      }

  step_read-IsCounted :
      (r : LineRead) (b : Batch)
      → r.rest ≡ after_line b.rest
      → IsCounted content b
      → IsCounted content (step_read lower limit offset base r b)
  unfolding step_read
  step_read-IsCounted r b e h =
      let moved = record b { pos = b.pos + (length b.rest - length r.rest); rest = r.rest } in
      let good = moved-IsCounted r b e h in
      if-IsCounted content r.too_long _ _
        (count_line-IsCounted content base (fault line_too_long) moved good)
        (if-IsCounted content (is_empty r.raw) _ _
          (record { placed = good.placed; counted = good.counted; listed = good.listed })
          (count_line-IsCounted content base
            (line_outcome lower (offset == 0 && b.processed == 0) r.raw) moved good))

  step_read-Progress :
      (b : Batch)
      → b.eof ≡ false
      → Progress (length b.rest) (step_read lower limit offset base (line_read limit b.rest) b)
  unfolding step_read
  step_read-Progress b unended =
      let r = line_read limit b.rest in
      let moved = record b { pos = b.pos + (length b.rest - length r.rest); rest = r.rest } in
      let shorter = line_read-progress limit b.rest in
      if-Progress (length b.rest) r.too_long _ _
        (λ e.
          count_line-Progress (length b.rest) base (fault line_too_long) moved unended
            (shorter (inl e)))
        (λ short.
          if-Progress (length b.rest) (is_empty r.raw) _ _
            (λ e. inl (refl, line_read-end limit b.rest short e))
            (λ e.
              count_line-Progress (length b.rest) base
                (line_outcome lower (offset == 0 && b.processed == 0) r.raw) moved unended
                (shorter (inr e))))

  -- From a counted batch that has not met the end, the loop over n lines returns a counted batch,
  -- which has met the end of the file with nothing left of it, or has not met it and is at least n
  -- bytes further on.
  pub read_batch-IsCounted :
      (n : ℕ) (b : Batch)
      → b.eof ≡ false
      → IsCounted content b
      → (b' : Batch) × (read_batch lower limit offset base n b ≡ some b')
        × IsCounted content b'
        × (((b'.eof ≡ true) × (b'.rest ≡ []))
            ⊎ ((b'.eof ≡ false) × (length b'.rest + n ≤ length b.rest)))
  unfolding read_batch
  read_batch-IsCounted zero b unended h = (b, refl, h, inr (unended, omega arith))
  read_batch-IsCounted (suc n) b unended h =
      let r = line_read limit b.rest in
      let b' = step_read lower limit offset base r b in
      let good = step_read-IsCounted r b (rest-line_read limit b.rest) h in
      let law = read-line_read limit b.rest in
      elim (step_read-Progress b unended) [
        | inl ended ↦ (b', rw (law, read_batch) (if_true _ _ ended.0), good, inl ended)
        | inr (e, less) ↦
            let (last, runs, last_good, moved) = read_batch-IsCounted n b' e good in
            (
              last,
              rw (law, read_batch) (if_false _ _ e ∙ runs),
              last_good,
              elim moved [
                | inl ended ↦ inl ended
                | inr (still, further) ↦ inr (still, omega (arith, less, further))
              ],
            )
      ]

-- Every counted line is imported, failed or skipped.
abbrev pub IsBalanced : Job → Type 0
IsBalanced j = j.processed ≡ j.succeeded + j.failed + j.skipped

-- Behind a counted batch, each account of which the upsert counted once, a balanced job stays
-- balanced.
pub finish_import-IsBalanced :
    (content : Bytes) (now inserted skipped : ℕ) (summary : Option Text) (b : Batch) (j : Job)
    → IsCounted content b
    → inserted + skipped ≡ length b.parsed
    → IsBalanced j
    → IsBalanced (finish_import now b inserted skipped summary j)
unfolding finish_import
finish_import-IsBalanced content now inserted skipped summary b j h e bal =
    elim (Bool-cases (b.eof || j.cancel_requested)) [
      | inl t ↦ rw (if_true _ _ t) (omega (arith, h.counted))
      | inr t ↦ rw (if_false _ _ t) (omega (arith, h.counted))
    ]
