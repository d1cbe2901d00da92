-- ===== src/Prelude/Utf8.antt =====
-- Python's strict `str.encode("utf-8")` and `bytes.decode("utf-8")`.
use token_loom.Prelude.Tests.{ltb, leb, ◌==◌, if◌then◌else◌, Bool-cases}
use token_loom.Prelude.Texts.{Text}
use Prim.Native.Nat.{ℕ, zero, suc, ◌+◌, ◌-◌, ◌*◌, ◌/◌, ◌%◌, ◌≤◌, ◌<◌}
use mathlib.Core.Path.{◌≡◌, refl, ◌∙◌}
use mathlib.Core.Logic.{inl, inr}
use mathlib.Core.Bool.{Bool, true, ◌&&◌, ◌||◌}
use mathlib.Core.Option.{Option, none, some}
use mathlib.Core.List.{List, [], ◌∷◌, ◌++◌}
use native.Mathlib.Omega.{arith}

abbrev pub Bytes : Type 0
Bytes = List ℕ

-- a code point that is encoded: no surrogate
unfoldable pub is_scalar : ℕ → Bool
is_scalar c = ltb c 0xd800 || (leb 0xe000 c && leb c 0x10ffff)

unfoldable pub encode_char : ℕ → Bytes
encode_char c =
    if ltb c 0x80
    then c ∷ []
    else if ltb c 0x800
    then (0xc0 + c / 64) ∷ (0x80 + c % 64) ∷ []
    else if ltb c 0x10000
    then (0xe0 + c / 4096) ∷ (0x80 + c / 64 % 64) ∷ (0x80 + c % 64) ∷ []
    else (0xf0 + c / 262144) ∷ (0x80 + c / 4096 % 64) ∷ (0x80 + c / 64 % 64) ∷ (0x80 + c % 64) ∷ []

unfoldable pub encode_before : ℕ → Option Bytes → Option Bytes
unfolding encode_char is_scalar
encode_before c none = none
encode_before c (some r) = if is_scalar c then some (encode_char c ++ r) else none

-- `s.encode("utf-8")`; `none` is a UnicodeEncodeError
unfoldable pub encode : Text → Option Bytes
unfolding encode_before
encode [] = some []
encode (c ∷ s) = encode_before c (encode s)

-- What the decoder waits for: the number of bytes that follow, the value so far, and the least
-- value that the sequence may have.
pub record Pending : Type 0 where
  pub more : ℕ
  pub value : ℕ
  pub least : ℕ

abbrev pub idle : Pending
idle = record { more = 0; value = 0; least = 0 }

-- the first byte of a character
unfoldable pub lead : ℕ → Option (Option ℕ × Pending)
lead b =
    if ltb b 0x80
    then some (some b, idle)
    else if leb 0xc2 b && leb b 0xdf
    then some (none, record { more = 1; value = b - 0xc0; least = 0x80 })
    else if leb 0xe0 b && leb b 0xef
    then some (none, record { more = 2; value = b - 0xe0; least = 0x800 })
    else if leb 0xf0 b && leb b 0xf4
    then some (none, record { more = 3; value = b - 0xf0; least = 0x10000 })
    else none

-- a byte that follows, with the number of bytes behind it
unfoldable pub follow : ℕ → ℕ → ℕ → ℕ → Option (Option ℕ × Pending)
follow zero value least b =
    let v = value * 64 + (b - 0x80) in
    if leb 0x80 b && leb b 0xbf && leb least v && is_scalar v then some (some v, idle) else none
follow (suc k) value least b =
    if leb 0x80 b && leb b 0xbf
    then some (none, record { more = suc k; value = value * 64 + (b - 0x80); least = least })
    else none

unfoldable pub next : ℕ → ℕ → ℕ → ℕ → Option (Option ℕ × Pending)
unfolding lead follow is_scalar
next zero value least b = lead b
next (suc k) value least b = follow k value least b

abbrev pub emit : Option ℕ → Option Text → Option Text
emit o none = none
emit none (some s) = some s
emit (some c) (some s) = some (c ∷ s)

unfoldable pub decode_from : Pending → Bytes → Option Text
decode_from p [] = if p.more == 0 then some [] else none
decode_from p (b ∷ s) = elim (next p.more p.value p.least b) [
  | none ↦ none
  | some (o, q) ↦ emit o (decode_from q s)
]

-- `b.decode("utf-8")`; `none` is a UnicodeDecodeError
unfoldable pub decode : Bytes → Option Text
unfolding decode_from next
decode = decode_from idle

emit-none : (o : Option Text) → emit none o ≡ o
emit-none none = refl
emit-none (some s) = refl

-- One byte in the middle of a character, and the last byte of one.
decode_from-more :
    (m v l b : ℕ) (q : Pending) (r : Bytes)
    → next m v l b ≡ some (none, q)
    → decode_from (record { more = m; value = v; least = l }) (b ∷ r) ≡ decode_from q r
unfolding decode_from
decode_from-more m v l b q r h = rw (h, decode_from) (emit-none (decode_from q r))

decode_from-last :
    (m v l b c : ℕ) (r : Bytes)
    → next m v l b ≡ some (some c, idle)
    → decode_from (record { more = m; value = v; least = l }) (b ∷ r)
      ≡ emit (some c) (decode_from idle r)
unfolding decode_from
decode_from-last m v l b c r h = rw (h, decode_from)

module _ (c : ℕ) (scalar : is_scalar c ≡ true) where
  next-ascii : c < 0x80 → next 0 0 0 c ≡ some (some c, idle)
  unfolding next
  next-ascii h = ground arith

  next-lead_two :
      0x80 ≤ c
      → c < 0x800
      → next 0 0 0 (0xc0 + c / 64) ≡ some (none, record { more = 1; value = c / 64; least = 0x80 })
  unfolding next
  next-lead_two h k = ground arith

  next-lead_three :
      0x800 ≤ c
      → c < 0x10000
      → next 0 0 0 (0xe0 + c / 4096)
        ≡ some (none, record { more = 2; value = c / 4096; least = 0x800 })
  unfolding next
  next-lead_three h k = ground arith

  next-lead_four :
      0x10000 ≤ c
      → next 0 0 0 (0xf0 + c / 262144)
        ≡ some (none, record { more = 3; value = c / 262144; least = 0x10000 })
  unfolding next
  next-lead_four h = ground arith

  -- the last byte of any longer sequence
  next-last : (least : ℕ) → least ≤ c → next 1 (c / 64) least (0x80 + c % 64) ≡ some (some c, idle)
  unfolding next
  next-last least h =
      let e : c / 64 * 64 + (0x80 + c % 64 - 0x80) ≡ c = omega arith in
      rw e (rw scalar (ground arith))

  next-second :
      (least : ℕ)
      → next 2 (c / 4096) least (0x80 + c / 64 % 64)
        ≡ some (none, record { more = 1; value = c / 64; least = least })
  unfolding next
  next-second least =
      let e : c / 4096 * 64 + (0x80 + c / 64 % 64 - 0x80) ≡ c / 64 = omega arith in
      rw e (ground arith)

  next-third :
      (least : ℕ)
      → next 3 (c / 262144) least (0x80 + c / 4096 % 64)
        ≡ some (none, record { more = 2; value = c / 4096; least = least })
  unfolding next
  next-third least =
      let e : c / 262144 * 64 + (0x80 + c / 4096 % 64 - 0x80) ≡ c / 4096 = omega arith in
      rw e (ground arith)

decode_from-encode_char :
    (c : ℕ) (r : Bytes)
    → is_scalar c ≡ true
    → decode_from idle (encode_char c ++ r) ≡ emit (some c) (decode_from idle r)
unfolding encode_char
decode_from-encode_char c r h = elim (Bool-cases (ltb c 0x80)) [
  | inl a ↦ rw a (decode_from-last 0 0 0 c c r (next-ascii c h (ground arith)))
  | inr a ↦ elim (Bool-cases (ltb c 0x800)) [
    | inl b ↦
        rw (a, b)
          (decode_from-more 0 0 0 _ _ _ (next-lead_two c h (ground arith) (ground arith))
            ∙ decode_from-last 1 (c / 64) 0x80 _ c r (next-last c h 0x80 (ground arith)))
    | inr b ↦ elim (Bool-cases (ltb c 0x10000)) [
      | inl d ↦
          rw (a, b, d)
            (decode_from-more 0 0 0 _ _ _ (next-lead_three c h (ground arith) (ground arith))
              ∙ decode_from-more 2 (c / 4096) 0x800 _ _ _ (next-second c h 0x800)
              ∙ decode_from-last 1 (c / 64) 0x800 _ c r (next-last c h 0x800 (ground arith)))
      | inr d ↦
          rw (a, b, d)
            (decode_from-more 0 0 0 _ _ _ (next-lead_four c h (ground arith))
              ∙ decode_from-more 3 (c / 262144) 0x10000 _ _ _ (next-third c h 0x10000)
              ∙ decode_from-more 2 (c / 4096) 0x10000 _ _ _ (next-second c h 0x10000)
              ∙ decode_from-last 1 (c / 64) 0x10000 _ c r (next-last c h 0x10000 (ground arith)))
    ]
  ]
]

encode_before-eq_some :
    (c : ℕ) (o : Option Bytes) {b : Bytes}
    → encode_before c o ≡ some b
    → (r : Bytes) × (o ≡ some r) × (is_scalar c ≡ true) × (b ≡ encode_char c ++ r)
unfolding encode_before
encode_before-eq_some c none h = cc
encode_before-eq_some c (some r) h = elim (Bool-cases (is_scalar c)) [
  | inl e ↦ (r, refl, e, ground arith)
  | inr e ↦ ground arith
]

-- What encodes, decodes to itself.
pub decode-encode : (s : Text) {b : Bytes} → encode s ≡ some b → decode b ≡ some s
unfolding encode decode decode_from
decode-encode [] {b} h = let e : [] ≡ b = cc in rw (← e)
decode-encode (c ∷ s) h =
    let (r, e, scalar, eq) = encode_before-eq_some c (encode s) h in
    rw (eq, decode_from-encode_char c r scalar, decode-encode s e)
