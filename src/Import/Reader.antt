-- ===== src/Import/Reader.antt =====
-- `read_limited_line` of app/worker.py. The handle is what is left of the file.
pub mod Lines
use token_loom.Prelude.{
  ℕ, zero, suc, ◌+◌, Bool, true, false, ◌&&◌, ◌||◌, not, Option, none, some, List, [], ◌∷◌, ◌++◌,
  ltb, ◌==◌, if◌then◌else◌, is_empty, length, ends_with,
}
use token_loom.Prelude.Utf8.{Bytes}

-- `b"\n"`
abbrev pub newline : ℕ
newline = 10

-- `handle.readline(n)`: at most n bytes, and no further than the first newline
unfoldable pub readline : ℕ → Bytes → Bytes × Bytes
readline zero s = ([], s)
readline (suc n) [] = ([], [])
readline (suc n) (c ∷ s) =
    let (a, r) = readline n s in if c == newline then (c ∷ [], s) else (c ∷ a, r)

-- What `read_limited_line` returns, and the handle behind it.
pub record LineRead : Type 0 where
  pub raw : Bytes
  pub too_long : Bool
  pub rest : Bytes

-- the `while` loop, on fuel; `none` means that the fuel ran out
unfoldable pub drain : ℕ → ℕ → Bytes → Bool → Bytes → Option LineRead
drain zero limit raw too_long s = none
drain (suc fuel) limit raw too_long s =
    let done = some (record { raw = raw; too_long = too_long; rest = s }) in
    let chunk = (readline (suc limit) s).0 in
    let s' = (readline (suc limit) s).1 in
    let long = too_long || ltb limit (length chunk) in
    let again = drain fuel limit (if long then chunk else raw ++ chunk) long s' in
    if is_empty raw || ends_with newline raw then done else if is_empty chunk then done else again

-- `return (b"" if too_long else raw), too_long`
unfoldable pub blank_long : Option LineRead → Option LineRead
blank_long none = none
blank_long (some r) = some (if r.too_long then record r { raw = [] } else r)

unfoldable pub read_limited_line : ℕ → Bytes → Option LineRead
unfolding blank_long
read_limited_line limit s =
    let (raw, s') = readline (suc limit) s in
    if is_empty raw
    then some (record { raw = []; too_long = false; rest = s' })
    else blank_long (drain (suc (length s')) limit raw (ltb limit (length raw)) s')
