-- ===== src/Api/Names.antt =====
-- `safe_source_name` of app/main.py, on a POSIX system. Which characters `\w` matches is a parameter.
use token_loom.Prelude.{
  ℕ, ◌≤◌, ◌≡◌, refl, Bool, true, false, ◌&&◌, ◌||◌, not, List, [], ◌∷◌, filter, leb, ◌==◌,
  if◌then◌else◌, is_empty, length, take, get_last_or, all, Text, text_eq, codes, has_char, arith,
  inl, inr, Bool-cases, length-take,
}
use token_loom.Prelude.Runs.{sub_runs, all-sub_runs, all-take}

abbrev pub default_name : Text
default_name = codes "导入数据.txt"

unfoldable pub cons_head : ℕ → List Text → List Text
cons_head c [] = (c ∷ []) ∷ []
cons_head c (part ∷ parts) = (c ∷ part) ∷ parts

-- `s.split("/")`
unfoldable pub split_path : Text → List Text
unfolding cons_head
split_path [] = [] ∷ []
split_path (c ∷ s) = let parts = split_path s in if c == b'/' then [] ∷ parts else cons_head c parts

-- `Path(value).name`: the last part that is neither empty nor a dot
unfoldable pub path_name : Text → Text
unfolding split_path
path_name value =
    get_last_or []
      (filter (λ part. not (is_empty part) && not (text_eq part (b'.' ∷ []))) (split_path value))

module _ (is_word : ℕ → Bool) where
  -- `[\w.\-()（）\u4e00-\u9fff ]`
  unfoldable pub is_allowed : ℕ → Bool
  is_allowed c =
      is_word c
      || c == b'.'
      || c == b'-'
      || c == b'('
      || c == b')'
      || c == 0xff08
      || c == 0xff09
      || (leb 0x4e00 c && leb c 0x9fff)
      || c == b' '

  -- `re.sub(r"[^…]+", "_", value)`
  unfoldable pub underscored : Text → Text
  unfolding is_allowed
  underscored value = sub_runs (λ c. not (is_allowed c)) b'_' false value

  unfoldable pub or_default_name : Text → Text
  or_default_name name = if is_empty name then default_name else name

  unfoldable pub safe_source_name : Text → Text
  unfolding path_name underscored or_default_name
  safe_source_name value =
      or_default_name (take 255 (underscored (path_name (or_default_name value))))

  -- what holds of a name that is shown and stored
  pub record IsSafe (name : Text) : Type 0 where
    pub shown : is_empty name ≡ false
    pub short : length name ≤ 255
    pub clean : all is_allowed name ≡ true
    pub no_slash : has_char b'/' name ≡ false

  underscored-allowed :
      (value : Text) → is_word b'_' ≡ true → all is_allowed (underscored value) ≡ true
  unfolding underscored
  underscored-allowed value h =
      all-sub_runs (λ c. not (is_allowed c)) b'_' is_allowed false value (unfold is_allowed in rw h)
        (λ c e. ground (arith, e))

  allowed-no_slash :
      (s : Text) → is_word b'/' ≡ false → all is_allowed s ≡ true → has_char b'/' s ≡ false
  unfolding has_char is_allowed
  allowed-no_slash [] h e = refl
  allowed-no_slash (c ∷ s) h e = elim (Bool-cases (c == b'/')) [
    | inr ne ↦ ground (arith, e, ne, allowed-no_slash s h)
    | inl same ↦ ground (arith, h, e, same)
  ]

  default_name-allowed :
      is_word b't' ≡ true → is_word b'x' ≡ true → all is_allowed default_name ≡ true
  unfolding is_allowed
  default_name-allowed t x = ground (arith, t, x)

  named-allowed :
      (name : Text)
      → is_word b't' ≡ true
      → is_word b'x' ≡ true
      → all is_allowed name ≡ true
      → length name ≤ 255
      → (is_empty (or_default_name name) ≡ false)
        × (length (or_default_name name) ≤ 255)
        × (all is_allowed (or_default_name name) ≡ true)
  unfolding or_default_name
  named-allowed [] t x h le = (refl, omega arith, default_name-allowed t x)
  named-allowed (c ∷ name) t x h le = (refl, le, h)

  -- Where `\w` matches the underscore and the letters t and x but no slash, the name is not empty,
  -- has at most 255 characters, all of them allowed and none a slash.
  pub safe_source_name-IsSafe :
      (value : Text)
      → is_word b'_' ≡ true
      → is_word b't' ≡ true
      → is_word b'x' ≡ true
      → is_word b'/' ≡ false
      → IsSafe (safe_source_name value)
  unfolding safe_source_name
  safe_source_name-IsSafe value under t x slash =
      let cleaned = underscored (path_name (or_default_name value)) in
      let (shown, short, clean) =
        named-allowed (take 255 cleaned) t x
          (all-take is_allowed 255 cleaned
            (underscored-allowed (path_name (or_default_name value)) under))
          (omega (arith, length-take 255 cleaned)) in
      record {
        shown = shown;
        short = short;
        clean = clean;
        no_slash = allowed-no_slash _ slash clean;
      }
