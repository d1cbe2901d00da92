-- ===== src/Redaction.antt =====
-- `sanitize_error` of app/services.py, with its four substitutions. `str.lower` is a parameter, and so
-- is which characters are `\w`; the patterns ignore case as `re.IGNORECASE` does.
pub mod Matches
pub mod Keeps
pub mod Clean
pub mod Labels
pub mod Secrets
use token_loom.Prelude.{
  ℕ, zero, suc, ◌+◌, ◌-◌, Bool, true, false, ◌&&◌, ◌||◌, not, Option, none, some, List, [], ◌∷◌,
  ◌++◌, leb, ◌==◌, if◌then◌else◌, is_empty, length, take, drop, Text, codes, is_space, rstrip_by,
  has_char,
}
use token_loom.Prelude.Runs.{sub_runs}
use token_loom.Crypto.Email.{mask_email}

-- `re.sub` of a pattern: `found before s` is what replaces a match at the start of `s`, and the length
-- of that match; `skip` counts the characters of a match that are left.
unfoldable pub sub_matches : (Option ℕ → Text → Option (Text × ℕ)) → Option ℕ → ℕ → Text → Text
sub_matches found before skip [] = []
sub_matches found before (suc skip) (c ∷ s) = sub_matches found (some c) skip s
sub_matches found before zero (c ∷ s) = elim (found before (c ∷ s)) [
  | none ↦ c ∷ sub_matches found (some c) 0 s
  | some (replacement, n) ↦ replacement ++ sub_matches found (some c) (n - 1) s
]

-- the longest start of the text whose characters pass, and what is left
unfoldable pub span : (ℕ → Bool) → Text → Text × Text
span p [] = ([], [])
span p (c ∷ s) = let (a, b) = span p s in if p c then (c ∷ a, b) else ([], c ∷ s)

-- `x?` for a class of characters
unfoldable pub optional : (ℕ → Bool) → Text → Text × Text
optional p [] = ([], [])
optional p (c ∷ s) = if p c then (c ∷ [], s) else ([], c ∷ s)

-- a small letter of a pattern against a character, the case ignored
unfoldable pub same_letter : ℕ → ℕ → Bool
same_letter l c =
    c == l
    || (leb b'a' l && leb l b'z' && c + 32 == l)
    || (l == b's' && c == 0x17f)
    || (l == b'k' && c == 0x212a)

-- what is left behind a word of the pattern
unfoldable pub after_word : Text → Text → Option Text
unfolding same_letter
after_word [] s = some s
after_word (l ∷ word) [] = none
after_word (l ∷ word) (c ∷ s) =
    let rest = after_word word s in if same_letter l c then rest else none

unfoldable pub is_quote : ℕ → Bool
is_quote c = c == b'"' || c == b'\''

-- `[^\s,"'}]`
unfoldable pub is_value_char : ℕ → Bool
is_value_char c = not (is_space c) && not (c == b',') && not (is_quote c) && not (c == b'}')

abbrev pub hidden : Text
hidden = codes "[已隐藏]"

abbrev pub first_some {ℓ} : {A : Type ℓ} → Option A → Option A → Option A
first_some none o = o
first_some (some a) o = some a

-- `(?:refresh_token|access_token|password)`
unfoldable pub after_keyword : Text → Option Text
unfolding after_word
after_keyword s =
    first_some (after_word (codes "refresh_token") s)
      (first_some (after_word (codes "access_token") s) (after_word (codes "password") s))

unfoldable pub is_separator : ℕ → Bool
is_separator c = c == b':' || c == b'='

-- behind the separator: the quote that is dropped, and the value; `s` is the text at the match
unfoldable pub secret_value : Text → Text → Option (Text × ℕ)
unfolding optional span
secret_value s rest =
    let (quote, tail) = optional is_quote rest in
    let (value, _) = span is_value_char tail in
    let kept = take (length s - length rest) s in
    if is_empty value
    then none
    else some (kept ++ hidden, length kept + length quote + length value)

-- behind the keyword
unfoldable pub secret_separator : Text → Text → Option (Text × ℕ)
unfolding optional span secret_value is_separator
secret_separator s rest =
    let (_, tail) = optional is_quote rest in
    let (_, at) = span is_space tail in
    let (separator, behind) = optional is_separator at in
    let (_, value) = span is_space behind in
    if is_empty separator then none else secret_value s value

-- the match of a secret: group 1, and the value that is hidden
unfoldable pub match_secret : Option ℕ → Text → Option (Text × ℕ)
unfolding optional after_keyword secret_separator
match_secret before s = elim (after_keyword (optional is_quote s).1) [
  | none ↦ none
  | some rest ↦ secret_separator s rest
]

-- `[A-Za-z0-9._~+\-/=]`, the case ignored
unfoldable pub is_token_char : ℕ → Bool
is_token_char c =
    (leb b'A' c && leb c b'Z')
    || (leb b'a' c && leb c b'z')
    || (leb b'0' c && leb c b'9')
    || c == b'.'
    || c == b'_'
    || c == b'~'
    || c == b'+'
    || c == b'-'
    || c == b'/'
    || c == b'='
    || c == 0x130
    || c == 0x131
    || c == 0x17f
    || c == 0x212a

unfoldable pub bearer_token : Text → Text → Option (Text × ℕ)
unfolding span
bearer_token s rest =
    let (spaces, tail) = span is_space rest in
    let (token, _) = span is_token_char tail in
    if is_empty spaces || is_empty token
    then none
    else some (codes "Bearer " ++ hidden, 6 + length spaces + length token)

module _ (is_word : ℕ → Bool) where
  -- `\b` before a letter
  unfoldable pub at_boundary : Option ℕ → Bool
  at_boundary none = true
  at_boundary (some c) = not (is_word c)

  unfoldable pub match_bearer : Option ℕ → Text → Option (Text × ℕ)
  unfolding at_boundary after_word bearer_token
  match_bearer before s =
      if not (at_boundary before)
      then none
      else (elim (after_word (codes "bearer") s) [ none ↦ none | some rest ↦ bearer_token s rest ])

-- `[^\s@]`
unfoldable pub is_part_char : ℕ → Bool
is_part_char c = not (is_space c) && not (c == b'@')

-- `[^\s@]+\.[^\s@]+` takes a whole run of such characters: a dot with one of them on either side
unfoldable pub has_inner_dot : Text → Bool
has_inner_dot [] = false
has_inner_dot (c ∷ s) = has_char b'.' (take (length s - 1) s)

-- `".,;:)]}"`
unfoldable pub is_trailing : ℕ → Bool
is_trailing c = has_char c (codes ".,;:)]}")

module _ (lower : Text → Text) where
  -- `_redact_email_match`
  unfoldable pub redact_email_match : Text → Text
  unfolding is_trailing
  redact_email_match raw =
      let email = rstrip_by is_trailing raw in mask_email lower email ++ drop (length email) raw

  unfoldable pub email_domain : Text → Text → Option (Text × ℕ)
  unfolding span has_inner_dot redact_email_match
  email_domain local [] = none
  email_domain local (c ∷ rest) =
      let (domain, _) = span is_part_char rest in
      let raw = local ++ b'@' ∷ domain in
      if c == b'@' && has_inner_dot domain then some (redact_email_match raw, length raw) else none

  unfoldable pub match_email : Option ℕ → Text → Option (Text × ℕ)
  unfolding span email_domain
  match_email before s =
      let (local, rest) = span is_part_char s in
      if is_empty local then none else email_domain local rest

-- `[\r\n\t]`
unfoldable pub is_line_char : ℕ → Bool
is_line_char c = c == 13 || c == 10 || c == 9

abbrev pub unknown_error : Text
unknown_error = codes "未知错误"

module _ (lower : Text → Text) (is_word : ℕ → Bool) where
  -- `is_true` is `bool(value)` and `value` is `str(value)`: an exception is true, whatever its text is
  unfoldable pub sanitize_error : ℕ → Bool → Text → Text
  unfolding sub_matches match_secret match_bearer match_email
  sanitize_error limit is_true value =
      let text = sub_runs is_line_char b' ' false (if is_true then value else unknown_error) in
      let secrets = sub_matches match_secret none 0 text in
      let bearers = sub_matches (match_bearer is_word) none 0 secrets in
      take limit (sub_matches (match_email lower) none 0 bearers)
