-- ===== src/Accounts/Parse.antt =====
-- `parse_account_line` of app/services.py.
pub mod Addresses
pub mod Lines
use token_loom.Prelude.{
  ℕ, zero, suc, ◌+◌, Bool, true, false, ◌&&◌, ◌||◌, not, Option, none, some, List, [], ◌∷◌, ◌++◌,
  ltb, if◌then◌else◌, is_empty, length, all, any, drop, Text, codes, strip, lstrip_by, starts_with,
  is_space, has_char, cut, Result, ok, err, ◌==◌,
}
use token_loom.Crypto.Email.{normalize_email}

-- the messages of `AccountFormatError`
pub data FormatError : Type 0 where
  not_four_parts bad_email no_client_id short_token control_character : FormatError

pub record ParsedAccount : Type 0 where
  pub email : Text
  pub password : Text
  pub client_id : Text
  pub refresh_token : Text

-- `"----"`
abbrev pub separator : Text
separator = codes "----"

-- `"\ufeff"`
abbrev pub byte_order_mark : ℕ
byte_order_mark = 0xfeff

unfoldable pub cut_at_before : ℕ → Option (Text × Text) → Option (Text × Text)
cut_at_before c none = none
cut_at_before c (some (a, b)) = some (c ∷ a, b)

-- the first occurrence of the separator: what stands before it and behind it
unfoldable pub cut_at : Text → Option (Text × Text)
unfolding cut_at_before
cut_at [] = none
cut_at (c ∷ s) =
    if starts_with separator (c ∷ s) then some ([], drop 4 (c ∷ s)) else cut_at_before c (cut_at s)

-- `line.split("----", n)`
unfoldable pub split_at : ℕ → Text → List Text
split_at zero s = s ∷ []
split_at (suc n) s = elim (cut_at s) [ none ↦ s ∷ [] | some (a, b) ↦ a ∷ split_at n b ]

-- `[^\s@]`
unfoldable pub is_plain : ℕ → Bool
is_plain c = not (is_space c) && not (c == b'@')

-- a dot with at least one character behind it
unfoldable pub has_dot_inside : Text → Bool
has_dot_inside [] = false
has_dot_inside (c ∷ s) = (c == b'.' && not (is_empty s)) || has_dot_inside s

unfoldable pub is_host : Text → Bool
unfolding has_dot_inside
is_host [] = false
is_host (c ∷ s) = is_plain c && all is_plain s && has_dot_inside s

unfoldable pub is_address_parts : Option (Text × Text) → Bool
unfolding is_host
is_address_parts none = false
is_address_parts (some (local, host)) = not (is_empty local) && all is_plain local && is_host host

-- `re.fullmatch(r"[^\s@]+@[^\s@]+\.[^\s@]+", email)`
unfoldable pub is_address : Text → Bool
unfolding is_address_parts
is_address email = is_address_parts (cut b'@' email)

-- `ord(char) < 32`
unfoldable pub is_control : ℕ → Bool
is_control c = ltb c 32

-- `.lstrip("\ufeff")`
unfoldable pub strip_mark : Text → Text
unfolding lstrip_by
strip_mark = lstrip_by (λ c. c == byte_order_mark)

module _ (lower : Text → Text) where
  -- the checks on the four stripped parts
  unfoldable pub check_parts : Text → Text → Text → Text → Result FormatError (Option ParsedAccount)
  check_parts email password client_id token =
      if not (is_address email)
      then err bad_email
      else if is_empty client_id
      then err no_client_id
      else if ltb (length token) 20
      then err short_token
      else if any is_control (email ++ client_id ++ token)
      then err control_character
      else ok (
          some (record {
            email = normalize_email lower email;
            password = password;
            client_id = client_id;
            refresh_token = token;
          }))

  unfoldable pub parse_parts : List Text → Result FormatError (Option ParsedAccount)
  parse_parts (email ∷ password ∷ client_id ∷ token ∷ []) =
      check_parts (strip email) (strip password) (strip client_id) (strip token)
  parse_parts _ = err not_four_parts

  -- what is behind the strips of the line; `ok none` is the result None
  unfoldable pub parse_stripped : Text → Result FormatError (Option ParsedAccount)
  unfolding parse_parts
  parse_stripped line =
      if is_empty line || starts_with (codes "#") line
      then ok none
      else parse_parts (split_at 3 line)

  unfoldable pub parse_account_line : Text → Result FormatError (Option ParsedAccount)
  parse_account_line raw = parse_stripped (strip_mark (strip raw))
