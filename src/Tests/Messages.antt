-- ===== src/Tests/Messages.antt =====
-- The messages of errors, cleaned.
use token_loom.Prelude.{
  ℕ, ◌≡◌, ◌≤◌, refl, Bool, true, false, ◌&&◌, ◌||◌, none, [], ◌∷◌, ◌++◌, leb, ◌==◌, all, length,
  Text, codes, arith,
}
use token_loom.Redaction.{
  sub_matches, span, optional, match_secret, hidden, is_quote, is_value_char, is_separator,
  sanitize_error, is_line_char,
}
use token_loom.Redaction.Clean.{is_clean, sanitize_error-IsClean}
use token_loom.Redaction.Labels.{stops, Label, IsLabel, password_word}
use token_loom.Redaction.Secrets.{match_secret-hides}
use token_loom.Tests.Samples.{same_text, ascii_lower}

-- `\w` on ASCII
abbrev pub ascii_word : ℕ → Bool
ascii_word c =
    (leb b'A' c && leb c b'Z')
    || (leb b'a' c && leb c b'z')
    || (leb b'0' c && leb c b'9')
    || c == b'_'

-- a text that tells a token, an access token and an address
abbrev told : Text
told = codes "Refresh_Token: \"abc\", Bearer x.y" ++ 13 ∷ 10 ∷ codes "to ab@x.org."

secret_told :
    sanitize_error ascii_lower ascii_word 420 true (codes "a Password=\"bc\"")
    ≡ codes "a Password=[已隐藏]\""
unfolding sanitize_error token_loom.Prelude.Runs.sub_runs is_line_char is_quote
    token_loom.Redaction.is_part_char token_loom.Prelude.is_space is_value_char
secret_told = refl

bearer_told :
    sanitize_error ascii_lower ascii_word 420 true (codes "BEARER\tx.y,") ≡ codes "Bearer [已隐藏],"
unfolding sanitize_error token_loom.Prelude.Runs.sub_runs is_line_char is_quote
    token_loom.Prelude.is_space token_loom.Redaction.is_token_char token_loom.Redaction.is_part_char
bearer_told = refl

no_boundary : sanitize_error ascii_lower ascii_word 420 true (codes "abearer x") ≡ codes "abearer x"
unfolding sanitize_error token_loom.Prelude.Runs.sub_runs is_line_char is_quote
    token_loom.Redaction.is_part_char token_loom.Prelude.is_space
no_boundary = refl

address_told :
    sanitize_error ascii_lower ascii_word 420 true (codes "to abc@x.org.") ≡ codes "to ab••@x.org."
unfolding sanitize_error token_loom.Prelude.Runs.sub_runs is_line_char is_quote
    token_loom.Redaction.is_part_char token_loom.Prelude.is_space token_loom.Prelude.has_char
    token_loom.Crypto.Email.mask_email token_loom.Prelude.strip
address_told = refl

nothing_told : sanitize_error ascii_lower ascii_word 420 false [] ≡ codes "未知错误"
unfolding sanitize_error token_loom.Prelude.Runs.sub_runs is_line_char is_quote
    token_loom.Redaction.is_part_char token_loom.Prelude.is_space
nothing_told = refl

cut_short : sanitize_error ascii_lower ascii_word 3 true (codes "timeout") ≡ codes "tim"
unfolding sanitize_error token_loom.Prelude.Runs.sub_runs is_line_char is_quote
    token_loom.Redaction.is_part_char token_loom.Prelude.is_space
cut_short = refl

sanitize_error-IsClean_example :
    (all is_clean (sanitize_error same_text ascii_word 12 true told) ≡ true)
    × (length (sanitize_error same_text ascii_word 12 true told) ≤ 12)
sanitize_error-IsClean_example = sanitize_error-IsClean same_text (λ s h. h) ascii_word 12 true told

-- `'password': `
abbrev label : Label
label = record {
  opening = codes "'";
  word = password_word;
  closing = codes "'";
  before_separator = [];
  separator = b':';
  behind_separator = codes " ";
}

label-IsLabel : IsLabel label
unfolding is_quote is_separator token_loom.Prelude.is_space
label-IsLabel = record {
  opening_quotes = refl;
  opening_le = omega arith;
  closing_quotes = refl;
  closing_le = omega arith;
  before_spaces = refl;
  separates = refl;
  behind_spaces = refl;
}

quote_passes : all is_quote (codes "'") ≡ true
unfolding is_quote
quote_passes = refl

value_passes : all is_value_char (codes "hunter2") ≡ true
unfolding is_value_char token_loom.Prelude.is_space is_quote
value_passes = refl

value_ends : stops is_value_char (codes "'}") ≡ true
unfolding is_value_char token_loom.Prelude.is_space is_quote
value_ends = refl

match_secret-hides_example :
    sub_matches match_secret none 0 (codes "'password': 'hunter2'}")
    ≡ codes "'password': " ++ (hidden ++ sub_matches match_secret none 0 (codes "'}"))
match_secret-hides_example =
    match_secret-hides label (codes "'") (codes "hunter2") (codes "'}") none label-IsLabel
      quote_passes (omega arith) value_passes refl value_ends
