-- ===== src/Tests/Lines.antt =====
-- Account lines: what the parser makes of them.
use token_loom.Prelude.{
  ℕ, ◌≡◌, ◌≢◌, ◌↔◌, refl, Bool, true, false, Option, none, some, List, [], ◌∷◌, ◌++◌, Text, codes,
  Result, ok, err, length, arith, strip, starts_with, any,
}
use token_loom.Accounts.Parse.{
  FormatError, short_token, not_four_parts, is_address, is_control, byte_order_mark, cut_at,
  parse_account_line, ParsedAccount,
}
use token_loom.Accounts.Parse.Addresses.{IsAddress}
use token_loom.Accounts.Parse.Lines.{
  IsAccepted, IsWritable, line_of, parse_account_line-IsAccepted, parse_account_line-line_of,
}
use token_loom.Crypto.Email.{normalize_email}
use token_loom.Tests.Samples.{ascii_lower}

abbrev address : Text
address = codes "Al@x.co"

address-IsAddress : IsAddress address
unfolding token_loom.Accounts.Parse.is_plain token_loom.Prelude.is_space
address-IsAddress = record {
  local = codes "Al";
  host = codes "x";
  top = codes "co";
  local_word = record { nonempty = λ e. ground (arith, e); plain = refl };
  host_word = record { nonempty = λ e. ground (arith, e); plain = refl };
  top_word = record { nonempty = λ e. ground (arith, e); plain = refl };
  form = refl;
}

address_accepted : is_address address ≡ true
unfolding is_address token_loom.Prelude.cut token_loom.Accounts.Parse.is_plain
    token_loom.Prelude.is_space
address_accepted = refl

no_dot : is_address (codes "a@co") ≡ false
unfolding is_address token_loom.Prelude.cut token_loom.Accounts.Parse.is_plain
    token_loom.Prelude.is_space
no_dot = refl

two_ats : is_address (codes "a@b@c.d") ≡ false
unfolding is_address token_loom.Prelude.cut token_loom.Accounts.Parse.is_plain
    token_loom.Prelude.is_space
two_ats = refl

abbrev token : Text
token = codes "M.C5----aaaaaaaaaaaaaaaaaa"

abbrev account_read : ParsedAccount
account_read = record {
  email = codes "al@x.co";
  password = codes "pw";
  client_id = codes "9e5f";
  refresh_token = token;
}

parse_line :
    parse_account_line ascii_lower (line_of address (codes "pw") (codes "9e5f") token)
    ≡ ok (some account_read)
unfolding parse_account_line token_loom.Accounts.Parse.parse_stripped
    token_loom.Accounts.Parse.strip_mark strip token_loom.Prelude.is_space starts_with
    token_loom.Accounts.Parse.split_at cut_at token_loom.Accounts.Parse.check_parts is_address
    token_loom.Prelude.cut token_loom.Accounts.Parse.is_plain is_control normalize_email
parse_line = refl

parse_comment : parse_account_line ascii_lower (codes " # note") ≡ ok none
unfolding parse_account_line token_loom.Accounts.Parse.parse_stripped
    token_loom.Accounts.Parse.strip_mark strip token_loom.Prelude.is_space starts_with
parse_comment = refl

parse_three : parse_account_line ascii_lower (codes "a@b.c----p----t") ≡ err not_four_parts
unfolding parse_account_line token_loom.Accounts.Parse.parse_stripped
    token_loom.Accounts.Parse.strip_mark strip token_loom.Prelude.is_space starts_with
    token_loom.Accounts.Parse.split_at cut_at
parse_three = refl

parse_account_line-IsAccepted_example : IsAccepted ascii_lower account_read
parse_account_line-IsAccepted_example =
    parse_account_line-IsAccepted ascii_lower (line_of address (codes "pw") (codes "9e5f") token)
      parse_line

parts-IsWritable : IsWritable address (codes "pw") (codes "9e5f") token
unfolding starts_with cut_at strip token_loom.Prelude.is_space is_control
parts-IsWritable = record {
  address = address-IsAddress;
  no_comment = refl;
  no_mark = refl;
  separable = (refl, refl, refl);
  stripped = (refl, refl, refl, refl);
  has_client = λ e. ground (arith, e);
  long_token = omega arith;
  printable = refl;
}

parse_account_line-line_of_example :
    parse_account_line ascii_lower (line_of address (codes "pw") (codes "9e5f") token)
    ≡ ok (
        some (record {
          email = normalize_email ascii_lower address;
          password = codes "pw";
          client_id = codes "9e5f";
          refresh_token = token;
        }))
parse_account_line-line_of_example =
    parse_account_line-line_of ascii_lower address (codes "pw") (codes "9e5f") token
      parts-IsWritable
