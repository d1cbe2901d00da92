-- ===== src/Tests/Secrets.antt =====
-- The vault, the contexts and the masks at work.
use token_loom.Prelude.{
  ℕ, ◌≡◌, ◌≢◌, refl, Bool, true, false, Option, none, some, List, [], ◌∷◌, ◌++◌, Text, codes,
  has_char, Result, ok, err, length, arith,
}
use token_loom.Prelude.Utf8.{Bytes, encode, decode, decode-encode}
use token_loom.Crypto.Email.{normalize_email, mask_email}
use token_loom.Crypto.Context.{
  Field, email, client_id, account_cipher_context, account_cipher_context_injective,
}
use token_loom.Crypto.Vault.{
  bad_tag, bound_prefix, aad_prefix, legacy_aad, aad, needs_upgrade, seal, open_value, upgrade,
}
use token_loom.Crypto.Vault.Laws.{open_value-seal, open_value-seal_ne}
use token_loom.Tests.Samples.{ascii_lower, toy, toy-AreSound, nonce_a, hash_a}

-- `"é€"`, of two and of three bytes
abbrev accents : Text
accents = 0xe9 ∷ 0x20ac ∷ []

abbrev accent_bytes : Bytes
accent_bytes = 0xc3 ∷ 0xa9 ∷ 0xe2 ∷ 0x82 ∷ 0xac ∷ []

encode-accents : encode accents ≡ some accent_bytes
unfolding encode
encode-accents = refl

decode-accents : decode accent_bytes ≡ some accents
decode-accents = decode-encode accents encode-accents

abbrev context_email : Text
context_email = codes "account:" ++ hash_a ++ codes ":email"

context_of_email : account_cipher_context hash_a email ≡ ok context_email
unfolding account_cipher_context token_loom.Crypto.Context.is_known token_loom.Crypto.Context.is_hex
    token_loom.Crypto.Context.field_name
context_of_email = refl

account_cipher_context_injective_example : (hash_a ≡ hash_a) × (email ≡ email)
account_cipher_context_injective_example =
    account_cipher_context_injective hash_a hash_a email email context_of_email context_of_email

abbrev address : Text
address = codes " Alice@X.org"

normalized_address : normalize_email ascii_lower address ≡ codes "alice" ++ b'@' ∷ codes "x.org"
unfolding normalize_email token_loom.Prelude.strip token_loom.Prelude.is_space
normalized_address = refl

mask_email_address :
    mask_email ascii_lower address ≡ codes "al" ++ 0x2022 ∷ 0x2022 ∷ 0x2022 ∷ codes "@x.org"
unfolding mask_email token_loom.Prelude.strip token_loom.Prelude.is_space
mask_email_address = refl

no_second_at : has_char b'@' (codes "x.org") ≡ false
unfolding has_char
no_second_at = refl

abbrev sealed_accents : Bytes
sealed_accents = bound_prefix ++ nonce_a ++ 16 ∷ (aad_prefix ++ codes "ab") ++ accent_bytes

seal-accents : seal toy accents (codes "ab") nonce_a ≡ ok sealed_accents
unfolding seal encode aad
seal-accents = refl

open_value-seal_example : open_value toy sealed_accents (codes "ab") ≡ ok accents
open_value-seal_example =
    open_value-seal toy toy-AreSound accents (codes "ab") nonce_a refl seal-accents

aad_other : aad (codes "ac") ≡ ok (aad_prefix ++ codes "ac")
unfolding aad encode
aad_other = refl

contexts_differ : codes "ab" ≢ codes "ac"
contexts_differ same = ground (arith, same)

open_value-seal_ne_example : open_value toy sealed_accents (codes "ac") ≡ err bad_tag
open_value-seal_ne_example =
    open_value-seal_ne toy toy-AreSound accents (codes "ab") nonce_a refl seal-accents (codes "ac")
      contexts_differ aad_other

-- the same text as it was stored before contexts were bound
abbrev legacy_accents : Bytes
legacy_accents = nonce_a ++ 14 ∷ legacy_aad ++ accent_bytes

upgrade_accents : upgrade toy legacy_accents (codes "ab") nonce_a ≡ ok sealed_accents
unfolding upgrade needs_upgrade token_loom.Prelude.starts_with open_value token_loom.Prelude.text_eq
    decode seal encode aad
upgrade_accents = refl
