-- ===== src/Crypto/Context.antt =====
-- `account_cipher_context` of app/crypto.py: the text that binds a ciphertext to its account and
-- its field.
use token_loom.Prelude.{
  ℕ, ◌≡◌, refl, sym, ◌∙◌, Bool, true, false, ◌&&◌, ◌||◌, not, ◌++◌, ◌==◌, leb, if◌then◌else◌,
  length, all, Text, codes, Result, ok, err, arith, append_injective, length-append,
}

-- the fields that `account_cipher_context` takes; any other text is `unknown_field`
pub data Field : Type 0 where
  email client_id refresh_token : Field
  unknown_field : Text → Field

-- `ValueError("账号加密上下文无效")`
pub data ContextError : Type 0 where
  invalid_context : ContextError

-- `character in "0123456789abcdef"`
unfoldable pub is_hex : ℕ → Bool
is_hex c = (leb b'0' c && leb c b'9') || (leb b'a' c && leb c b'f')

unfoldable pub is_known : Field → Bool
is_known (unknown_field _) = false
is_known _ = true

unfoldable pub field_name : Field → Text
field_name email = codes "email"
field_name client_id = codes "client_id"
field_name refresh_token = codes "refresh_token"
field_name (unknown_field name) = name

unfoldable pub account_cipher_context : Text → Field → Result ContextError Text
account_cipher_context email_hash field =
    let valid_hash = length email_hash == 64 && all is_hex email_hash in
    if not (is_known field) || not valid_hash
    then err invalid_context
    else ok (codes "account:" ++ email_hash ++ codes ":" ++ field_name field)

field_name_injective :
    (f g : Field) → is_known f ≡ true → is_known g ≡ true → field_name f ≡ field_name g → f ≡ g
unfolding is_known field_name
field_name_injective email g p q e = ground arith
field_name_injective client_id g p q e = ground arith
field_name_injective refresh_token g p q e = ground arith
field_name_injective (unknown_field n) g p q e = cc

-- What a context is made of.
account_cipher_context-eq_ok :
    (h : Text) (f : Field) {c : Text}
    → account_cipher_context h f ≡ ok c
    → (length h ≡ 64)
      × (all is_hex h ≡ true)
      × (is_known f ≡ true)
      × (c ≡ codes "account:" ++ h ++ codes ":" ++ field_name f)
unfolding account_cipher_context
account_cipher_context-eq_ok h f p = ground arith

-- Two accepted contexts are equal only for one lookup hash and one field.
pub account_cipher_context_injective :
    (h k : Text) (f g : Field) {c : Text}
    → account_cipher_context h f ≡ ok c
    → account_cipher_context k g ≡ ok c
    → (h ≡ k) × (f ≡ g)
account_cipher_context_injective h k f g p q =
    let (n, _, known_f, e) = account_cipher_context-eq_ok h f p in
    let (m, _, known_g, e') = account_cipher_context-eq_ok k g q in
    let label = codes "account:" in
    let (front, names) =
      append_injective (label ++ h ++ codes ":") (label ++ k ++ codes ":") (field_name f)
        (field_name g) (omega (arith, length-append h (codes ":"), length-append k (codes ":")))
        (sym e ∙ e') in
    let (labelled, _) =
      append_injective (label ++ h) (label ++ k) (codes ":") (codes ":") (omega arith) front in
    (
      (append_injective label label h k refl labelled).1,
      field_name_injective f g known_f known_g names,
    )
