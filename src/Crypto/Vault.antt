-- ===== src/Crypto/Vault.antt =====
-- `SecretVault` of app/crypto.py. AES-GCM under the vault's key and zlib are parameters; the
-- random nonce of `seal` is an argument.
pub mod Laws
use token_loom.Prelude.{
  ℕ, ◌≡◌, ◌≢◌, Bool, true, false, ◌&&◌, ◌||◌, not, Option, none, some, List, [], ◌∷◌, ◌++◌, ltb,
  if◌then◌else◌, is_empty, length, take, drop, Text, codes, starts_with, Result, ok, err, ◌>>=◌,
  or_raise,
}
use token_loom.Prelude.Utf8.{Bytes, encode, decode}

-- What `seal`, `open` and `upgrade` raise: ValueError, InvalidTag, zlib.error, UnicodeError.
pub data VaultError : Type 0 where
  bad_context bad_tag bad_stream bad_text : VaultError

-- AESGCM(key) and zlib: `encrypt nonce raw aad`, `decrypt nonce payload aad`.
pub record Primitives : Type 0 where
  pub encrypt : Bytes → Bytes → Bytes → Bytes
  pub decrypt : Bytes → Bytes → Bytes → Option Bytes
  pub compress : Bytes → Bytes
  pub decompress : Bytes → Option Bytes

-- The documented behaviour of authenticated encryption and of compression.
pub record AreSound (p : Primitives) : Type 0 where
  pub decrypt-encrypt :
      (nonce raw aad : Bytes) → p.decrypt nonce (p.encrypt nonce raw aad) aad ≡ some raw
  pub decrypt-other :
      (nonce raw aad other : Bytes)
      → aad ≢ other
      → p.decrypt nonce (p.encrypt nonce raw aad) other ≡ none
  pub decompress-compress : (raw : Bytes) → p.decompress (p.compress raw) ≡ some raw

-- `_BOUND_PREFIX`
abbrev pub bound_prefix : Bytes
bound_prefix = b'T' ∷ b'L' ∷ b'2' ∷ 0 ∷ []

abbrev pub aad_prefix : Bytes
aad_prefix = codes "token-loom:v2:"

abbrev pub legacy_aad : Bytes
legacy_aad = codes "token-admin:v1"

-- `_aad`
unfoldable pub aad : Text → Result VaultError Bytes
aad context = do
  bytes ← or_raise (encode context) bad_text
  if is_empty context || ltb 256 (length bytes) then err bad_context else ok (aad_prefix ++ bytes)

unfoldable pub needs_upgrade : Bytes → Bool
needs_upgrade value = not (is_empty value) && not (starts_with bound_prefix value)

module _ (p : Primitives) where
  unfoldable pub seal : Text → Text → Bytes → Result VaultError Bytes
  seal value context nonce = do
    bytes ← or_raise (encode value) bad_text
    bound ← aad context
    ok (bound_prefix ++ nonce ++ p.encrypt nonce (p.compress bytes) bound)

  -- `zlib.decompress(raw).decode("utf-8")` behind the decryption
  unfoldable pub unpack : Option Bytes → Result VaultError Text
  unpack decrypted = do
    raw ← or_raise decrypted bad_tag
    bytes ← or_raise (p.decompress raw) bad_stream
    or_raise (decode bytes) bad_text

  -- `open`; the value None is the empty list here, as `not value` holds of both
  unfoldable pub open_value : Bytes → Text → Result VaultError Text
  unfolding unpack
  open_value value context =
      if is_empty value
      then ok []
      else if starts_with bound_prefix value
      then (do
        bound ← aad context
        unpack (p.decrypt (take 12 (drop 4 value)) (drop 16 value) bound))
      else unpack (p.decrypt (take 12 value) (drop 12 value) legacy_aad)

  unfoldable pub upgrade : Bytes → Text → Bytes → Result VaultError Bytes
  upgrade value context nonce =
      if not (needs_upgrade value)
      then ok value
      else (do text ← open_value value context; seal text context nonce)
