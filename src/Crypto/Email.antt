-- ===== src/Crypto/Email.antt =====
-- `normalize_email` and `mask_email` of app/crypto.py. `str.lower` follows the tables of Unicode
-- and is the parameter `lower`.
pub mod Masking
use token_loom.Prelude.{
  ℕ, ◌-◌, Bool, true, false, Option, none, some, List, [], ◌∷◌, ◌++◌, min, max, ltb, leb,
  if◌then◌else◌, length, take, replicate, Text, codes, strip, rcut,
}

-- `"•"`
abbrev pub bullet : ℕ
bullet = 0x2022

module _ (lower : Text → Text) where
  unfoldable pub normalize_email : Text → Text
  normalize_email value = lower (strip value)

-- the `if`/`else` on the length of the local part
unfoldable pub visible_of : Text → Text
visible_of local = if leb (length local) 2 then take 1 local else take 2 local

unfoldable pub mask_parts : Option (Text × Text) → Text
unfolding visible_of
mask_parts none = codes "***"
mask_parts (some (local, domain)) =
    let visible = visible_of local in
    visible ++ replicate (min (max (length local - length visible) 2) 8) bullet ++ b'@' ∷ domain

module _ (lower : Text → Text) where
  -- `"@" not in value` is the same as no cut by `rsplit("@", 1)`
  unfoldable pub mask_email : Text → Text
  unfolding mask_parts normalize_email rcut
  mask_email value = mask_parts (rcut b'@' (normalize_email lower value))
