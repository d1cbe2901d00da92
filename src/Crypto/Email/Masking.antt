-- ===== src/Crypto/Email/Masking.antt =====
-- What a masked address shows.
use token_loom.Prelude.{
  ℕ, ◌-◌, ◌≤◌, ◌≡◌, refl, false, some, ◌∷◌, ◌++◌, min, max, inl, inr, leb, length, take, replicate,
  Text, codes, arith, Bool-cases, has_char,
}
use token_loom.Prelude.Cuts.{rcut-absent, rcut-append}
use token_loom.Crypto.Email.{bullet, normalize_email, mask_parts, mask_email}

-- Of the part before the last `@` one or two characters stay, then two to eight bullets stand.
pub record IsMasked (local domain shown : Text) : Type 0 where
  pub kept : ℕ
  pub hidden : ℕ
  pub kept_le : kept ≤ 2
  pub hidden_ge : 2 ≤ hidden
  pub hidden_le : hidden ≤ 8
  pub shown_eq : shown ≡ take kept local ++ replicate hidden bullet ++ b'@' ∷ domain

mask_parts-IsMasked :
    (local domain : Text) → IsMasked local domain (mask_parts (some (local, domain)))
unfolding mask_parts
mask_parts-IsMasked local domain = elim (Bool-cases (leb (length local) 2)) [
  | inl e ↦ rw e (record {
    kept = 1;
    hidden = min (max (length local - length (take 1 local)) 2) 8;
    kept_le = omega arith;
    hidden_ge = omega arith;
    hidden_le = omega arith;
    shown_eq = refl;
  })
  | inr e ↦ rw e (record {
    kept = 2;
    hidden = min (max (length local - length (take 2 local)) 2) 8;
    kept_le = omega arith;
    hidden_ge = omega arith;
    hidden_le = omega arith;
    shown_eq = refl;
  })
]

module _ (lower : Text → Text) where
  -- Of a value that normalises to a local part and a domain, the mask is as `IsMasked` says.
  mask_email-IsMasked :
      (value local domain : Text)
      → normalize_email lower value ≡ local ++ b'@' ∷ domain
      → has_char b'@' domain ≡ false
      → IsMasked local domain (mask_email lower value)
  unfolding mask_email
  mask_email-IsMasked value local domain e h =
      rw (e, rcut-append b'@' local domain h) (mask_parts-IsMasked local domain)

  -- What has no `@` is hidden whole.
  pub mask_email-absent :
      (value : Text)
      → has_char b'@' (normalize_email lower value) ≡ false
      → mask_email lower value ≡ codes "***"
  unfolding mask_email
  mask_email-absent value h = rw (rcut-absent b'@' (normalize_email lower value) h)
