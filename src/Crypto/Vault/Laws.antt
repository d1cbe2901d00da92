-- ===== src/Crypto/Vault/Laws.antt =====
-- What the vault of app/crypto.py promises: round trip, binding to the context, upgrade.
use token_loom.Prelude.{
  ◌≡◌, ◌≢◌, refl, sym, ap, ◌∙◌, false, some, ◌++◌, inl, inr, length, Text, starts_with, ok, err,
  ◌>>=◌, or_raise, arith, Bool-cases, >>=-eq-ok, or_raise-eq-ok, append_injective, take-append,
  drop-append,
}
use token_loom.Prelude.Utf8.{Bytes, encode, decode-encode}
use token_loom.Crypto.Vault.{
  bad_tag, bad_text, Primitives, AreSound, bound_prefix, aad_prefix, aad, needs_upgrade, seal,
  unpack, open_value, upgrade,
}

aad-eq_ok :
    (context : Text) {bound : Bytes}
    → aad context ≡ ok bound
    → (bytes : Bytes) × (encode context ≡ some bytes) × (bound ≡ aad_prefix ++ bytes)
unfolding aad
aad-eq_ok context h =
    let (bytes, e, rest) = >>=-eq-ok (or_raise (encode context) bad_text) _ h in
    (bytes, or_raise-eq-ok (encode context) bad_text e, ground arith)

-- The context can be read back from what is authenticated.
aad_injective : (c d : Text) {bound : Bytes} → aad c ≡ ok bound → aad d ≡ ok bound → c ≡ d
aad_injective c d p q =
    let (b, e, f) = aad-eq_ok c p in
    let (b', e', f') = aad-eq_ok d q in
    let (_, same) = append_injective aad_prefix aad_prefix b b' refl (sym f ∙ f') in
    cc (decode-encode c e, decode-encode d e', same)

module _ (p : Primitives) where
  seal-eq_ok :
      (value context : Text) (nonce : Bytes) {sealed : Bytes}
      → seal p value context nonce ≡ ok sealed
      → (bytes : Bytes) × (bound : Bytes) × (encode value ≡ some bytes)
        × (aad context ≡ ok bound)
        × (sealed ≡ bound_prefix ++ nonce ++ p.encrypt nonce (p.compress bytes) bound)
  unfolding seal
  seal-eq_ok value context nonce h =
      let (bytes, e, rest) = >>=-eq-ok (or_raise (encode value) bad_text) _ h in
      let (bound, f, last) = >>=-eq-ok (aad context) _ rest in
      (bytes, bound, or_raise-eq-ok (encode value) bad_text e, f, ground arith)

  -- `open` takes a sealed value apart where `seal` has put it together.
  open_value-bound :
      (nonce payload : Bytes) (context : Text)
      → length nonce ≡ 12
      → open_value p (bound_prefix ++ nonce ++ payload) context
        ≡ (aad context >>= λ bound. unpack p (p.decrypt nonce payload bound))
  unfolding open_value starts_with
  open_value-bound nonce payload context h =
      rw (take-append 12 nonce payload h, drop-append 12 nonce payload h)

  unpack-compress :
      AreSound p
      → (value : Text) {bytes : Bytes} → encode value ≡ some bytes
      → unpack p (some (p.compress bytes)) ≡ ok value
  unfolding unpack
  unpack-compress sound value {bytes} e =
      rw (sound.decompress-compress bytes, decode-encode value e)

  module _ (sound : AreSound p) (value context : Text) (nonce : Bytes) {sealed : Bytes}
      (twelve : length nonce ≡ 12) (done : seal p value context nonce ≡ ok sealed) where
    -- For sound primitives, what was sealed with twelve bytes of nonce opens to itself under its
    -- context.
    pub open_value-seal : open_value p sealed context ≡ ok value
    open_value-seal =
        let (bytes, bound, e, f, form) = seal-eq_ok value context nonce done in
        rw (form, open_value-bound nonce (p.encrypt nonce (p.compress bytes) bound) context twelve)
          (rw (f, sound.decrypt-encrypt nonce (p.compress bytes) bound)
            (unpack-compress sound value e))

    -- For sound primitives, it is refused under every other context that is valid.
    pub open_value-seal_ne :
        (other : Text) {bound : Bytes}
        → context ≢ other
        → aad other ≡ ok bound
        → open_value p sealed other ≡ err bad_tag
    open_value-seal_ne other {bound = bound'} ne g =
        let (bytes, bound, e, f, form) = seal-eq_ok value context nonce done in
        let differ : bound ≢ bound' = λ same. ne (aad_injective context other (f ∙ ap ok same) g) in
        rw (form, open_value-bound nonce (p.encrypt nonce (p.compress bytes) bound) other twelve)
          (rw (g, sound.decrypt-other nonce (p.compress bytes) bound bound' differ)
            (unfold unpack in refl))

    -- A sealed value wants no upgrade.
    pub needs_upgrade-seal : needs_upgrade sealed ≡ false
    unfolding needs_upgrade starts_with
    needs_upgrade-seal = let (_, _, _, _, form) = seal-eq_ok value context nonce done in rw form

  -- For sound primitives and a nonce of twelve bytes, an upgrade that succeeds opens as the value did,
  -- and needs no further one.
  pub upgrade_keeps :
      AreSound p
      → (value : Bytes) (context : Text) (nonce : Bytes) {upgraded : Bytes} → length nonce ≡ 12
      → upgrade p value context nonce ≡ ok upgraded
      → (open_value p upgraded context ≡ open_value p value context)
        × (needs_upgrade upgraded ≡ false)
  unfolding upgrade
  upgrade_keeps sound value context nonce {upgraded} twelve h =
      elim (Bool-cases (needs_upgrade value)) [
        | inl e ↦
            let body = rw e at h in
            let (text, opened, sealed) = >>=-eq-ok (open_value p value context) _ body in
            (
              open_value-seal sound text context nonce twelve sealed ∙ sym opened,
              needs_upgrade-seal sound text context nonce twelve sealed,
            )
        | inr e ↦ let kept : value ≡ upgraded = cc (rw e at h) in rw (← kept) (refl, e)
      ]
