-- ===== src/Redaction/Keeps.antt =====
-- What all characters of a text pass, the parts of the text that `sanitize_error` of app/services.py
-- takes pass, and so do its substitutions.
use token_loom.Prelude.{
  ℕ, zero, suc, ◌-◌, ◌≡◌, refl, sym, subst, Bool, true, Option, some, [], ◌∷◌, ◌++◌, drop,
  replicate, all, Text, lstrip_by, rstrip_before, rstrip_by, rcut, rcut_before, arith, inl, inr,
  Option-cases, all-append,
}
use token_loom.Redaction.Matches.{sub_matches-none, sub_matches-some}
use token_loom.Redaction.{sub_matches, span}

module _ (q : ℕ → Bool) where
  head_of : (c : ℕ) (s : Text) → all q (c ∷ s) ≡ true → q c ≡ true
  head_of c s h = ground (arith, h)

  pub tail_of : (c : ℕ) (s : Text) → all q (c ∷ s) ≡ true → all q s ≡ true
  tail_of c s h = ground (arith, h)

  pub all-cons : (c : ℕ) (s : Text) → q c ≡ true → all q s ≡ true → all q (c ∷ s) ≡ true
  all-cons c s h k = ground (arith, h, k)

  pub all-drop : (n : ℕ) (s : Text) → all q s ≡ true → all q (drop n s) ≡ true
  all-drop zero s h = h
  all-drop (suc n) [] h = refl
  all-drop (suc n) (c ∷ s) h = ground (arith, h, all-drop n s)

  pub all-replicate : (n c : ℕ) → q c ≡ true → all q (replicate n c) ≡ true
  all-replicate zero c h = refl
  all-replicate (suc n) c h = ground (arith, h, all-replicate n c h)

  pub all-append_both : (a b : Text) → all q a ≡ true → all q b ≡ true → all q (a ++ b) ≡ true
  all-append_both a b h k = ground (arith, h, k, all-append q a b)

  pub all-span :
      (p : ℕ → Bool) (s : Text)
      → all q s ≡ true
      → (all q (span p s).0 ≡ true) × (all q (span p s).1 ≡ true)
  unfolding span
  all-span p [] h = (refl, refl)
  all-span p (c ∷ s) h = ground (arith, h, all-span p s)

  pub all-rstrip_by : (p : ℕ → Bool) (s : Text) → all q s ≡ true → all q (rstrip_by p s) ≡ true
  unfolding rstrip_by rstrip_before
  all-rstrip_by p [] h = refl
  all-rstrip_by p (c ∷ s) h = ground (arith, h, all-rstrip_by p s)

  pub all-lstrip_by : (p : ℕ → Bool) (s : Text) → all q s ≡ true → all q (lstrip_by p s) ≡ true
  unfolding lstrip_by
  all-lstrip_by p [] h = refl
  all-lstrip_by p (c ∷ s) h = ground (arith, h, all-lstrip_by p s)

  pub all-rcut :
      (c : ℕ) (s : Text) {a b : Text}
      → all q s ≡ true
      → rcut c s ≡ some (a, b)
      → (all q a ≡ true) × (all q b ≡ true)
  unfolding rcut rcut_before
  all-rcut c [] h e = cc
  all-rcut c (d ∷ s) h e = elim (Option-cases (rcut c s)) [
    | inl n ↦ ground (arith, h, e, n)
    | inr ((x, y), f) ↦
        let ih = all-rcut c s {a = x} {b = y} (ground (arith, h)) f in
        ground (arith, h, e, f, ih.0, ih.1)
  ]

  -- A substitution keeps what the text and its replacements pass.
  module _ (found : Option ℕ → Text → Option (Text × ℕ)) where
    module _
        (good : (before : Option ℕ) (s r : Text) (n : ℕ)
          → all q s ≡ true
          → found before s ≡ some (r, n)
          → all q r ≡ true) where
      pub all-sub_matches :
          (before : Option ℕ) (skip : ℕ) (s : Text)
          → all q s ≡ true
          → all q (sub_matches found before skip s) ≡ true
      unfolding sub_matches
      all-sub_matches before skip [] h = refl
      all-sub_matches before (suc skip) (c ∷ s) h = all-sub_matches (some c) skip s (tail_of c s h)
      all-sub_matches before zero (c ∷ s) h = elim (Option-cases (found before (c ∷ s))) [
        | inl e ↦
            subst (λ t. all q t ≡ true) (sym (sub_matches-none found before c s e))
              (all-cons c _ (head_of c s h) (all-sub_matches (some c) 0 s (tail_of c s h)))
        | inr ((r, n), e) ↦
            subst (λ t. all q t ≡ true) (sym (sub_matches-some found before c s r n e))
              (all-append_both r _ (good before (c ∷ s) r n h e)
                (all-sub_matches (some c) (n - 1) s (tail_of c s h)))
      ]
