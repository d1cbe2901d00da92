-- ===== src/Redaction/Matches.antt =====
-- One match of a substitution of `sanitize_error` in app/services.py.
use token_loom.Prelude.{ℕ, ◌-◌, ◌≡◌, refl, Option, none, some, ◌∷◌, ◌++◌, Text}
use token_loom.Redaction.{sub_matches}

module _ (found : Option ℕ → Text → Option (Text × ℕ)) where
  pub sub_matches-none :
      (before : Option ℕ) (c : ℕ) (s : Text)
      → found before (c ∷ s) ≡ none
      → sub_matches found before 0 (c ∷ s) ≡ c ∷ sub_matches found (some c) 0 s
  unfolding sub_matches
  sub_matches-none before c s e = rw (e, sub_matches) refl

  pub sub_matches-some :
      (before : Option ℕ) (c : ℕ) (s r : Text) (n : ℕ)
      → found before (c ∷ s) ≡ some (r, n)
      → sub_matches found before 0 (c ∷ s) ≡ r ++ sub_matches found (some c) (n - 1) s
  unfolding sub_matches
  sub_matches-some before c s r n e = rw (e, sub_matches) refl
