-- ===== src/Redaction/Clean.antt =====
-- What `sanitize_error` of app/services.py lets through: no line breaks and no tabs, and no more than
-- the limit.
use token_loom.Prelude.{
  ℕ, ◌-◌, ◌≤◌, ◌≡◌, refl, ap, Bool, true, false, ◌||◌, not, Option, none, some, [], ◌∷◌, ◌++◌, ◌==◌,
  if◌then◌else◌, is_empty, length, take, drop, replicate, all, Text, codes, is_space, strip,
  rstrip_by, rcut, arith, inl, inr, Bool-cases, Option-cases, length-take,
}
use token_loom.Prelude.Runs.{sub_runs, all-sub_runs, all-take}
use token_loom.Crypto.Email.{bullet, normalize_email, visible_of, mask_parts, mask_email}
use token_loom.Redaction.{
  sub_matches, span, optional, hidden, after_keyword, secret_value, secret_separator, is_quote,
  is_separator, match_secret, at_boundary, after_word, bearer_token, match_bearer,
  redact_email_match, email_domain, match_email, is_line_char, is_part_char, is_trailing,
  unknown_error, sanitize_error,
}
use token_loom.Redaction.Keeps.{
  tail_of, all-cons, all-drop, all-replicate, all-append_both, all-span, all-rstrip_by,
  all-lstrip_by, all-rcut, all-sub_matches,
}

abbrev pub is_clean : ℕ → Bool
is_clean c = not (is_line_char c)

is_line_char-no : (c : ℕ) → (c == 13 || c == 10 || c == 9) ≡ false → is_clean c ≡ true
unfolding is_line_char
is_line_char-no c h = ground (arith, h)

visible_of-clean :
    (local : Text) → all is_clean local ≡ true → all is_clean (visible_of local) ≡ true
unfolding visible_of
visible_of-clean local h = ground (arith, all-take is_clean 1 local h, all-take is_clean 2 local h)

mask_parts-clean :
    (local domain : Text)
    → all is_clean local ≡ true
    → all is_clean domain ≡ true
    → all is_clean (mask_parts (some (local, domain))) ≡ true
unfolding mask_parts
mask_parts-clean local domain h k =
    all-append_both is_clean (visible_of local ++ replicate _ bullet) (b'@' ∷ domain)
      (all-append_both is_clean (visible_of local) (replicate _ bullet) (visible_of-clean local h)
        (all-replicate is_clean _ bullet (is_line_char-no bullet refl)))
      (all-cons is_clean b'@' domain (is_line_char-no b'@' refl) k)

module _ (lower : Text → Text)
    (low : (s : Text) → all is_clean s ≡ true → all is_clean (lower s) ≡ true) where
  normalize_email-clean :
      (value : Text) → all is_clean value ≡ true → all is_clean (normalize_email lower value) ≡ true
  unfolding normalize_email strip
  normalize_email-clean value h =
      low _ (all-rstrip_by is_clean is_space _ (all-lstrip_by is_clean is_space value h))

  mask_email-clean :
      (value : Text) → all is_clean value ≡ true → all is_clean (mask_email lower value) ≡ true
  unfolding mask_email normalize_email is_line_char
  mask_email-clean value h = elim (Option-cases (rcut b'@' (normalize_email lower value))) [
    | inl e ↦ rw e refl
    | inr ((a, b), e) ↦
        let cut =
          all-rcut is_clean b'@' (normalize_email lower value) (normalize_email-clean value h) e in
        rw e (mask_parts-clean a b cut.0 cut.1)
  ]

hidden-clean : all is_clean hidden ≡ true
unfolding is_line_char
hidden-clean = refl

bearer-clean : all is_clean (codes "Bearer " ++ hidden) ≡ true
unfolding is_line_char
bearer-clean = refl

unknown_error-clean : all is_clean unknown_error ≡ true
unfolding is_line_char
unknown_error-clean = refl

secret_value-clean :
    (s rest r : Text) (n : ℕ)
    → all is_clean s ≡ true
    → secret_value s rest ≡ some (r, n)
    → all is_clean r ≡ true
unfolding secret_value
secret_value-clean s rest r n h e = ground (
  arith,
  e,
  all-append_both is_clean (take (length s - length rest) s) hidden
      (all-take is_clean (length s - length rest) s h) hidden-clean,
)

secret_separator-clean :
    (s rest r : Text) (n : ℕ)
    → all is_clean s ≡ true
    → secret_separator s rest ≡ some (r, n)
    → all is_clean r ≡ true
unfolding secret_separator
secret_separator-clean s rest r n h e =
    elim (Bool-cases
      (is_empty (optional is_separator (span is_space (optional is_quote rest).1).1).0)) [
        | inl k ↦ ground (arith, e, k)
        | inr k ↦
            secret_value-clean s
              (span is_space
                (optional is_separator (span is_space (optional is_quote rest).1).1).1).1
              r n h (ground (arith, e, k))
      ]

bearer_token-clean :
    (s rest r : Text) (n : ℕ) → bearer_token s rest ≡ some (r, n) → all is_clean r ≡ true
unfolding bearer_token
bearer_token-clean s rest r n e = ground (arith, e, bearer-clean)

match_secret-clean :
    (before : Option ℕ) (s r : Text) (n : ℕ)
    → all is_clean s ≡ true
    → match_secret before s ≡ some (r, n)
    → all is_clean r ≡ true
unfolding match_secret
match_secret-clean before s r n h e = elim (Option-cases (after_keyword (optional is_quote s).1)) [
  | inl k ↦ ground (arith, e, k)
  | inr (rest, k) ↦ secret_separator-clean s rest r n h (ground (arith, e, k))
]

match_bearer-clean :
    (is_word : ℕ → Bool) (before : Option ℕ) (s r : Text) (n : ℕ)
    → match_bearer is_word before s ≡ some (r, n)
    → all is_clean r ≡ true
unfolding match_bearer
match_bearer-clean is_word before s r n e = elim (Bool-cases (at_boundary is_word before)) [
  | inl k ↦ elim (Option-cases (after_word (codes "bearer") s)) [
    | inl o ↦ ground (arith, e, k, o)
    | inr (rest, o) ↦ bearer_token-clean s rest r n (ground (arith, e, k, o))
  ]
  | inr k ↦ ground (arith, e, k)
]

module _ (lower : Text → Text)
    (low : (s : Text) → all is_clean s ≡ true → all is_clean (lower s) ≡ true) where
  redact_email_match-clean :
      (raw : Text) → all is_clean raw ≡ true → all is_clean (redact_email_match lower raw) ≡ true
  unfolding redact_email_match
  redact_email_match-clean raw h =
      let email = rstrip_by is_trailing raw in
      all-append_both is_clean (mask_email lower email) (drop (length email) raw)
        (mask_email-clean lower low email (all-rstrip_by is_clean is_trailing raw h))
        (all-drop is_clean (length email) raw h)

  email_domain-clean :
      (local s r : Text) (n : ℕ)
      → all is_clean local ≡ true
      → all is_clean s ≡ true
      → email_domain lower local s ≡ some (r, n)
      → all is_clean r ≡ true
  unfolding email_domain
  email_domain-clean local [] r n h k e = ground (arith, e)
  email_domain-clean local (c ∷ rest) r n h k e =
      let domain = (span is_part_char rest).0 in
      let raw_clean = all-append_both is_clean local (b'@' ∷ domain) h (
        all-cons is_clean b'@' domain (is_line_char-no b'@' refl)
          (all-span is_clean is_part_char rest (tail_of is_clean c rest k)).0) in
      ground (arith, e, redact_email_match-clean (local ++ b'@' ∷ domain) raw_clean)

  match_email-clean :
      (before : Option ℕ) (s r : Text) (n : ℕ)
      → all is_clean s ≡ true
      → match_email lower before s ≡ some (r, n)
      → all is_clean r ≡ true
  unfolding match_email
  match_email-clean before s r n h e =
      let parts = all-span is_clean is_part_char s h in
      elim (Bool-cases (is_empty (span is_part_char s).0)) [
        | inl k ↦ ground (arith, e, k)
        | inr k ↦
            email_domain-clean (span is_part_char s).0 (span is_part_char s).1 r n parts.0 parts.1
              (ground (arith, e, k))
      ]

  -- If lowering a text adds no line break and no tab, the message that is kept for an error has none,
  -- whatever the error said, and has at most `limit` characters.
  pub sanitize_error-IsClean :
      (is_word : ℕ → Bool) (limit : ℕ) (is_true : Bool) (value : Text)
      → (all is_clean (sanitize_error lower is_word limit is_true value) ≡ true)
        × (length (sanitize_error lower is_word limit is_true value) ≤ limit)
  unfolding sanitize_error
  sanitize_error-IsClean is_word limit is_true value =
      let message = if is_true then value else unknown_error in
      let text = sub_runs is_line_char b' ' false message in
      let secrets = sub_matches match_secret none 0 text in
      let bearers = sub_matches (match_bearer is_word) none 0 secrets in
      let text_clean =
        all-sub_runs is_line_char b' ' is_clean false message (is_line_char-no b' ' refl)
          (λ c h. ap not h) in
      let secrets_clean =
        all-sub_matches is_clean match_secret match_secret-clean none 0 text text_clean in
      let bearers_clean =
        all-sub_matches is_clean (match_bearer is_word)
          (λ before s r n h e. match_bearer-clean is_word before s r n e) none 0 secrets
          secrets_clean in
      let emails_clean =
        all-sub_matches is_clean (match_email lower) match_email-clean none 0 bearers
          bearers_clean in
      (
        all-take is_clean limit _ emails_clean,
        omega (arith, length-take limit (sub_matches (match_email lower) none 0 bearers)),
      )
