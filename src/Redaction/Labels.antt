-- ===== src/Redaction/Labels.antt =====
-- Where the first pattern of `sanitize_error` in app/services.py finds a value: its words, with quotes,
-- blanks and a separator.
use token_loom.Prelude.{
  ℕ, ◌-◌, ◌≤◌, ◌≡◌, refl, ap, Bool, true, false, not, Option, some, [], ◌∷◌, ◌++◌, length, take,
  all, Text, codes, is_space, arith, length-append, take-append,
}
use token_loom.Redaction.{
  span, optional, same_letter, after_word, after_keyword, is_quote, is_separator, is_value_char,
  secret_value, secret_separator, match_secret,
}

-- the text does not go on with such a character
abbrev pub stops : (ℕ → Bool) → Text → Bool
stops p [] = true
stops p (c ∷ s) = not (p c)

module _ (p : ℕ → Bool) where
  pub optional-append :
      (a s : Text) → all p a ≡ true → length a ≤ 1 → stops p s ≡ true → optional p (a ++ s) ≡ (a, s)
  unfolding optional
  optional-append [] [] h l k = refl
  optional-append [] (c ∷ s) h l k = ground (arith, k)
  optional-append (c ∷ []) s h l k = ground (arith, h)
  optional-append (c ∷ d ∷ a) s h l k = absurd (omega (arith, l))

  pub span-append : (a s : Text) → all p a ≡ true → stops p s ≡ true → span p (a ++ s) ≡ (a, s)
  unfolding span
  span-append [] [] h k = refl
  span-append [] (c ∷ s) h k = ground (arith, k)
  span-append (c ∷ a) s h k = ground (arith, h, span-append a s)

pub take_front : (a s : Text) → take (length (a ++ s) - length s) (a ++ s) ≡ a
take_front a s = take-append (length (a ++ s) - length s) a s (omega (arith, length-append a s))

-- the words of the pattern
pub data SecretWord : Type 0 where
  refresh_word : SecretWord
  access_word : SecretWord
  password_word : SecretWord

abbrev pub spelled : SecretWord → Text
spelled refresh_word = codes "refresh_token"
spelled access_word = codes "access_token"
spelled password_word = codes "password"

after_keyword-spelled : (w : SecretWord) (s : Text) → after_keyword (spelled w ++ s) ≡ some s
unfolding after_keyword after_word same_letter
after_keyword-spelled refresh_word s = refl
after_keyword-spelled access_word s = refl
after_keyword-spelled password_word s = refl

stops-spelled : (w : SecretWord) (s : Text) → stops is_quote (spelled w ++ s) ≡ true
unfolding is_quote
stops-spelled refresh_word s = refl
stops-spelled access_word s = refl
stops-spelled password_word s = refl

is_space-quote : (c : ℕ) → is_quote c ≡ true → is_space c ≡ false
unfolding is_quote is_space
is_space-quote c h = grind (arith, h)

is_space-separator : (c : ℕ) → is_separator c ≡ true → is_space c ≡ false
unfolding is_separator is_space
is_space-separator c h = grind (arith, h)

is_quote-space : (c : ℕ) → is_space c ≡ true → is_quote c ≡ false
unfolding is_quote is_space
is_quote-space c h = grind (arith, h)

is_quote-separator : (c : ℕ) → is_separator c ≡ true → is_quote c ≡ false
unfolding is_separator is_quote
is_quote-separator c h = grind (arith, h)

pub is_value_char-no :
    (c : ℕ) → is_value_char c ≡ true → (is_space c ≡ false) × (is_quote c ≡ false)
unfolding is_value_char
is_value_char-no c h = ground (arith, h)

stops-spaces :
    (p : ℕ → Bool) (a s : Text)
    → ((c : ℕ) → is_space c ≡ true → p c ≡ false)
    → all is_space a ≡ true
    → stops p s ≡ true
    → stops p (a ++ s) ≡ true
stops-spaces p [] s other h k = k
stops-spaces p (c ∷ a) s other h k = ground (arith, h, other c)

pub stops-quotes :
    (a s : Text) → all is_quote a ≡ true → stops is_space s ≡ true → stops is_space (a ++ s) ≡ true
stops-quotes [] s h k = k
stops-quotes (c ∷ a) s h k = ground (arith, h, is_space-quote c)

-- the parts of a text that gives a secret, up to its value
pub record Label : Type 0 where
  pub opening : Text
  pub word : SecretWord
  pub closing : Text
  pub before_separator : Text
  pub separator : ℕ
  pub behind_separator : Text

abbrev pub labelled : Label → Text → Text
labelled l s =
    l.opening
    ++ (spelled l.word
        ++ (l.closing ++ (l.before_separator ++ l.separator ∷ (l.behind_separator ++ s))))

-- at most one quote around the word, blanks around a colon or an equals sign
pub record IsLabel (l : Label) : Type 0 where
  pub opening_quotes : all is_quote l.opening ≡ true
  pub opening_le : length l.opening ≤ 1
  pub closing_quotes : all is_quote l.closing ≡ true
  pub closing_le : length l.closing ≤ 1
  pub before_spaces : all is_space l.before_separator ≡ true
  pub separates : is_separator l.separator ≡ true
  pub behind_spaces : all is_space l.behind_separator ≡ true

module _ (l : Label) (ok : IsLabel l) where
  word_found :
      (s : Text)
      → optional is_quote (l.opening ++ (spelled l.word ++ s)) ≡ (l.opening, spelled l.word ++ s)
  word_found s =
      optional-append is_quote l.opening (spelled l.word ++ s) ok.opening_quotes ok.opening_le
        (stops-spelled l.word s)

  closing_found :
      (s : Text)
      → optional is_quote (l.closing ++ (l.before_separator ++ l.separator ∷ s))
        ≡ (l.closing, l.before_separator ++ l.separator ∷ s)
  closing_found s = optional-append is_quote l.closing _ ok.closing_quotes ok.closing_le (
      stops-spaces is_quote l.before_separator (l.separator ∷ s) is_quote-space ok.before_spaces
        (ap not (is_quote-separator l.separator ok.separates)))

  spaces_found :
      (s : Text)
      → span is_space (l.before_separator ++ l.separator ∷ s)
        ≡ (l.before_separator, l.separator ∷ s)
  spaces_found s =
      span-append is_space l.before_separator (l.separator ∷ s) ok.before_spaces
        (ap not (is_space-separator l.separator ok.separates))

  separator_found : (s : Text) → optional is_separator (l.separator ∷ s) ≡ (l.separator ∷ [], s)
  unfolding optional
  separator_found s = ground (arith, ok.separates)

  secret_separator_found :
      (t s : Text)
      → stops is_space s ≡ true
      → secret_separator t
          (l.closing ++ (l.before_separator ++ l.separator ∷ (l.behind_separator ++ s)))
        ≡ secret_value t s
  unfolding secret_separator
  secret_separator_found t s k =
      rw
        (
          closing_found (l.behind_separator ++ s),
          spaces_found (l.behind_separator ++ s),
          separator_found (l.behind_separator ++ s),
          span-append is_space l.behind_separator s ok.behind_spaces k,
        )
        refl

  pub match_secret_found :
      (before : Option ℕ) (s : Text)
      → stops is_space s ≡ true
      → match_secret before (labelled l s) ≡ secret_value (labelled l s) s
  unfolding match_secret
  match_secret_found before s k =
      let rest = l.closing ++ (l.before_separator ++ l.separator ∷ (l.behind_separator ++ s)) in
      rw (match_secret, word_found rest, after_keyword-spelled l.word rest)
        (secret_separator_found (labelled l s) s k)
