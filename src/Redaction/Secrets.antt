-- ===== src/Redaction/Secrets.antt =====
-- The first substitution of `sanitize_error` in app/services.py, on a text that gives a secret.
use token_loom.Prelude.{
  ℕ, suc, ◌+◌, ◌-◌, ◌≤◌, ◌≡◌, refl, sym, ap, ◌∙◌, subst, true, false, not, Option, none, some, [],
  ◌∷◌, ◌++◌, is_empty, length, all, Text, is_space, arith, length-append, append_assoc,
}
use token_loom.Redaction.Matches.{sub_matches-some}
use token_loom.Redaction.{sub_matches, hidden, is_quote, is_value_char, secret_value, match_secret}
use token_loom.Redaction.Labels.{
  stops, optional-append, span-append, take_front, spelled, is_value_char-no, stops-quotes, Label,
  labelled, IsLabel, match_secret_found,
}

-- `match_secret` does not look at what stands before the match.
sub_matches_before :
    (before : Option ℕ) (s : Text)
    → sub_matches match_secret before 0 s ≡ sub_matches match_secret none 0 s
unfolding sub_matches match_secret
sub_matches_before before [] = refl
sub_matches_before before (c ∷ s) = refl

sub_matches_skip :
    (before : Option ℕ) (a s : Text)
    → sub_matches match_secret before (length a) (a ++ s) ≡ sub_matches match_secret none 0 s
unfolding sub_matches
sub_matches_skip before [] s = sub_matches_before before s
sub_matches_skip before (c ∷ a) s = sub_matches_skip (some c) a s

suc_pred : (n : ℕ) → suc n - 1 ≡ n
suc_pred n = omega arith

sub_matches_found :
    (before : Option ℕ) (a s r : Text)
    → is_empty a ≡ false
    → match_secret before (a ++ s) ≡ some (r, length a)
    → sub_matches match_secret before 0 (a ++ s) ≡ r ++ sub_matches match_secret none 0 s
sub_matches_found before [] s r h e = absurd (ground (arith, h))
sub_matches_found before (c ∷ a) s r h e =
    sub_matches-some match_secret before c (a ++ s) r (length (c ∷ a)) e
    ∙ ap (λ n. r ++ sub_matches match_secret (some c) n (a ++ s)) (suc_pred (length a))
    ∙ ap (λ t. r ++ t) (sub_matches_skip (some c) a s)

secret_length :
    (s quote value : Text) → length s + length quote + length value ≡ length (s ++ (quote ++ value))
secret_length s quote value =
    omega (arith, length-append s (quote ++ value), length-append quote value)

secret_value_found :
    (s quote value tail : Text)
    → all is_quote quote ≡ true
    → length quote ≤ 1
    → all is_value_char value ≡ true
    → is_empty value ≡ false
    → stops is_value_char tail ≡ true
    → secret_value (s ++ (quote ++ (value ++ tail))) (quote ++ (value ++ tail))
      ≡ some (s ++ hidden, length (s ++ (quote ++ value)))
unfolding secret_value
secret_value_found s quote [] tail h k v w t = absurd (ground (arith, w))
secret_value_found s quote (c ∷ value) tail h k v w t =
    let no_quote = (is_value_char-no c (ground (arith, v))).1 in
    rw
      (
        take_front s (quote ++ (c ∷ value ++ tail)),
        optional-append is_quote quote (c ∷ value ++ tail) h k (ap not no_quote),
        span-append is_value_char (c ∷ value) tail v t,
      )
      (ap (λ n. some (s ++ hidden, n)) (secret_length s quote (c ∷ value)))

abbrev label_of : Label → Text
label_of l =
    l.opening
    ++ (spelled l.word ++ (l.closing ++ (l.before_separator ++ l.separator ∷ l.behind_separator)))

labelled-split : (l : Label) (s : Text) → labelled l s ≡ label_of l ++ s
labelled-split l s = simp (append_assoc)

is_empty-append : (a b : Text) → is_empty b ≡ false → is_empty (a ++ b) ≡ false
is_empty-append [] b h = h
is_empty-append (c ∷ a) b h = refl

value-stops :
    (value tail : Text)
    → all is_value_char value ≡ true
    → is_empty value ≡ false
    → stops is_space (value ++ tail) ≡ true
value-stops [] tail v w = absurd (ground (arith, w))
value-stops (c ∷ value) tail v w = ap not (is_value_char-no c (ground (arith, v))).0

labelled-append :
    (l : Label) (quote value tail : Text)
    → labelled l (quote ++ (value ++ tail)) ≡ label_of l ++ (quote ++ value) ++ tail
labelled-append l quote value tail = simp (append_assoc)

-- Where a text goes on with one of the three words, in quotes or not, a colon or an equals sign and
-- a value, in a quote or not, the first substitution puts `hidden` in the place of the value and of
-- the quote before it, keeps what stands before them and goes on behind the value.
pub match_secret-hides :
    (l : Label) (quote value tail : Text) (before : Option ℕ)
    → IsLabel l
    → all is_quote quote ≡ true
    → length quote ≤ 1
    → all is_value_char value ≡ true
    → is_empty value ≡ false
    → stops is_value_char tail ≡ true
    → sub_matches match_secret before 0 (labelled l (quote ++ (value ++ tail)))
      ≡ labelled l (hidden ++ sub_matches match_secret none 0 tail)
match_secret-hides l quote value tail before ok h k v w t =
    let rest = quote ++ (value ++ tail) in
    let split = labelled-split l rest in
    let found =
      match_secret_found l ok before rest
        (stops-quotes quote (value ++ tail) h (value-stops value tail v w))
      ∙ ap (λ s. secret_value s rest) split
      ∙ secret_value_found (label_of l) quote value tail h k v w t in
    let joined = labelled-append l quote value tail in
    ap (sub_matches match_secret before 0) joined
    ∙ sub_matches_found before (label_of l ++ (quote ++ value)) tail (label_of l ++ hidden)
        (is_empty-append (label_of l) (quote ++ value) (is_empty-append quote value w))
        (subst
          (λ s.
            match_secret before s
            ≡ some (label_of l ++ hidden, length (label_of l ++ (quote ++ value))))
          joined found)
    ∙ append_assoc (label_of l) hidden (sub_matches match_secret none 0 tail)
    ∙ sym (labelled-split l (hidden ++ sub_matches match_secret none 0 tail))
