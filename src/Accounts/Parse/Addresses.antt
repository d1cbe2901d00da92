-- ===== src/Accounts/Parse/Addresses.antt =====
-- The pattern of an address, as a language, and the test that decides it.
use token_loom.Prelude.{
  ◌≡◌, ◌≢◌, refl, ap, true, false, Option, none, some, [], ◌∷◌, ◌++◌, ◌↔◌, inl, inr, all, Text,
  has_char, cut, is_space, arith, Bool-cases, ◌==◌, append_assoc, all-append, is_empty-eq_true,
}
use token_loom.Prelude.Cuts.{cut-append, cut-eq_some}
use token_loom.Accounts.Parse.{is_plain, has_dot_inside, is_host, is_address_parts, is_address}

-- `[^\s@]+`
pub record IsWord (s : Text) : Type 0 where
  pub nonempty : s ≢ []
  pub plain : all is_plain s ≡ true

-- `[^\s@]+@[^\s@]+\.[^\s@]+`
pub record IsAddress (s : Text) : Type 0 where
  pub local : Text
  pub host : Text
  pub top : Text
  pub local_word : IsWord local
  pub host_word : IsWord host
  pub top_word : IsWord top
  pub form : s ≡ local ++ b'@' ∷ host ++ b'.' ∷ top

plain-no_at : (s : Text) → all is_plain s ≡ true → has_char b'@' s ≡ false
unfolding is_plain has_char
plain-no_at [] h = refl
plain-no_at (c ∷ s) h = ground (arith, plain-no_at s)

has_dot_inside-append : (a b : Text) → b ≢ [] → has_dot_inside (a ++ b'.' ∷ b) ≡ true
unfolding has_dot_inside
has_dot_inside-append [] [] h = absurd (h refl)
has_dot_inside-append [] (x ∷ b) h = refl
has_dot_inside-append (x ∷ a) b h = rw (has_dot_inside-append a b h) (ground arith)

dot_inside :
    (s : Text) → has_dot_inside s ≡ true → (a : Text) × (b : Text) × (b ≢ []) × (s ≡ a ++ b'.' ∷ b)
unfolding has_dot_inside
dot_inside [] h = cc
dot_inside (c ∷ []) h = ground arith
dot_inside (c ∷ d ∷ s) h = elim (Bool-cases (c == b'.')) [
  | inl e ↦ ([], d ∷ s, ground arith, ground arith)
  | inr e ↦
      let (a, b, ne, form) = dot_inside (d ∷ s) (ground arith) in
      (c ∷ a, b, ne, ap (λ (t : Text). c ∷ t) form)
]

dot-plain : is_plain b'.' ≡ true
unfolding is_plain is_space
dot-plain = refl

is_host-append : (host top : Text) → IsWord host → IsWord top → is_host (host ++ b'.' ∷ top) ≡ true
unfolding is_host
is_host-append [] top h t = absurd (h.nonempty refl)
is_host-append (c ∷ a) top h t = ground (
  arith,
  dot-plain,
  h.plain,
  t.plain,
  all-append is_plain a (b'.' ∷ top),
  has_dot_inside-append a top t.nonempty,
)

-- The test accepts every text of the pattern.
pub is_address_complete : (s : Text) → IsAddress s → is_address s ≡ true
unfolding is_address
is_address_complete s h =
    rw
      (
        h.form,
        append_assoc,
        cut-append b'@' h.local (h.host ++ b'.' ∷ h.top) (plain-no_at h.local h.local_word.plain),
      )
      (ground (
        arith,
        h.local_word.nonempty,
        h.local_word.plain,
        is_empty-eq_true h.local,
        is_host-append h.host h.top h.host_word h.top_word,
      ))

host_parts :
    (s : Text)
    → is_host s ≡ true
    → (host : Text) × (top : Text) × IsWord host × IsWord top × (s ≡ host ++ b'.' ∷ top)
unfolding is_host
host_parts [] h = cc
host_parts (c ∷ s) h =
    let (a, b, ne, form) = dot_inside s (ground arith) in
    let plain : (all is_plain (a ++ b'.' ∷ b)) ≡ true = rw (← form) (ground arith) in
    (
      c ∷ a,
      b,
      record { nonempty = ground arith; plain = ground (arith, all-append is_plain a (b'.' ∷ b)) },
      record { nonempty = ne; plain = ground (arith, all-append is_plain a (b'.' ∷ b)) },
      ap (λ (t : Text). c ∷ t) form,
    )

address_of_parts :
    (s : Text) (o : Option (Text × Text)) → cut b'@' s ≡ o → is_address_parts o ≡ true → IsAddress s
unfolding is_address_parts
address_of_parts s none e h = cc
address_of_parts s (some (local, rest)) e h =
    let (host, top, host-word, top-word, form) = host_parts rest (ground arith) in
    let (whole, _) = cut-eq_some b'@' s local rest e in
    record {
      local = local;
      host = host;
      top = top;
      local_word = record { nonempty = ground arith; plain = ground arith };
      host_word = host-word;
      top_word = top-word;
      form = rw (whole, form, append_assoc);
    }

-- The test accepts nothing else.
pub is_address_sound : (s : Text) → is_address s ≡ true → IsAddress s
unfolding is_address
is_address_sound s h = address_of_parts s (cut b'@' s) refl h

-- The test accepts a text exactly if it has the form of an address.
is_address_lem : (s : Text) → (is_address s ≡ true) ↔ IsAddress s
is_address_lem s = (is_address_sound s, is_address_complete s)
