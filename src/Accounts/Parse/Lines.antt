-- ===== src/Accounts/Parse/Lines.antt =====
-- What `parse_account_line` of app/services.py accepts, and that it reads back a written line.
use token_loom.Prelude.{
  ℕ, suc, ◌≤◌, ◌≡◌, ◌≢◌, refl, sym, ap, ◌∙◌, true, false, none, some, List, [], ◌∷◌, ◌++◌, is_empty,
  length, any, Text, codes, strip, starts_with, cut, ok, arith, append_assoc, length-append,
  is_empty-eq_true,
}
use token_loom.Prelude.Strips.{starts_with-append, strip-append}
use token_loom.Crypto.Email.{normalize_email}
use token_loom.Accounts.Parse.{
  ParsedAccount, separator, byte_order_mark, cut_at, split_at, is_address, is_control, strip_mark,
  check_parts, parse_parts, parse_stripped, parse_account_line,
}
use token_loom.Accounts.Parse.Addresses.{IsAddress, is_address_sound, is_address_complete}

module _ (lower : Text → Text) where
  -- An account that the parser may return: its address stood in the line before normalisation.
  pub record IsAccepted (a : ParsedAccount) : Type 0 where
    pub address : Text
    pub well_formed : IsAddress address
    pub normalized : a.email ≡ normalize_email lower address
    pub has_client : a.client_id ≢ []
    pub long_token : 20 ≤ length a.refresh_token
    pub printable : any is_control (address ++ a.client_id ++ a.refresh_token) ≡ false

  -- the account that the checked parts make
  abbrev account_of : Text → Text → Text → Text → ParsedAccount
  account_of e p c t = record {
    email = normalize_email lower e;
    password = p;
    client_id = c;
    refresh_token = t;
  }

  check_parts-eq_ok :
      (e p c t : Text) {a : ParsedAccount}
      → check_parts lower e p c t ≡ ok (some a)
      → (is_address e ≡ true)
        × (is_empty c ≡ false)
        × (20 ≤ length t)
        × (any is_control (e ++ c ++ t) ≡ false)
        × (account_of e p c t ≡ a)
  unfolding check_parts
  check_parts-eq_ok e p c t h = ground arith

  check_parts-IsAccepted :
      (e p c t : Text) {a : ParsedAccount} → check_parts lower e p c t ≡ ok (some a) → IsAccepted a
  check_parts-IsAccepted e p c t h =
      let (address, client, long, printable, form) = check_parts-eq_ok e p c t h in
      rw (← form) (record {
        address = e;
        well_formed = is_address_sound e address;
        normalized = refl;
        has_client = ground arith;
        long_token = long;
        printable = printable;
      })

  parse_parts-IsAccepted :
      (parts : List Text) {a : ParsedAccount} → parse_parts lower parts ≡ ok (some a) → IsAccepted a
  unfolding parse_parts
  parse_parts-IsAccepted (e ∷ p ∷ c ∷ t ∷ []) h =
      check_parts-IsAccepted (strip e) (strip p) (strip c) (strip t) h
  parse_parts-IsAccepted _ h = cc

  -- Every account that comes out of a line has a normalised well-formed address, a client id, a
  -- token of at least twenty characters, and no control character in the address, the client id and
  -- the token; nothing is said of its password.
  pub parse_account_line-IsAccepted :
      (raw : Text) {a : ParsedAccount} → parse_account_line lower raw ≡ ok (some a) → IsAccepted a
  unfolding parse_account_line parse_stripped
  parse_account_line-IsAccepted raw h =
      let line = strip_mark (strip raw) in parse_parts-IsAccepted (split_at 3 line) (ground arith)

-- A part that holds no separator, nor begins one with what follows.
abbrev pub IsSeparable : Text → Type 0
IsSeparable s = cut_at (s ++ codes "---") ≡ none

IsSeparable-tail :
    (c : ℕ) (x : Text)
    → IsSeparable (c ∷ x)
    → (starts_with separator (c ∷ x ++ codes "---") ≡ false) × IsSeparable x
unfolding cut_at
IsSeparable-tail c x h = ground arith

cut_at-append : (x r : Text) → IsSeparable x → cut_at (x ++ (separator ++ r)) ≡ some (x, r)
unfolding cut_at
cut_at-append [] r h =
    rw (starts_with-append separator separator r (omega arith)) (unfold starts_with in refl)
cut_at-append (c ∷ x) r h =
    let (not_here, later) = IsSeparable-tail c x h in
    let same : (c ∷ x) ++ (separator ++ r) ≡ (c ∷ x ++ codes "---") ++ b'-' ∷ r =
      sym (append_assoc (c ∷ x) (codes "---") (b'-' ∷ r)) in
    let front =
      starts_with-append separator (c ∷ x ++ codes "---") (b'-' ∷ r)
        (omega (arith, length-append (c ∷ x) (codes "---"))) in
    let here : starts_with separator ((c ∷ x) ++ (separator ++ r)) ≡ false =
      ap (starts_with separator) same ∙ front ∙ not_here in
    rw (here, cut_at-append x r later)

-- the line that holds four parts
abbrev pub line_of : Text → Text → Text → Text → Text
line_of email password client_id token =
    email ++ (separator ++ (password ++ (separator ++ (client_id ++ (separator ++ token)))))

split_at-append :
    (n : ℕ) (x r : Text)
    → IsSeparable x
    → split_at (suc n) (x ++ (separator ++ r)) ≡ x ∷ split_at n r
unfolding split_at
split_at-append n x r h = rw (cut_at-append x r h, split_at)

split_at-line_of :
    (e p c t : Text)
    → IsSeparable e
    → IsSeparable p
    → IsSeparable c
    → split_at 3 (line_of e p c t) ≡ e ∷ p ∷ c ∷ t ∷ []
split_at-line_of e p c t he hp hc =
    split_at-append 2 e (p ++ (separator ++ (c ++ (separator ++ t)))) he
    ∙ ap (λ (ts : List Text). e ∷ ts)
        (split_at-append 1 p (c ++ (separator ++ t)) hp
          ∙ ap (λ (ts : List Text). p ∷ ts) (split_at-append 0 c t hc ∙ unfold split_at in refl))

line_of-front :
    (e p c t : Text)
    → line_of e p c t ≡ (e ++ (separator ++ (p ++ (separator ++ (c ++ separator))))) ++ t
line_of-front e p c t = simp append_assoc

-- Four parts that a line can carry: stripped, and with no separator but in the token.
pub record IsWritable (e p c t : Text) : Type 0 where
  pub address : IsAddress e
  pub no_comment : starts_with (codes "#") e ≡ false
  pub no_mark : starts_with (byte_order_mark ∷ []) e ≡ false
  pub separable : IsSeparable e × IsSeparable p × IsSeparable c
  pub stripped : (strip e ≡ e) × (strip p ≡ p) × (strip c ≡ c) × (strip t ≡ t)
  pub has_client : c ≢ []
  pub long_token : 20 ≤ length t
  pub printable : any is_control (e ++ c ++ t) ≡ false

strip_mark-same :
    (c : ℕ) (s : Text)
    → starts_with (byte_order_mark ∷ []) (c ∷ s) ≡ false
    → strip_mark (c ∷ s) ≡ c ∷ s
unfolding strip_mark starts_with
strip_mark-same c s h = ground arith

address-nonempty : IsAddress [] → ⊥
address-nonempty h =
    let empty : is_address [] ≡ false = unfold is_address cut in refl in
    cc (is_address_complete [] h, empty)

module _ (lower : Text → Text) where
  check_parts-IsWritable :
      (e p c t : Text)
      → IsWritable e p c t
      → check_parts lower e p c t ≡ ok (some (account_of lower e p c t))
  unfolding check_parts
  check_parts-IsWritable e p c t h = ground (
    arith,
    is_address_complete e h.address,
    is_empty-eq_true c,
    h.has_client,
    h.long_token,
    h.printable,
  )

  -- A line written from writable parts is read back as them, the address normalised.
  pub parse_account_line-line_of :
      (e p c t : Text)
      → IsWritable e p c t
      → parse_account_line lower (line_of e p c t)
        ≡ ok (
            some (record {
              email = normalize_email lower e;
              password = p;
              client_id = c;
              refresh_token = t;
            }))
  unfolding parse_account_line parse_stripped
  parse_account_line-line_of [] p c t h = absurd (address-nonempty h.address)
  parse_account_line-line_of (x ∷ e) p c t h =
      let rest = separator ++ (p ++ (separator ++ (c ++ (separator ++ t)))) in
      let back = e ++ (separator ++ (p ++ (separator ++ (c ++ separator)))) in
      let token : t ≢ [] = λ same. absurd (omega (arith, h.long_token, ap length same)) in
      let form = line_of-front (x ∷ e) p c t in
      let whole : strip (line_of (x ∷ e) p c t) ≡ line_of (x ∷ e) p c t =
        ap strip form ∙ strip-append x e back t h.stripped.0 h.stripped.3 token ∙ sym form in
      let comment = starts_with-append (codes "#") (x ∷ e) rest (omega arith) ∙ h.no_comment in
      let parts = split_at-line_of (x ∷ e) p c t h.separable.0 h.separable.1 h.separable.2 in
      let mark = starts_with-append (byte_order_mark ∷ []) (x ∷ e) rest (omega arith) ∙ h.no_mark in
      rw (whole, strip_mark-same x (e ++ rest) mark, comment, parts)
        (rw h.stripped.0 (
          rw h.stripped.1
            (rw h.stripped.2 (rw h.stripped.3 (check_parts-IsWritable (x ∷ e) p c t h)))))
