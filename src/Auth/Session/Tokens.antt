-- ===== src/Auth/Session/Tokens.antt =====
-- Which cookies `read_session` of app/auth.py takes, and what `require_csrf` demands besides.
use token_loom.Prelude.{
  ℕ, ◌+◌, ◌*◌, ◌≤◌, ◌≡◌, ◌↔◌, refl, sym, ap, ◌∙◌, true, false, Option, none, some, ◌∷◌, ◌++◌,
  length, has_char, Text, text_eq_iff, text_eq_refl, codes, rcut, ok, arith, inl, inr, Option-cases,
}
use token_loom.Prelude.Cuts.{rcut-append, rcut-eq_some}
use token_loom.Auth.Session.{
  SessionSettings, Request, Payload, Session, SessionCodec, is_ascii, session_token, create_session,
  check_csrf, check_payload, check_token, read_session, compare_csrf, require_csrf,
}

-- The documented behaviour of base64, JSON and `hexdigest` on one payload.
pub record IsSoundAt (c : SessionCodec) (p : Payload) : Type 0 where
  pub unpack-pack : c.unpack (c.pack p) ≡ some p
  pub ascii_pack : is_ascii (c.pack p) ≡ true
  pub ascii_sign : is_ascii (c.sign (c.pack p)) ≡ true
  pub plain_sign : has_char b'.' (c.sign (c.pack p)) ≡ false

-- the payload of a session that is created
abbrev pub payload_of : SessionSettings → ℕ → Text → Payload
payload_of s created csrf = record {
  iat = created;
  exp = created + s.session_hours * 3600;
  csrf = some csrf;
}

-- A session that a token may stand for at that instant.
pub record IsAuthentic (c : SessionCodec) (s : SessionSettings) (now : ℕ) (token : Text)
    (z : Session) : Type 0 where
  pub encoded : Text
  pub signed : token ≡ encoded ++ b'.' ∷ c.sign encoded
  pub content :
      c.unpack encoded ≡ some (record { iat = z.issued_at; exp = z.expires_at; csrf = some z.csrf })
  pub issued : z.issued_at ≤ now + 60
  pub alive : now ≤ z.expires_at
  pub lifetime : z.expires_at ≤ z.issued_at + s.session_hours * 3600 + 60
  pub long : 16 ≤ length z.csrf
  pub short : length z.csrf ≤ 128

check_payload-eq_some :
    (s : SessionSettings) (now : ℕ) (o : Option Payload) {z : Session}
    → check_payload s now o ≡ some z
    → (o ≡ some (record { iat = z.issued_at; exp = z.expires_at; csrf = some z.csrf }))
      × (z.issued_at ≤ now + 60)
      × (now ≤ z.expires_at)
      × (z.expires_at ≤ z.issued_at + s.session_hours * 3600 + 60)
      × (16 ≤ length z.csrf)
      × (length z.csrf ≤ 128)
unfolding check_payload check_csrf
check_payload-eq_some s now none h = cc
check_payload-eq_some s now (some p) h = elim (Option-cases p.csrf) [
  | inl e ↦ ground (arith, e, h)
  | inr (t, e) ↦ ground (arith, e, h)
]

check_token-IsAuthentic :
    (c : SessionCodec) (s : SessionSettings) (now : ℕ) (token : Text) (o : Option (Text × Text))
    {z : Session}
    → rcut b'.' token ≡ o
    → check_token c s now o ≡ some z
    → IsAuthentic c s now token z
unfolding check_token
check_token-IsAuthentic c s now token none e h = cc
check_token-IsAuthentic c s now token (some (encoded, signature)) {z} e h =
    let same : c.sign encoded ≡ signature =
      ground (arith, h, text_eq_iff (c.sign encoded) signature) in
    let checked : check_payload s now (c.unpack encoded) ≡ some z = ground (arith, h) in
    let (content, issued, alive, lifetime, long, short) =
      check_payload-eq_some s now (c.unpack encoded) checked in
    record {
      encoded = encoded;
      signed =
          (rcut-eq_some b'.' token encoded signature e).0
          ∙ ap (λ (t : Text). encoded ++ b'.' ∷ t) (sym same);
      content = content;
      issued = issued;
      alive = alive;
      lifetime = lifetime;
      long = long;
      short = short;
    }

module _ (lower : Text → Text) (c : SessionCodec) (s : SessionSettings) where
  -- A request has a session only by a cookie that is signed, was issued at most a minute ahead, is
  -- not over, lasts no longer than the configured hours and a minute, and has a csrf of 16 to 128
  -- characters.
  pub read_session-IsAuthentic :
      (now : ℕ) (r : Request) {z : Session}
      → read_session lower c s now r ≡ some z
      → IsAuthentic c s now (session_token lower s r) z
  unfolding read_session
  read_session-IsAuthentic now r h =
      check_token-IsAuthentic c s now (session_token lower s r)
        (rcut b'.' (session_token lower s r)) refl h

  -- Where the codec is sound at its payload, the cookie of a session that was created, at most a
  -- minute ahead, with a csrf of 16 to 128 characters, is read back until the session is over.
  pub read_session-create_session :
      (created now : ℕ) (csrf : Text) (r : Request)
      → IsSoundAt c (payload_of s created csrf)
      → session_token lower s r ≡ create_session c s created csrf
      → created ≤ now + 60
      → now ≤ created + s.session_hours * 3600
      → 16 ≤ length csrf
      → length csrf ≤ 128
      → read_session lower c s now r
        ≡ some (record {
          issued_at = created;
          expires_at = created + s.session_hours * 3600;
          csrf = csrf;
        })
  unfolding read_session create_session check_token check_payload check_csrf
  read_session-create_session created now csrf r sound e fresh alive long short =
      let encoded = c.pack (payload_of s created csrf) in
      rw (e, rcut-append b'.' encoded (c.sign encoded) sound.plain_sign)
        (rw (sound.ascii_pack, sound.ascii_sign, text_eq_refl (c.sign encoded), sound.unpack-pack)
          (ground arith))

  compare_csrf-ok :
      (supplied : Text) (o : Option Session) (z : Session)
      → (compare_csrf lower c s supplied o ≡ ok z)
        ↔ ((o ≡ some z) × (is_ascii z.csrf ≡ true) × (supplied ≡ z.csrf))
  unfolding compare_csrf
  compare_csrf-ok supplied none z = ground arith
  compare_csrf-ok supplied (some y) z = ground (arith, text_eq_iff y.csrf supplied)

  -- A request passes exactly if it has a session whose csrf is ASCII and is what its header
  -- `X-CSRF-Token` says.
  pub require_csrf-ok :
      (now : ℕ) (r : Request) (z : Session)
      → (require_csrf lower c s now r ≡ ok z) ↔ (
          (read_session lower c s now r ≡ some z)
          × (is_ascii z.csrf ≡ true)
          × (r.header (codes "X-CSRF-Token") ≡ z.csrf))
  unfolding require_csrf
  require_csrf-ok now r z =
      compare_csrf-ok (r.header (codes "X-CSRF-Token")) (read_session lower c s now r) z
