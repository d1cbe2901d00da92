-- ===== src/Guard/Bounds.antt =====
-- What the guard of app/request_guard.py lets through to the application.
use token_loom.Prelude.{
  ℕ, ◌+◌, ◌≤◌, ◌≡◌, refl, sym, ap, ◌∙◌, Bool, true, false, ◌||◌, not, leb, Option, none, some, List,
  [], ◌∷◌, ◌++◌, ltb, length, length-append, append_assoc, Text, text_eq, codes, starts_with,
  Result, ok, err, arith, inl, inr, Bool-cases, if_true, if_false,
}
use token_loom.Prelude.Utf8.{Bytes}
use token_loom.Auth.Session.{
  Session, SessionError, no_session, bad_csrf, not_comparable, SessionSettings, SessionCodec,
  require_csrf,
}
use token_loom.Guard.{
  request_body_limit, Message, disconnect, other, request, Declared, no_integer, negative, natural,
  Scope, Outcome, forward, is_mutation, read_body, refusal, check_session, check_length, declared,
  guard,
}

-- the bodies of the messages up to the last one of the request
unfoldable pub joined : List Message → Bytes
joined [] = []
joined (disconnect ∷ messages) = []
joined (other ∷ messages) = joined messages
joined (request body true ∷ messages) = body ++ joined messages
joined (request body false ∷ messages) = body

read_body-forward :
    (limit received : ℕ) (chunks : Bytes) (messages : List Message) {body : Bytes}
    → length chunks ≡ received
    → read_body limit received chunks messages ≡ forward body
    → (body ≡ chunks ++ joined messages) × (length body ≤ limit)
unfolding read_body joined
read_body-forward limit received chunks [] e h = cc
read_body-forward limit received chunks (disconnect ∷ messages) e h = cc
read_body-forward limit received chunks (other ∷ messages) e h =
    read_body-forward limit received chunks messages e h
read_body-forward limit received chunks (request b true ∷ messages) {body} e h =
    let n = length-append chunks b in
    elim (Bool-cases (ltb limit (received + length b))) [
      | inl t ↦ ground (arith, t, h)
      | inr t ↦
          let rest = sym (if_false _ _ t) ∙ h in
          let (form, small) =
            read_body-forward limit (received + length b) (chunks ++ b) messages
              (omega (arith, n, e)) rest in
          (form ∙ append_assoc chunks b (joined messages), small)
    ]
read_body-forward limit received chunks (request b false ∷ messages) {body} e h =
    let n = length-append chunks b in
    elim (Bool-cases (ltb limit (received + length b))) [
      | inl t ↦ ground (arith, t, h)
      | inr t ↦
          let same : chunks ++ b ≡ body = ground (arith, t, h) in
          let small : received + length b ≤ limit = ground (arith, t) in
          (sym same, omega (arith, n, e, small, ap length same))
    ]

-- What is known of a call whose body reaches the application.
pub record IsAdmitted (upper lower : Text → Text) (c : SessionCodec) (s : SessionSettings)
    (max_upload_bytes now : ℕ) (scope : Scope) (messages : List Message) (body : Bytes)
    : Type 0 where
  pub whole : body ≡ joined messages
  pub bounded : length body ≤ request_body_limit max_upload_bytes scope.path
  pub mutation : is_mutation (upper scope.method) ≡ true
  pub session :
      starts_with (codes "/api/") scope.path ≡ true
      → (z : Session) × (require_csrf lower c s now scope.request ≡ ok z)

check_length-forward :
    (limit : ℕ) (d : Option Declared) (rest : Outcome) {body : Bytes}
    → check_length limit d rest ≡ forward body
    → rest ≡ forward body
unfolding check_length
check_length-forward limit none rest h = h
check_length-forward limit (some no_integer) rest h = cc
check_length-forward limit (some negative) rest h = cc
check_length-forward limit (some (natural n)) rest h = ground (arith, h)

check_session-forward :
    (o : Result SessionError Session) (rest : Outcome) {body : Bytes}
    → check_session o rest ≡ forward body
    → (rest ≡ forward body) × ((z : Session) × (o ≡ ok z))
unfolding check_session refusal
check_session-forward (ok z) rest h = (h, (z, refl))
check_session-forward (err no_session) rest h = cc
check_session-forward (err bad_csrf) rest h = cc
check_session-forward (err not_comparable) rest h = cc

-- a declared length that is none, or within the limit
abbrev pub is_allowed : ℕ → Option Declared → Bool
is_allowed limit none = true
is_allowed limit (some (natural n)) = leb n limit
is_allowed limit (some negative) = false
is_allowed limit (some no_integer) = false

check_length-allowed :
    (limit : ℕ) (d : Option Declared) (rest : Outcome)
    → is_allowed limit d ≡ true
    → check_length limit d rest ≡ rest
unfolding check_length
check_length-allowed limit none rest h = refl
check_length-allowed limit (some (natural n)) rest h = ground (arith, h)
check_length-allowed limit (some negative) rest h = cc
check_length-allowed limit (some no_integer) rest h = cc

module _ (upper lower : Text → Text) (int_of : Text → Declared) (c : SessionCodec)
    (s : SessionSettings) (max_upload_bytes now : ℕ) (scope : Scope) (messages : List Message) where
  -- A body that the guard hands on is what the messages carried, is within the limit of its path,
  -- belongs to a mutation, and under `/api/` to a request with a session and its csrf.
  pub guard-IsAdmitted :
      {body : Bytes}
      → guard upper lower int_of c s max_upload_bytes now scope messages ≡ forward body
      → IsAdmitted upper lower c s max_upload_bytes now scope messages body
  unfolding guard
  guard-IsAdmitted {body} h =
      let limit = request_body_limit max_upload_bytes scope.path in
      elim (Bool-cases
        (not (text_eq scope.kind (codes "http")) || not (is_mutation (upper scope.method)))) [
          | inl e ↦ ground (arith, e, h)
          | inr e ↦
              let mutation : is_mutation (upper scope.method) ≡ true = ground (arith, e) in
              let checked =
                check_length-forward limit
                  (declared upper lower int_of c s max_upload_bytes scope.content_length) _
                  (sym (if_false _ _ e) ∙ h) in
              elim (Bool-cases (starts_with (codes "/api/") scope.path)) [
                | inl a ↦
                    let (read, z) =
                      check_session-forward (require_csrf lower c s now scope.request) _
                        (sym (if_true _ _ a) ∙ checked) in
                    let (whole, bounded) = read_body-forward limit 0 [] messages refl read in
                    record {
                      whole = whole;
                      bounded = bounded;
                      mutation = mutation;
                      session = λ _. z;
                    }
                | inr a ↦
                    let (whole, bounded) =
                      read_body-forward limit 0 [] messages refl (sym (if_false _ _ a) ∙ checked) in
                    record {
                      whole = whole;
                      bounded = bounded;
                      mutation = mutation;
                      session = λ b. ground (arith, a, b);
                    }
              ]
        ]

  -- A mutation under `/api/` whose declared length is allowed and whose session or csrf is refused
  -- gets that answer, and no message of its body matters.
  guard-refusal :
      (e : SessionError)
      → scope.kind ≡ codes "http"
      → is_mutation (upper scope.method) ≡ true
      → is_allowed
          (request_body_limit max_upload_bytes scope.path)
          (declared upper lower int_of c s max_upload_bytes scope.content_length)
        ≡ true
      → starts_with (codes "/api/") scope.path ≡ true
      → require_csrf lower c s now scope.request ≡ err e
      → guard upper lower int_of c s max_upload_bytes now scope messages ≡ refusal e
  unfolding guard check_session text_eq
  guard-refusal e http mutation allowed api refused =
      rw (http, mutation, api, refused)
        (check_length-allowed (request_body_limit max_upload_bytes scope.path) _ (refusal e)
          allowed)
