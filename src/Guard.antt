-- ===== src/Guard.antt =====
-- app/request_guard.py: `RequestGuardMiddleware` in front of the application. `int` on the header's
-- bytes and `str.upper` are parameters, as is what `require_csrf` returns.
pub mod Bounds
use token_loom.Prelude.{
  ℕ, ◌+◌, ◌*◌, Bool, true, false, ◌&&◌, ◌||◌, not, Option, none, some, List, [], ◌∷◌, ◌++◌, min,
  ltb, if◌then◌else◌, length, Text, text_eq, codes, starts_with, Result, ok, err,
}
use token_loom.Prelude.Utf8.{Bytes}
use token_loom.Auth.Session.{
  is_in, Request, Session, SessionError, no_session, bad_csrf, not_comparable, SessionSettings,
  SessionCodec, require_csrf,
}

unfoldable pub request_body_limit : ℕ → Text → ℕ
request_body_limit max_upload_bytes path =
    if text_eq path (codes "/login")
    then 4 * 1024
    else if text_eq path (codes "/api/import/paste")
    then min (10 * 1024 * 1024) max_upload_bytes + 64 * 1024
    else if text_eq path (codes "/api/import")
    then max_upload_bytes + 64 * 1024
    else 128 * 1024

-- what `receive` returns
pub data Message : Type 0 where
  disconnect other : Message
  request : Bytes → Bool → Message

-- what `int(raw_length)` comes to
pub data Declared : Type 0 where
  no_integer negative : Declared
  natural : ℕ → Declared

-- The scope; `request` is `Request(scope)`, and `content_length` the header's value.
pub record Scope : Type 0 where
  pub kind : Text
  pub method : Text
  pub path : Text
  pub content_length : Option Text
  pub request : Request

-- How a call goes on: the application gets the messages as they are, or the one message of the body;
-- or an answer of that status is sent, the call returns, or raises, or still waits for a message.
pub data Outcome : Type 0 where
  pass returned raised waiting : Outcome
  answer : ℕ → Outcome
  forward : Bytes → Outcome

-- `method not in {"POST", "PUT", "PATCH", "DELETE"}` is the negation
unfoldable pub is_mutation : Text → Bool
unfolding is_in
is_mutation method = is_in method (codes "POST" ∷ codes "PUT" ∷ codes "PATCH" ∷ codes "DELETE" ∷ [])

-- the loop, with `received` and the joined `chunks`
unfoldable pub read_body : ℕ → ℕ → Bytes → List Message → Outcome
read_body limit received chunks [] = waiting
read_body limit received chunks (disconnect ∷ messages) = returned
read_body limit received chunks (other ∷ messages) = read_body limit received chunks messages
read_body limit received chunks (request body more ∷ messages) =
    let rest = read_body limit (received + length body) (chunks ++ body) messages in
    if ltb limit (received + length body)
    then answer 413
    else if more
    then rest
    else forward (chunks ++ body)

-- `exc.status_code`; the TypeError of `compare_digest` is no HTTPException
unfoldable pub refusal : SessionError → Outcome
refusal no_session = answer 401
refusal bad_csrf = answer 403
refusal not_comparable = raised

unfoldable pub check_session : Result SessionError Session → Outcome → Outcome
unfolding refusal
check_session (ok session) rest = rest
check_session (err e) rest = refusal e

unfoldable pub check_length : ℕ → Option Declared → Outcome → Outcome
check_length limit none rest = rest
check_length limit (some no_integer) rest = answer 400
check_length limit (some negative) rest = answer 413
check_length limit (some (natural n)) rest = if ltb limit n then answer 413 else rest

module _ (upper lower : Text → Text) (int_of : Text → Declared) (c : SessionCodec)
    (s : SessionSettings) (max_upload_bytes : ℕ) where
  abbrev declared : Option Text → Option Declared
  declared none = none
  declared (some t) = some (int_of t)

  -- `__call__`
  unfoldable pub guard : ℕ → Scope → List Message → Outcome
  guard now scope messages =
      if not (text_eq scope.kind (codes "http")) || not (is_mutation (upper scope.method))
      then pass
      else let limit = request_body_limit max_upload_bytes scope.path in
        check_length limit (declared scope.content_length) (
          if starts_with (codes "/api/") scope.path
          then check_session (require_csrf lower c s now scope.request)
              (read_body limit 0 [] messages)
          else read_body limit 0 [] messages)
