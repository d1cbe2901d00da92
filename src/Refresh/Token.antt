-- ===== src/Refresh/Token.antt =====
-- `refresh_token` of app/services.py: one OAuth refresh with its retries. What the server sends
-- is an argument, a reply for each attempt; so are `sanitize_error`, `str.isdigit` and `float`.
pub mod Retries
pub mod Results
use token_loom.Prelude.{
  ℕ, zero, suc, ◌+◌, ◌*◌, ◌^◌, Bool, true, false, ◌&&◌, ◌||◌, not, Option, none, some, List, [],
  ◌∷◌, ◌++◌, min, max, ltb, leb, ◌==◌, if◌then◌else◌, is_empty, any, Text, text_eq, codes,
  starts_with, Result, err, ok,
}
use token_loom.Prelude.Decimal.{decimal}

-- `MAX_OAUTH_RESPONSE_BYTES`
abbrev pub max_oauth_response_bytes : ℕ
max_oauth_response_bytes = 64 * 1024

-- `PERMANENT_ERRORS`
abbrev pub permanent_errors : List Text
permanent_errors =
    codes "invalid_grant"
    ∷ codes "expired_token"
    ∷ codes "invalid_client"
    ∷ codes "unauthorized_client"
    ∷ codes "interaction_required"
    ∷ codes "consent_required"
    ∷ []

-- The fields of the JSON object that are read, as texts; a missing or falsy one is empty.
pub record OauthData : Type 0 where
  pub access_token : Text
  pub refresh_token : Text
  pub error : Text
  pub error_description : Text

abbrev pub no_data : OauthData
no_data = record { access_token = []; refresh_token = []; error = []; error_description = [] }

-- What `json.loads` makes of the body; the methods of a value that is no object raise an exception
-- with that text.
pub data JsonBody : Type 0 where
  malformed : JsonBody
  not_an_object : Text → JsonBody
  object : OauthData → JsonBody

-- what one attempt meets: a response, a timeout or client error, or any other exception
pub data Reply : Type 0 where
  response : ℕ → ℕ → JsonBody → Text → Reply
  network_error other_error : Text → Reply

-- `TokenResult`
pub record TokenResult : Type 0 where
  pub ok : Bool
  pub access_token : Text
  pub refresh_token : Text
  pub error_code : Text
  pub error_summary : Text
  pub permanent : Bool

abbrev pub failure : Text → Text → Bool → TokenResult
failure code summary permanent = record {
  ok = false;
  access_token = [];
  refresh_token = [];
  error_code = code;
  error_summary = summary;
  permanent = permanent;
}

-- `a or b` on texts
abbrev pub or_text : Text → Text → Text
or_text [] b = b
or_text (c ∷ s) b = c ∷ s

-- `item in description`
unfoldable pub occurs_in : Text → Text → Bool
occurs_in p [] = starts_with p []
occurs_in p (c ∷ s) = starts_with p (c ∷ s) || occurs_in p s

unfoldable pub is_permanent : Text → Text → Bool
unfolding occurs_in
is_permanent code description =
    any (λ item. text_eq item code) permanent_errors
    || any (λ item. occurs_in item description) permanent_errors

-- The end of one attempt: the function returns, or sleeps that many seconds and goes on.
pub data Verdict : Type 0 where
  finish : TokenResult → Verdict
  retry_after : ℕ → Verdict

abbrev pub continue : Verdict → TokenResult × List ℕ → TokenResult × List ℕ
continue (finish r) rest = (r, [])
continue (retry_after seconds) (r, slept) = (r, seconds ∷ slept)

module _ (sanitize : Text → Text) (isdigit : Text → Bool) (float_of : Text → Result Text ℕ) where
  -- `await asyncio.sleep(delay)`; a header that `float` refuses raises
  unfoldable pub delay_verdict : ℕ → Text → Verdict
  delay_verdict attempt header =
      if isdigit header
      then elim (float_of header) [
        | err exc ↦ finish (failure (codes "internal_error") (sanitize exc) false)
        | ok seconds ↦ retry_after (min seconds 30)
      ]
      else retry_after (min (2 ^ attempt) 8)

  -- what is behind `code` and `description` in the loop
  unfoldable pub refusal_verdict : ℕ → ℕ → ℕ → Text → Text → Text → Verdict
  refusal_verdict max_retries attempt status header code description =
      let permanent = is_permanent code description in
      let retryable = status == 429 || leb 500 status || not permanent in
      if permanent || not retryable || leb max_retries (attempt + 1)
      then finish (failure code description permanent)
      else delay_verdict attempt header

  unfoldable pub object_verdict : Text → ℕ → ℕ → ℕ → Text → OauthData → Verdict
  object_verdict old_token max_retries attempt status header d =
      if status == 200 && not (is_empty d.access_token)
      then finish (record {
        ok = true;
        access_token = d.access_token;
        refresh_token = or_text d.refresh_token old_token;
        error_code = [];
        error_summary = [];
        permanent = false;
      })
      else refusal_verdict max_retries attempt status header
          (or_text d.error (codes "http_" ++ decimal status))
          (sanitize (or_text d.error_description (codes "HTTP " ++ decimal status)))

  -- `json.loads(raw) if len(raw_bytes) <= MAX_OAUTH_RESPONSE_BYTES else {}`
  unfoldable pub body_verdict : Text → ℕ → ℕ → ℕ → Text → ℕ → JsonBody → Verdict
  body_verdict old max_retries attempt status header size malformed =
      object_verdict old max_retries attempt status header no_data
  body_verdict old max_retries attempt status header size (not_an_object exc) =
      if leb size max_oauth_response_bytes
      then finish (failure (codes "internal_error") (sanitize exc) false)
      else object_verdict old max_retries attempt status header no_data
  body_verdict old max_retries attempt status header size (object d) =
      object_verdict old max_retries attempt status header
        (if leb size max_oauth_response_bytes then d else no_data)

  -- the body of the loop
  unfoldable pub attempt_once : Text → ℕ → ℕ → Reply → Verdict
  attempt_once old max_retries attempt (response status size body header) =
      body_verdict old max_retries attempt status header size body
  attempt_once old max_retries attempt (network_error exc) =
      if leb max_retries (attempt + 1)
      then finish (failure (codes "network_error") (sanitize exc) false)
      else retry_after (min (2 ^ attempt) 8)
  attempt_once old max_retries attempt (other_error exc) =
      finish (failure (codes "internal_error") (sanitize exc) false)

  -- The loop over the attempts left, with the seconds slept before each further attempt.
  unfoldable pub refresh_from : Text → ℕ → (ℕ → Reply) → ℕ → ℕ → TokenResult × List ℕ
  refresh_from old max_retries replies zero attempt =
      (failure (codes "unknown") (codes "刷新未返回结果") false, [])
  refresh_from old max_retries replies (suc left) attempt =
      let rest = refresh_from old max_retries replies left (suc attempt) in
      continue (attempt_once old max_retries attempt (replies attempt)) rest

  -- `for attempt in range(max(1, max_retries))`
  unfoldable pub refresh_token : Text → ℕ → (ℕ → Reply) → TokenResult × List ℕ
  refresh_token old max_retries replies = refresh_from old max_retries replies (max 1 max_retries) 0
