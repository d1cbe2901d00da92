-- ===== src/Refresh/Token/Results.antt =====
-- What the result of `refresh_token` of app/services.py holds.
use token_loom.Prelude.{
  ℕ, ◌+◌, ◌≡◌, ◌≢◌, refl, Bool, true, false, [], ◌∷◌, Text, Result, ok, err, arith, is_empty, leb,
  if◌then◌else◌, ◌||◌, not, ◌&&◌, ◌==◌, codes, min,
}
use mathlib.Core.Path.{subst}
use token_loom.Refresh.Token.{
  failure, refusal_verdict, is_permanent, max_oauth_response_bytes, OauthData, no_data, JsonBody,
  malformed, not_an_object, object, Reply, response, network_error, other_error, TokenResult,
  Verdict, finish, retry_after, delay_verdict, object_verdict, body_verdict, attempt_once,
  refresh_token, or_text,
}
use token_loom.Refresh.Token.Retries.{refresh_token-IsAnswered}

-- A granted refresh has an access token and, if the old token was one, a refresh token; a denied
-- one has no refresh token.
pub record IsCoherent (old : Text) (r : TokenResult) : Type 0 where
  pub granted :
      r.ok ≡ true
      → (r.access_token ≢ []) × (r.permanent ≡ false) × (old ≢ [] → r.refresh_token ≢ [])
  pub denied : r.ok ≡ false → r.refresh_token ≡ []

abbrev IsCoherentVerdict : Text → Verdict → Type 0
IsCoherentVerdict old (finish r) = IsCoherent old r
IsCoherentVerdict old (retry_after s) = Unit

or_text-ne : (a b : Text) → b ≢ [] → or_text a b ≢ []
or_text-ne [] b h e = h e
or_text-ne (c ∷ a) b h e = cc e

failure-IsCoherent :
    (old code summary : Text) (permanent : Bool) → IsCoherent old (failure code summary permanent)
failure-IsCoherent old code summary permanent = record { granted = λ t. cc t; denied = λ _. refl }

if-IsCoherent :
    (old : Text) (t : Bool) (v w : Verdict)
    → (t ≡ true → IsCoherentVerdict old v)
    → IsCoherentVerdict old w
    → IsCoherentVerdict old (if t then v else w)
if-IsCoherent old true v w hv hw = hv refl
if-IsCoherent old false v w hv hw = hw

module _ (sanitize : Text → Text) (isdigit : Text → Bool) (float_of : Text → Result Text ℕ)
    (old : Text) where
  delay_verdict-IsCoherent :
      (attempt : ℕ) (header : Text)
      → IsCoherentVerdict old (delay_verdict sanitize isdigit float_of attempt header)
  unfolding delay_verdict
  delay_verdict-IsCoherent attempt header =
      if-IsCoherent old (isdigit header) _ _ (λ _. by_float (float_of header)) tt
    where
      by_float :
          (o : Result Text ℕ)
          → IsCoherentVerdict old (elim o [
            | err exc ↦ finish (failure (codes "internal_error") (sanitize exc) false)
            | ok seconds ↦ retry_after (min seconds 30)
          ])
      by_float (err exc) = failure-IsCoherent old (codes "internal_error") (sanitize exc) false
      by_float (ok seconds) = tt

  refusal_verdict-IsCoherent :
      (max_retries attempt status : ℕ) (header code description : Text)
      → IsCoherentVerdict old (
          refusal_verdict sanitize isdigit float_of max_retries attempt status header code
            description)
  unfolding refusal_verdict
  refusal_verdict-IsCoherent max_retries attempt status header code description =
      let permanent = is_permanent code description in
      if-IsCoherent old
        (permanent
          || not (status == 429 || leb 500 status || not permanent)
          || leb max_retries (attempt + 1))
        (finish (failure code description permanent))
        (delay_verdict sanitize isdigit float_of attempt header)
        (λ _. failure-IsCoherent old code description permanent)
        (delay_verdict-IsCoherent attempt header)

  object_verdict-IsCoherent :
      (max_retries attempt status : ℕ) (header : Text) (d : OauthData)
      → IsCoherentVerdict old
          (object_verdict sanitize isdigit float_of old max_retries attempt status header d)
  unfolding object_verdict
  object_verdict-IsCoherent max_retries attempt status header d =
      if-IsCoherent old (status == 200 && not (is_empty d.access_token)) _ _
        (λ t. record {
          granted = λ _. (ground arith, refl, or_text-ne d.refresh_token old);
          denied = λ f. cc f;
        })
        (refusal_verdict-IsCoherent max_retries attempt status header _ _)

  body_verdict-IsCoherent :
      (max_retries attempt status : ℕ) (header : Text) (size : ℕ) (b : JsonBody)
      → IsCoherentVerdict old
          (body_verdict sanitize isdigit float_of old max_retries attempt status header size b)
  unfolding body_verdict
  body_verdict-IsCoherent max_retries attempt status header size malformed =
      object_verdict-IsCoherent max_retries attempt status header no_data
  body_verdict-IsCoherent max_retries attempt status header size (not_an_object exc) =
      if-IsCoherent old (leb size max_oauth_response_bytes) _ _
        (λ _. failure-IsCoherent old (codes "internal_error") (sanitize exc) false)
        (object_verdict-IsCoherent max_retries attempt status header no_data)
  body_verdict-IsCoherent max_retries attempt status header size (object d) =
      object_verdict-IsCoherent max_retries attempt status header _

  attempt_once-IsCoherent :
      (max_retries attempt : ℕ) (r : Reply)
      → IsCoherentVerdict old (attempt_once sanitize isdigit float_of old max_retries attempt r)
  unfolding attempt_once
  attempt_once-IsCoherent max_retries attempt (response status size body header) =
      body_verdict-IsCoherent max_retries attempt status header size body
  attempt_once-IsCoherent max_retries attempt (network_error exc) =
      if-IsCoherent old (leb max_retries (attempt + 1)) _ _
        (λ _. failure-IsCoherent old (codes "network_error") (sanitize exc) false) tt
  attempt_once-IsCoherent max_retries attempt (other_error exc) =
      failure-IsCoherent old (codes "internal_error") (sanitize exc) false

  -- Whatever the replies are, the result is coherent.
  refresh_token-IsCoherent :
      (max_retries : ℕ) (replies : ℕ → Reply)
      → IsCoherent old (refresh_token sanitize isdigit float_of old max_retries replies).0
  refresh_token-IsCoherent max_retries replies =
      let run = refresh_token-IsAnswered sanitize isdigit float_of old max_retries replies in
      subst (IsCoherentVerdict old) run.answer
        (attempt_once-IsCoherent max_retries (0 + run.used) (replies (0 + run.used)))
