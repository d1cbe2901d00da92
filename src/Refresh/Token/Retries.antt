-- ===== src/Refresh/Token/Retries.antt =====
-- How often `refresh_token` of app/services.py asks, how long it sleeps, and what it returns.
use token_loom.Prelude.{
  ℕ, zero, suc, ◌+◌, ◌≤◌, ◌<◌, ◌≡◌, refl, ap, Bool, false, List, ◌++◌, min, max, length, All, Text,
  codes, Result, ok, err, arith, inl, inr, Bool-cases,
}
use token_loom.Prelude.Decimal.{decimal}
use token_loom.Refresh.Token.{
  OauthData, JsonBody, object, no_data, Reply, continue, response, TokenResult, failure, or_text,
  Verdict, finish, retry_after, delay_verdict, refusal_verdict, object_verdict, body_verdict,
  attempt_once, refresh_from, refresh_token, malformed, not_an_object, network_error, other_error,
}

-- A verdict that sleeps no longer than thirty seconds, and only while attempts are left.
abbrev IsPatient : ℕ → ℕ → Verdict → Type 0
IsPatient max_retries attempt (finish r) = Unit
IsPatient max_retries attempt (retry_after s) = (s ≤ 30) × (attempt + 1 < max_retries)

module _ (sanitize : Text → Text) (isdigit : Text → Bool) (float_of : Text → Result Text ℕ) where
  delay_verdict-IsPatient :
      (max_retries attempt : ℕ) (header : Text)
      → attempt + 1 < max_retries
      → IsPatient max_retries attempt (delay_verdict sanitize isdigit float_of attempt header)
  unfolding delay_verdict
  delay_verdict-IsPatient max_retries attempt header h = elim (Bool-cases (isdigit header)) [
    | inl e ↦ rw e (patient_float (float_of header))
    | inr e ↦ rw e (omega arith, h)
  ]
    where
      patient_float :
          (o : Result Text ℕ)
          → IsPatient max_retries attempt (elim o [
            | err exc ↦ finish (failure (codes "internal_error") (sanitize exc) false)
            | ok seconds ↦ retry_after (min seconds 30)
          ])
      patient_float (err exc) = tt
      patient_float (ok seconds) = (omega arith, h)

  refusal_verdict-IsPatient :
      (max_retries attempt status : ℕ) (header code description : Text)
      → IsPatient max_retries attempt (
          refusal_verdict sanitize isdigit float_of max_retries attempt status header code
            description)
  unfolding refusal_verdict
  refusal_verdict-IsPatient max_retries attempt status header code description =
      ground (arith, delay_verdict-IsPatient max_retries attempt header)

  object_verdict-IsPatient :
      (old : Text) (max_retries attempt status : ℕ) (header : Text) (d : OauthData)
      → IsPatient max_retries attempt
          (object_verdict sanitize isdigit float_of old max_retries attempt status header d)
  unfolding object_verdict
  object_verdict-IsPatient old max_retries attempt status header d = ground (
    arith,
    refusal_verdict-IsPatient max_retries attempt status header
        (or_text d.error (codes "http_" ++ decimal status))
        (sanitize (or_text d.error_description (codes "HTTP " ++ decimal status))),
  )

  body_verdict-IsPatient :
      (old : Text) (max_retries attempt status : ℕ) (header : Text) (size : ℕ) (b : JsonBody)
      → IsPatient max_retries attempt
          (body_verdict sanitize isdigit float_of old max_retries attempt status header size b)
  unfolding body_verdict
  body_verdict-IsPatient old max_retries attempt status header size malformed =
      object_verdict-IsPatient old max_retries attempt status header no_data
  body_verdict-IsPatient old max_retries attempt status header size (not_an_object exc) =
      ground (arith, object_verdict-IsPatient old max_retries attempt status header no_data)
  body_verdict-IsPatient old max_retries attempt status header size (object d) =
      object_verdict-IsPatient old max_retries attempt status header _

  attempt_once-IsPatient :
      (old : Text) (max_retries attempt : ℕ) (r : Reply)
      → IsPatient max_retries attempt
          (attempt_once sanitize isdigit float_of old max_retries attempt r)
  unfolding attempt_once
  attempt_once-IsPatient old max_retries attempt (response status size body header) =
      body_verdict-IsPatient old max_retries attempt status header size body
  attempt_once-IsPatient old max_retries attempt (network_error exc) = ground arith
  attempt_once-IsPatient old max_retries attempt (other_error exc) = tt

  -- How a run ends: `used` attempts sleep, for thirty seconds at most, and the next one answers.
  pub record IsAnswered (old : Text) (max_retries : ℕ) (replies : ℕ → Reply) (left attempt : ℕ)
      (outcome : TokenResult × List ℕ) : Type 0 where
    pub used : ℕ
    pub within : used < left
    pub answer :
        attempt_once sanitize isdigit float_of old max_retries
          (attempt + used)
          (replies (attempt + used))
        ≡ finish outcome.0
    pub waits : length outcome.1 ≡ used
    pub patient : All (λ s. s ≤ 30) outcome.1

  continue-IsAnswered :
      (old : Text) (max_retries : ℕ) (replies : ℕ → Reply) (left attempt : ℕ) (v : Verdict)
      (rest : TokenResult × List ℕ)
      → attempt_once sanitize isdigit float_of old max_retries attempt (replies attempt) ≡ v
      → IsPatient max_retries attempt v
      → (attempt + 1 < max_retries → IsAnswered old max_retries replies left (suc attempt) rest)
      → IsAnswered old max_retries replies (suc left) attempt (continue v rest)
  continue-IsAnswered old max_retries replies left attempt (finish r) rest e p ih =
      let here : attempt + 0 ≡ attempt = omega arith in
      record { used = 0; within = omega arith; answer = rw here e; waits = refl; patient = tt }
  continue-IsAnswered old max_retries replies left attempt (retry_after s) (r, slept) e p ih =
      let later = ih p.1 in
      let shift : attempt + suc later.used ≡ suc attempt + later.used = omega arith in
      record {
        used = suc later.used;
        within = omega (arith, later.within);
        answer = rw shift later.answer;
        waits = ap suc later.waits;
        patient = (p.0, later.patient);
      }

  refresh_from-IsAnswered :
      (old : Text) (max_retries : ℕ) (replies : ℕ → Reply) (left attempt : ℕ)
      → 0 < left
      → attempt + left ≡ max 1 max_retries
      → IsAnswered old max_retries replies left attempt
          (refresh_from sanitize isdigit float_of old max_retries replies left attempt)
  unfolding refresh_from
  refresh_from-IsAnswered old max_retries replies zero attempt h e = elim h [ ]
  refresh_from-IsAnswered old max_retries replies (suc left) attempt h e =
      continue-IsAnswered old max_retries replies left attempt
        (attempt_once sanitize isdigit float_of old max_retries attempt (replies attempt))
        (refresh_from sanitize isdigit float_of old max_retries replies left (suc attempt)) refl
        (attempt_once-IsPatient old max_retries attempt (replies attempt))
        (λ more.
          refresh_from-IsAnswered old max_retries replies left (suc attempt) (omega arith)
            (omega arith))

  -- The result is the verdict of one attempt, with fewer than `max 1 max_retries` attempts before it,
  -- each followed by a sleep of at most thirty seconds.
  pub refresh_token-IsAnswered :
      (old : Text) (max_retries : ℕ) (replies : ℕ → Reply)
      → IsAnswered old max_retries replies
          (max 1 max_retries)
          0
          (refresh_token sanitize isdigit float_of old max_retries replies)
  unfolding refresh_token
  refresh_token-IsAnswered old max_retries replies =
      refresh_from-IsAnswered old max_retries replies (max 1 max_retries) 0 (omega arith)
        (omega arith)
