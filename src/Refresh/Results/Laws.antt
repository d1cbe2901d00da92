-- ===== src/Refresh/Results/Laws.antt =====
-- What a refresh leaves of an account: its token, its status and when it is due again.
use token_loom.Prelude.{
  ℕ, ◌+◌, ◌*◌, ◌<◌, ◌≡◌, ◌≢◌, Bool, true, false, some, [], if◌then◌else◌, Text, text_eq,
  text_eq_refl, arith, Bool-cases, inl, inr,
}
use token_loom.Prelude.Utf8.{Bytes}
use token_loom.Records.{
  Account, healthy, refreshed, token_invalid, fetch_failed, transient_error, day,
}
use token_loom.Refresh.Token.{TokenResult}
use token_loom.Refresh.Token.Results.{IsCoherent}
use token_loom.Refresh.Results.{ImapResult, imap_failed, account_result, apply_result, is_due}

imap_code : text_eq imap_failed imap_failed ≡ true
imap_code = text_eq_refl imap_failed

module _ (sanitize : Text → Text) (now interval_days : ℕ) (sealed : Bytes) (is_health : Bool)
    (token : TokenResult) (imap : ImapResult) (a : Account) where
  -- the account behind the refresh
  abbrev after : Account
  after =
      apply_result sanitize now interval_days sealed (account_result a.id is_health token imap) a

  -- A refresh that OAuth has not granted leaves the stored token, its expiry and the last success.
  denied_keeps_token :
      token.ok ≡ false
      → (after.refresh_token_encrypted ≡ a.refresh_token_encrypted)
        × (after.token_expires_at ≡ a.token_expires_at)
        × (after.last_refresh_success_at ≡ a.last_refresh_success_at)
  unfolding apply_result account_result
  denied_keeps_token h = ground arith

  -- A granted one that has a token stores its ciphertext and an expiry in ninety days, whatever the
  -- mailbox says.
  granted_stores_token :
      token.ok ≡ true
      → token.refresh_token ≢ []
      → (after.refresh_token_encrypted ≡ sealed) × (after.token_expires_at ≡ some (now + 90 * day))
  unfolding apply_result account_result
  granted_stores_token h ne = ground arith

  -- The status that the outcome of the two calls leaves, where the server's error code is not
  -- `imap_failed`.
  status_after :
      text_eq token.error_code imap_failed ≡ false
      → after.status ≡ (
          if token.ok
          then (if is_health then (if imap.ok then healthy else fetch_failed) else refreshed)
          else (if token.permanent then token_invalid else transient_error))
  unfolding apply_result account_result
  status_after h = ground (arith, imap_code)

  -- For a coherent result on a token that was there, an error code other than `imap_failed` and a
  -- positive interval, the account is not due at the instant at which it was processed.
  pub not_due_after :
      (old : Text)
      → IsCoherent old token
      → old ≢ []
      → text_eq token.error_code imap_failed ≡ false
      → 0 < interval_days
      → is_due now after ≡ false
  unfolding apply_result account_result is_due
  not_due_after old c ne h pos = elim (Bool-cases token.ok) [
    | inl e ↦ ground (arith, c.granted e, imap_code)
    | inr e ↦ ground (arith, imap_code)
  ]
