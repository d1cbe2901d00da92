-- ===== src/Tests/Refreshes.antt =====
-- Refreshes: the retries, what they leave of an account, and the batches of a job.
use token_loom.Refresh.Batches.Turns.{none_yet, once_more, Requeued-lt}
use token_loom.Prelude.{
  ℕ, zero, suc, ◌+◌, ◌*◌, ◌<◌, ◌≤◌, ◌≡◌, ◌≢◌, ◌⊎◌, refl, ap, Bool, true, false, Option, none, some,
  List, [], ◌∷◌, Text, text_eq, codes, Result, ok, err, length, arith, max, if◌then◌else◌,
}
use token_loom.Prelude.Paging.{behind}
use token_loom.Records.{Account, Job, running}
use token_loom.Refresh.Token.{
  Reply, response, network_error, malformed, object, TokenResult, failure, refresh_token,
}
use token_loom.Refresh.Token.Retries.{IsAnswered, refresh_token-IsAnswered}
use token_loom.Refresh.Token.Results.{IsCoherent}
use token_loom.Refresh.Results.{ImapResult, imap_failed, account_result, apply_result, is_due}
use token_loom.Refresh.Results.Laws.{not_due_after}
use token_loom.Refresh.Batches.{in_scope, finish_batch}
use token_loom.Refresh.Batches.Walk.{walk, IsDone, walk-eq-scope, id_of}
use token_loom.Jobs.Queue.{is_queued}
use token_loom.Tests.Samples.{same_text, account_of, job_of}

abbrev is_seven : Text → Bool
is_seven s = text_eq s (codes "7")

abbrev seven : Text → Result Text ℕ
seven s = ok 7

-- a timeout, a 503 that asks for seven seconds, then a grant without a new refresh token
abbrev replies : ℕ → Reply
replies zero = network_error (codes "timeout")
replies (suc zero) = response 503 0 malformed (codes "7")
replies (suc (suc n)) =
    response 200 40
      (object (record {
        access_token = codes "at";
        refresh_token = [];
        error = [];
        error_description = [];
      }))
      []

abbrev granted : TokenResult
granted = record {
  ok = true;
  access_token = codes "at";
  refresh_token = codes "old";
  error_code = [];
  error_summary = [];
  permanent = false;
}

third_attempt :
    refresh_token same_text is_seven seven (codes "old") 3 replies ≡ (granted, 1 ∷ 7 ∷ [])
unfolding refresh_token token_loom.Refresh.Token.refresh_from token_loom.Refresh.Token.attempt_once
    token_loom.Refresh.Token.body_verdict token_loom.Refresh.Token.object_verdict
    token_loom.Refresh.Token.refusal_verdict token_loom.Refresh.Token.is_permanent text_eq
    token_loom.Prelude.starts_with token_loom.Prelude.Decimal.decimal
    token_loom.Refresh.Token.delay_verdict
third_attempt = refl

refresh_token-IsAnswered_example :
    IsAnswered same_text is_seven seven
      (codes "old")
      3
      replies
      (max 1 3)
      0
      (refresh_token same_text is_seven seven (codes "old") 3 replies)
refresh_token-IsAnswered_example =
    refresh_token-IsAnswered same_text is_seven seven (codes "old") 3 replies

abbrev denied : TokenResult
denied = failure (codes "invalid_grant") (codes "revoked") true

denied-IsCoherent : IsCoherent (codes "old") denied
denied-IsCoherent = record { granted = λ e. ground (arith, e); denied = λ _. refl }

abbrev unread : ImapResult
unread = record { ok = false; error = codes "no" }

abbrev account : Account
account = account_of 4 (codes "aa") (some 1)

abbrev left_by : TokenResult → Account
left_by token = apply_result same_text 100 60 (9 ∷ []) (account_result 4 true token unread) account

token_nonempty : codes "old" ≢ []
token_nonempty e = ground (arith, e)

denied_code : text_eq denied.error_code imap_failed ≡ false
unfolding text_eq
denied_code = refl

not_due_after_example : is_due 100 (left_by denied) ≡ false
not_due_after_example =
    not_due_after same_text 100 60 (9 ∷ []) true denied unread account (codes "old")
      denied-IsCoherent token_nonempty denied_code (omega arith)

abbrev table : List Account
table =
    account_of 2 (codes "aa") none
    ∷ account_of 5 (codes "bb") none
    ∷ account_of 9 (codes "cc") none
    ∷ []

abbrev job : Job
job = job_of (codes "j") running 40 0 false none

scope_table : behind id_of (in_scope 100 job) 0 table ≡ table
unfolding behind in_scope
scope_table = refl

abbrev all_good : List Account → ℕ × ℕ
all_good accounts = (length accounts, 0)

walk-eq-scope_example :
    IsDone (behind id_of (in_scope 100 job) 0 table) job (walk all_good 4 100 2 job table)
walk-eq-scope_example =
    walk-eq-scope all_good 4 100 2 0 job table (ground arith) (omega arith)
      (omega (arith, ap length scope_table)) refl (omega (arith, ap length scope_table))

-- a job of three accounts that takes one at a time
abbrev three_left : Job
three_left = job_of (codes "j") running 0 1 false none

back_in_queue :
    is_queued (finish_batch 5 1 (account_of 1 [] none ∷ []) 1 0 three_left).status ≡ true
unfolding is_queued finish_batch
back_in_queue = refl

Requeued-lt_example : 1 * 1 + three_left.processed < three_left.total
Requeued-lt_example =
    Requeued-lt 1 three_left
      (once_more none_yet three_left (refl, refl) 5 (account_of 1 [] none ∷ []) 1 0 back_in_queue)
