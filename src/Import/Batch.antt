-- ===== src/Import/Batch.antt =====
-- `process_import` of app/worker.py: one batch of lines of an import file.
pub mod Counts
use token_loom.Prelude.{
  ℕ, zero, suc, ◌+◌, ◌-◌, Bool, true, false, ◌&&◌, ◌||◌, not, Option, none, some, List, [], ◌∷◌,
  ◌++◌, map, ltb, ◌==◌, if◌then◌else◌, is_empty, length, drop, Text, codes, starts_with, Result, ok,
  err,
}
use token_loom.Prelude.Utf8.{Bytes, decode}
use token_loom.Records.{Job, queued, completed, cancelled, DuplicateMode, update}
use token_loom.Accounts.Parse.{ParsedAccount, FormatError, parse_account_line}
use token_loom.Import.Reader.{LineRead, read_limited_line}

-- why a line counts as failed
pub data Fault : Type 0 where
  line_too_long undecodable : Fault
  bad_format : FormatError → Fault

-- The variables of the loop: `errors` holds the line's number and the fault, `pos` is
-- `handle.tell()`, and `rest` is what is left of the file.
pub record Batch : Type 0 where
  pub parsed : List ParsedAccount
  pub failed : ℕ
  pub processed : ℕ
  pub errors : List (ℕ × Fault)
  pub eof : Bool
  pub pos : ℕ
  pub rest : Bytes

-- `decode("utf-8-sig")` drops one byte order mark
unfoldable pub decode_sig : Bytes → Option Text
decode_sig b = decode (if starts_with (0xef ∷ 0xbb ∷ 0xbf ∷ []) b then drop 3 b else b)

-- `if len(errors) < 5: errors.append(…)`
unfoldable pub add_error : List (ℕ × Fault) → ℕ → Fault → List (ℕ × Fault)
add_error errors line fault = if ltb (length errors) 5 then errors ++ (line, fault) ∷ [] else errors

-- what one line comes to: an account, nothing, or a fault
pub data LineOutcome : Type 0 where
  account : ParsedAccount → LineOutcome
  blank : LineOutcome
  fault : Fault → LineOutcome

unfoldable pub parsed_outcome : Result FormatError (Option ParsedAccount) → LineOutcome
parsed_outcome (ok none) = blank
parsed_outcome (ok (some a)) = account a
parsed_outcome (err e) = fault (bad_format e)

module _ (lower : Text → Text) where
  unfoldable pub decoded_outcome : Option Text → LineOutcome
  unfolding parsed_outcome
  decoded_outcome none = fault undecodable
  decoded_outcome (some text) = parsed_outcome (parse_account_line lower text)

  -- the `try` of the loop; `first` is `offset == 0 and processed == 1`
  unfoldable pub line_outcome : Bool → Bytes → LineOutcome
  unfolding decoded_outcome decode_sig
  line_outcome first raw = decoded_outcome (if first then decode_sig raw else decode raw)

-- the line's part in the counters; `base` is `job.processed`
unfoldable pub count_line : ℕ → LineOutcome → Batch → Batch
unfolding add_error
count_line base (account a) b = record b {
  processed = suc b.processed;
  parsed = b.parsed ++ a ∷ [];
}
count_line base blank b = record b { processed = suc b.processed }
count_line base (fault f) b = record b {
  processed = suc b.processed;
  failed = suc b.failed;
  errors = add_error b.errors (base + suc b.processed) f;
}

module _ (lower : Text → Text) (limit offset base : ℕ) where
  unfoldable pub step_read : LineRead → Batch → Batch
  step_read r b =
      let moved = record b { pos = b.pos + (length b.rest - length r.rest); rest = r.rest } in
      if r.too_long
      then count_line base (fault line_too_long) moved
      else if is_empty r.raw
      then record moved { eof = true }
      else count_line base (line_outcome lower (offset == 0 && b.processed == 0) r.raw) moved

  -- `for _ in range(batch_size)`; `none` is a reader out of fuel
  unfoldable pub read_batch : ℕ → Batch → Option Batch
  read_batch zero b = some b
  read_batch (suc n) b = elim (read_limited_line limit b.rest) [
    | none ↦ none
    | some r ↦
        let b' = step_read r b in let more = read_batch n b' in if b'.eof then some b' else more
  ]

-- the state of the loop at the file's offset
unfoldable pub start_batch : ℕ → Bytes → Batch
start_batch offset content = record {
  parsed = [];
  failed = 0;
  processed = 0;
  errors = [];
  eof = false;
  pos = offset;
  rest = drop offset content;
}

abbrev pub or_text : Option Text → Option Text → Option Text
or_text none old = old
or_text (some t) old = some t

-- The writes to the job behind the upsert. `summary` is "；".join(errors), none where it is empty.
unfoldable pub finish_import : ℕ → Batch → ℕ → ℕ → Option Text → Job → Job
finish_import now b inserted skipped summary j =
    let counted = record j {
      cursor_id = b.pos;
      processed = j.processed + b.processed;
      succeeded = j.succeeded + inserted;
      failed = j.failed + b.failed;
      skipped = j.skipped + (skipped + (b.processed - length b.parsed - b.failed));
      error_summary = or_text summary j.error_summary;
      heartbeat_at = some now;
    } in
    if b.eof || j.cancel_requested
    then record counted {
      status = if j.cancel_requested then cancelled else completed;
      finished_at = some now;
    }
    else record counted { status = queued }
