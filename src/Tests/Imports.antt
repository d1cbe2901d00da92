-- ===== src/Tests/Imports.antt =====
-- The import of a small file, and the statements it comes to.
use token_loom.Prelude.{
  ℕ, ◌+◌, ◌≡◌, ◌≢◌, ◌≤◌, ◌⊎◌, ◌↔◌, refl, Bool, true, false, Option, none, some, List, [], ◌∷◌, ◌++◌,
  Text, codes, Result, ok, err, length, arith, ltb, if◌then◌else◌,
}
use token_loom.Prelude.Utf8.{Bytes}
use token_loom.Records.{Job, running, update, skip}
use token_loom.Import.Reader.{LineRead, read_limited_line}
use token_loom.Import.Reader.Lines.{first_line, after_line, read_limited_line_lem}
use token_loom.Import.Rows.{
  Row, AccountTable, find_hash, row_affected_twice, upsert_accounts, new_account, update_rows,
}
use token_loom.Import.Rows.Upsert.{
  Outcome, last_with, upsert_accounts-Outcome, upsert_accounts-keeps,
}
use token_loom.Import.Batch.{Batch, read_batch, start_batch, finish_import}
use token_loom.Import.Batch.Counts.{
  IsCounted, IsBalanced, start_batch-IsCounted, read_batch-IsCounted, finish_import-IsBalanced,
}
use token_loom.Tests.Samples.{ascii_lower, account_of, job_of}

-- a comment, a line that is longer than thirty bytes, and a line of two parts
abbrev content : Bytes
content =
    codes "# note" ++ 10 ∷ codes "aaaaaaaaaaaaaaaaaaaaaaaaaaaaaaaaaaaaaaa" ++ 10 ∷ codes "a----b"

read_limited_line_lem_example :
    read_limited_line 30 content
    ≡ some (
        if ltb 30 (length (first_line content))
        then record { raw = []; too_long = true; rest = after_line content }
        else record { raw = first_line content; too_long = false; rest = after_line content })
read_limited_line_lem_example = read_limited_line_lem 30 content

at_start : (start_batch 0 content).eof ≡ false
unfolding start_batch
at_start = refl

read_batch-IsCounted_example :
    (b' : Batch) × (read_batch ascii_lower 30 0 0 5 (start_batch 0 content) ≡ some b')
    × IsCounted content b'
    × (((b'.eof ≡ true) × (b'.rest ≡ []))
        ⊎ ((b'.eof ≡ false) × (length b'.rest + 5 ≤ length (start_batch 0 content).rest)))
read_batch-IsCounted_example =
    read_batch-IsCounted ascii_lower 30 0 0 content 5 (start_batch 0 content) at_start
      (start_batch-IsCounted 0 content)

-- two lines of two parts, over one byte of content each
abbrev failures : Option Batch → ℕ × ℕ
failures none = (0, 0)
failures (some b) = (b.processed, b.failed)

read_short :
    failures (read_batch ascii_lower 3 0 0 5 (start_batch 0 (b'a' ∷ 10 ∷ b'b' ∷ 10 ∷ []))) ≡ (2, 2)
unfolding read_batch start_batch read_limited_line token_loom.Import.Reader.readline
    token_loom.Import.Reader.drain token_loom.Prelude.ends_with token_loom.Import.Batch.step_read
    token_loom.Import.Batch.count_line token_loom.Import.Batch.line_outcome
    token_loom.Prelude.Utf8.decode token_loom.Prelude.starts_with
    token_loom.Accounts.Parse.parse_account_line token_loom.Accounts.Parse.parse_stripped
    token_loom.Accounts.Parse.strip_mark token_loom.Prelude.strip token_loom.Prelude.is_space
    token_loom.Accounts.Parse.split_at token_loom.Accounts.Parse.cut_at
read_short = refl

abbrev job : Job
job = job_of (codes "j") running 70 0 false none

finish_import-IsBalanced_example : IsBalanced (finish_import 7 (start_batch 0 content) 0 0 none job)
unfolding start_batch
finish_import-IsBalanced_example =
    finish_import-IsBalanced content 7 0 0 none (start_batch 0 content) job
      (start_batch-IsCounted 0 content) refl refl

abbrev row : Text → Bytes → Row
row hash token = record {
  email_encrypted = [];
  email_hash = hash;
  email_masked = [];
  domain = [];
  client_id_encrypted = [];
  refresh_token_encrypted = token;
  source_name = [];
  next_refresh_at = 60;
  now = 7;
}

abbrev repeated : List Row
repeated = row (codes "aa") (1 ∷ []) ∷ row (codes "bb") (2 ∷ []) ∷ row (codes "aa") (3 ∷ []) ∷ []

abbrev table : AccountTable
table = record { rows = account_of 4 (codes "aa") none ∷ []; next_id = 5 }

abbrev takes_all : List Row → Bool
takes_all _ = false

abbrev refuses_all : List Row → Bool
refuses_all _ = true

refused : upsert_accounts refuses_all update repeated table ≡ err row_affected_twice
unfolding upsert_accounts
refused = refl

update_taken :
    upsert_accounts takes_all update repeated table ≡ ok (3, 0, update_rows repeated table)
unfolding upsert_accounts
update_taken = refl

upsert_accounts-Outcome_example :
    Outcome
      (codes "aa")
      table.rows
      (update_rows repeated table).rows
      (last_with (codes "aa") repeated)
upsert_accounts-Outcome_example =
    upsert_accounts-Outcome takes_all (codes "aa") repeated table update_taken

abbrev skipped_table : AccountTable
skipped_table = record {
  rows = account_of 4 (codes "aa") none ∷ new_account 5 (row (codes "bb") (2 ∷ [])) ∷ [];
  next_id = 6;
}

skip_takes : upsert_accounts takes_all skip repeated table ≡ ok (1, 2, skipped_table)
unfolding upsert_accounts token_loom.Import.Rows.insert_rows find_hash token_loom.Prelude.text_eq
    token_loom.Import.Rows.add_row
skip_takes = refl

found_before : find_hash (codes "aa") table.rows ≡ some (account_of 4 (codes "aa") none)
unfolding find_hash token_loom.Prelude.text_eq
found_before = refl

upsert_accounts-keeps_example :
    find_hash (codes "aa") skipped_table.rows ≡ some (account_of 4 (codes "aa") none)
upsert_accounts-keeps_example =
    upsert_accounts-keeps takes_all (codes "aa") repeated table (account_of 4 (codes "aa") none)
      skip_takes found_before
