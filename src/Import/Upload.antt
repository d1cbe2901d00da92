-- ===== src/Import/Upload.antt =====
-- `import_accounts` and `import_pasted_accounts` of app/main.py: what is written to the import file,
-- and the total of the job. `budget` is `import_disk_budget()`.
pub mod Lines
pub mod Tracked
pub mod Totals
use token_loom.Prelude.{
  ℕ, suc, ◌+◌, ◌*◌, Bool, true, false, ◌&&◌, ◌||◌, not, Option, none, some, List, [], ◌∷◌, ◌++◌,
  min, ltb, leb, ◌==◌, if◌then◌else◌, is_empty, length, Text, text_eq, codes, strip, count_char,
  ends_with, Result, ok, err, ◌>>=◌, or_raise,
}
use token_loom.Prelude.Utf8.{Bytes, encode}
use token_loom.Records.{DuplicateMode, update, skip, Job, import_file, file, queued}
use token_loom.Import.Reader.{newline}

-- the details of the answers 400, 413 and 507, and the UnicodeEncodeError of a lone surrogate
pub data UploadError : Type 0 where
  bad_mode nothing_given text_too_large file_too_large no_space empty_content bad_text : UploadError

-- The import file and the variables of the route.
pub record Spool : Type 0 where
  pub content : Bytes
  pub total_bytes : ℕ
  pub total_lines : ℕ
  pub file_had_data : Bool
  pub file_ended_with_newline : Bool

-- what the job is made of
pub record Upload : Type 0 where
  pub content : Bytes
  pub total : ℕ
  pub duplicate_mode : DuplicateMode

unfoldable pub mode_of : Text → Option DuplicateMode
mode_of t =
    if text_eq t (codes "update")
    then some update
    else if text_eq t (codes "skip")
    then some skip
    else none

-- `1 if payload and not payload.endswith(b"\n") else 0`
unfoldable pub open_end : Bytes → ℕ
open_end b = if not (is_empty b) && not (ends_with newline b) then 1 else 0

abbrev pub no_spool : Spool
no_spool = record {
  content = [];
  total_bytes = 0;
  total_lines = 0;
  file_had_data = false;
  file_ended_with_newline = true;
}

-- the block `if text.strip()`
unfoldable pub write_text : Bool → Bytes → Spool
write_text has_file payload =
    let lines = count_char newline payload + open_end payload in
    if has_file && not (is_empty payload) && not (ends_with newline payload)
    then record no_spool {
      content = payload ++ newline ∷ [];
      total_bytes = length payload + 1;
      total_lines = lines;
    }
    else record no_spool { content = payload; total_bytes = length payload; total_lines = lines }

module _ (max_upload_bytes budget : ℕ) where
  -- `while chunk := await file.read(…)`
  unfoldable pub write_chunks : List Bytes → Spool → Result UploadError Spool
  write_chunks [] sp = ok sp
  write_chunks ([] ∷ chunks) sp = ok sp
  write_chunks ((c ∷ chunk) ∷ chunks) sp =
      let total = sp.total_bytes + length (c ∷ chunk) in
      let rest = write_chunks chunks (record {
        content = sp.content ++ c ∷ chunk;
        total_bytes = total;
        total_lines = sp.total_lines + count_char newline (c ∷ chunk);
        file_had_data = true;
        file_ended_with_newline = ends_with newline (c ∷ chunk);
      }) in
      if ltb max_upload_bytes total
      then err file_too_large
      else if ltb budget total
      then err no_space
      else rest

  -- `if file_had_data and not file_ended_with_newline`
  unfoldable pub end_file : Spool → Spool
  end_file sp =
      if sp.file_had_data && not sp.file_ended_with_newline
      then record sp { total_lines = suc sp.total_lines }
      else sp

  unfoldable pub write_file : Option (List Bytes) → Spool → Result UploadError Spool
  unfolding end_file
  write_file none sp = ok sp
  write_file (some chunks) sp = write_chunks chunks sp >>= λ done. ok (end_file done)

  -- `if total_bytes == 0`
  unfoldable pub check_content : DuplicateMode → Spool → Result UploadError Upload
  check_content mode sp =
      if sp.total_bytes == 0
      then err empty_content
      else ok (record { content = sp.content; total = sp.total_lines; duplicate_mode = mode })

  abbrev pub is_given : Option (List Bytes) → Bool
  is_given none = false
  is_given (some chunks) = true

  abbrev text_spool : Text → Option (List Bytes) → Bytes → Spool
  text_spool text upload payload =
      if is_empty (strip text) then no_spool else write_text (is_given upload) payload

  -- what is behind the first two checks of `import_accounts`; an error leaves no file
  unfoldable pub write_import :
      DuplicateMode → Text → Option (List Bytes) → Bytes → Result UploadError Upload
  write_import mode text upload payload =
      if ltb (10 * 1024 * 1024) (length payload)
      then err text_too_large
      else if budget == 0
      then err no_space
      else write_file upload (text_spool text upload payload) >>= check_content mode

  unfoldable pub accept_import :
      Text → Option (List Bytes) → DuplicateMode → Result UploadError Upload
  accept_import text upload mode =
      if is_empty (strip text) && not (is_given upload)
      then err nothing_given
      else or_raise (encode text) bad_text >>= write_import mode text upload

  unfoldable pub import_accounts : Text → Text → Option (List Bytes) → Result UploadError Upload
  import_accounts mode text upload = or_raise (mode_of mode) bad_mode >>= accept_import text upload

  -- what is behind the encoding in `import_pasted_accounts`
  unfoldable pub write_paste : DuplicateMode → Bytes → Result UploadError Upload
  write_paste mode encoded =
      if ltb (min (10 * 1024 * 1024) max_upload_bytes) (length encoded)
      then err text_too_large
      else if budget == 0
      then err no_space
      else if ltb budget (length encoded)
      then err no_space
      else ok (record {
        content = encoded;
        total = count_char newline encoded + (if not (ends_with newline encoded) then 1 else 0);
        duplicate_mode = mode;
      })

  unfoldable pub accept_paste : Text → DuplicateMode → Result UploadError Upload
  accept_paste text mode =
      if is_empty (strip text)
      then err nothing_given
      else or_raise (encode text) bad_text >>= write_paste mode

  unfoldable pub import_pasted_accounts : Text → Text → Result UploadError Upload
  import_pasted_accounts mode text = or_raise (mode_of mode) bad_mode >>= accept_paste text

-- The row that both routes add, with the path of the import file and the name that is shown.
unfoldable pub import_job : Text → ℕ → Text → Text → Upload → Job
import_job id now path name u = record {
  id = id;
  kind = import_file;
  scope = file;
  status = queued;
  priority = 70;
  account_ids = none;
  options = record { max_account_id = none; duplicate_mode = some u.duplicate_mode };
  source_path = some path;
  source_name = some name;
  cursor_id = 0;
  total = u.total;
  processed = 0;
  succeeded = 0;
  failed = 0;
  skipped = 0;
  error_summary = none;
  cancel_requested = false;
  created_at = now;
  started_at = none;
  heartbeat_at = none;
  finished_at = none;
}
