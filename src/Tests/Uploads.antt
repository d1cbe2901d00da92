-- ===== src/Tests/Uploads.antt =====
-- What the import routes write, and the totals of their jobs.
use token_loom.Prelude.{
  ℕ, ◌≡◌, refl, Option, none, some, List, [], ◌∷◌, ◌++◌, Text, codes, Result, ok, err,
}
use token_loom.Prelude.Utf8.{Bytes}
use token_loom.Records.{update}
use token_loom.Import.Upload.{Upload, import_accounts, import_pasted_accounts, no_space}
use token_loom.Import.Upload.Totals.{IsMeasured, import_accounts-IsMeasured}

-- a text without a last newline, and a file in two chunks
abbrev chunks : List Bytes
chunks = (codes "b" ++ 10 ∷ codes "c") ∷ codes "d" ∷ []

abbrev written : Upload
written = record {
  content = codes "a" ++ 10 ∷ codes "b" ++ 10 ∷ codes "cd";
  total = 3;
  duplicate_mode = update;
}

both_written : import_accounts 100 50 (codes "update") (codes "a") (some chunks) ≡ ok written
unfolding import_accounts token_loom.Import.Upload.mode_of token_loom.Prelude.text_eq
    token_loom.Import.Upload.accept_import token_loom.Prelude.strip token_loom.Prelude.is_space
    token_loom.Prelude.Utf8.encode token_loom.Import.Upload.write_import
    token_loom.Import.Upload.write_file token_loom.Import.Upload.write_chunks
    token_loom.Import.Upload.write_text token_loom.Prelude.ends_with
    token_loom.Import.Upload.check_content token_loom.Prelude.count_char
    token_loom.Import.Upload.open_end
both_written = refl

import_accounts-IsMeasured_example : IsMeasured written
import_accounts-IsMeasured_example =
    import_accounts-IsMeasured 100 50 (codes "update") (codes "a") (some chunks) both_written

-- The paste route keeps within the budget, the form's text does not.
paste_refused : import_pasted_accounts 100 1 (codes "update") (codes "ab") ≡ err no_space
unfolding import_pasted_accounts token_loom.Import.Upload.mode_of token_loom.Prelude.text_eq
    token_loom.Import.Upload.accept_paste token_loom.Prelude.strip token_loom.Prelude.is_space
    token_loom.Prelude.Utf8.encode token_loom.Import.Upload.write_paste
paste_refused = refl

form_accepted :
    import_accounts 100 1 (codes "update") (codes "ab") none
    ≡ ok (record { content = codes "ab"; total = 1; duplicate_mode = update })
unfolding import_accounts token_loom.Import.Upload.mode_of token_loom.Prelude.text_eq
    token_loom.Import.Upload.accept_import token_loom.Prelude.strip token_loom.Prelude.is_space
    token_loom.Prelude.Utf8.encode token_loom.Import.Upload.write_import
    token_loom.Import.Upload.write_file token_loom.Import.Upload.check_content
    token_loom.Import.Upload.write_text token_loom.Prelude.count_char
    token_loom.Import.Upload.open_end token_loom.Prelude.ends_with
form_accepted = refl
