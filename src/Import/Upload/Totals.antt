-- ===== src/Import/Upload/Totals.antt =====
-- The total of an import job of app/main.py against the lines that the worker will read.
use token_loom.Prelude.{
  ℕ, ◌+◌, ◌≡◌, ◌≢◌, refl, sym, ap, ◌∙◌, subst, false, not, Option, some, List, [], ◌∷◌, ◌==◌,
  if◌then◌else◌, is_empty, length, Text, strip, count_char, ends_with, ok, ◌>>=◌, >>=-eq-ok,
  or_raise, or_raise-eq-ok, arith, inl, inr, Bool-cases, if_false,
}
use token_loom.Prelude.Utf8.{Bytes, encode, decode, decode-encode}
use token_loom.Records.{DuplicateMode}
use token_loom.Import.Reader.{newline}
use token_loom.Import.Upload.{
  bad_mode, bad_text, Spool, Upload, mode_of, open_end, write_file, check_content, text_spool,
  write_import, accept_import, import_accounts, write_paste, accept_paste, import_pasted_accounts,
}
use token_loom.Import.Upload.Lines.{lines_read, lines_of, lines_read-eq-lines_of}
use token_loom.Import.Upload.Tracked.{IsSettled, write_file-IsSettled, ok_injective}

-- The total is the number of lines that the worker's reader finds in the file, and there is one.
pub record IsMeasured (u : Upload) : Type 0 where
  pub counted : u.total ≡ lines_read (length u.content) u.content
  pub nonempty : u.content ≢ []

lines_of-IsMeasured : (u : Upload) → u.total ≡ lines_of u.content → u.content ≢ [] → IsMeasured u
lines_of-IsMeasured u e ne = record {
  counted = e ∙ sym (lines_read-eq-lines_of (length u.content) u.content (omega arith));
  nonempty = ne;
}

nonempty_of : (s : Bytes) (n : ℕ) → n ≡ length s → (n == 0) ≡ false → s ≢ []
nonempty_of [] n e h same = ground (arith, e, h)
nonempty_of (c ∷ s) n e h same = cc same

module _ (max_upload_bytes budget : ℕ) where
  check_content-IsMeasured :
      (mode : DuplicateMode) (sp : Spool) {u : Upload}
      → IsSettled sp
      → check_content max_upload_bytes budget mode sp ≡ ok u
      → IsMeasured u
  unfolding check_content
  check_content-IsMeasured mode sp {u} h e = elim (Bool-cases (sp.total_bytes == 0)) [
    | inl t ↦ ground (arith, t, e)
    | inr t ↦
        let same : record { content = sp.content; total = sp.total_lines; duplicate_mode = mode }
            ≡ u =
          ok_injective _ refl (sym (if_false _ _ t) ∙ e) in
        subst IsMeasured same
          (lines_of-IsMeasured _ h.lines (nonempty_of sp.content sp.total_bytes h.bytes t))
  ]

  write_import-IsMeasured :
      (mode : DuplicateMode) (text : Text) (file : Option (List Bytes)) (payload : Bytes)
      {u : Upload}
      → write_import max_upload_bytes budget mode text file payload ≡ ok u
      → IsMeasured u
  unfolding write_import
  write_import-IsMeasured mode text file payload {u} e =
      let body : (write_file max_upload_bytes budget file
              (text_spool max_upload_bytes budget text file payload)
            >>= check_content max_upload_bytes budget mode)
          ≡ ok u =
        ground (arith, e) in
      let (sp, wrote, checked) = >>=-eq-ok _ (check_content max_upload_bytes budget mode) body in
      check_content-IsMeasured mode sp
        (write_file-IsSettled max_upload_bytes budget text file payload wrote) checked

  -- An import of pasted text and of an uploaded file, in whatever chunks it is read, has a file that
  -- is not empty, and its total is the number of lines that the worker will read from it.
  pub import_accounts-IsMeasured :
      (mode text : Text) (file : Option (List Bytes)) {u : Upload}
      → import_accounts max_upload_bytes budget mode text file ≡ ok u
      → IsMeasured u
  unfolding import_accounts accept_import
  import_accounts-IsMeasured mode text file {u} e =
      let (m, _, accepted) = >>=-eq-ok (or_raise (mode_of mode) bad_mode) _ e in
      let body : (or_raise (encode text) bad_text
            >>= write_import max_upload_bytes budget m text file)
          ≡ ok u =
        ground (arith, accepted) in
      let (payload, _, written) = >>=-eq-ok (or_raise (encode text) bad_text) _ body in
      write_import-IsMeasured m text file payload written

  encoded-nonempty :
      (text : Text) {b : Bytes} → is_empty (strip text) ≡ false → encode text ≡ some b → b ≢ []
  unfolding strip decode
  encoded-nonempty [] h e same = cc h
  encoded-nonempty (c ∷ s) h e same =
      let back : decode [] ≡ some (c ∷ s) = ap decode (sym same) ∙ decode-encode (c ∷ s) e in
      cc back

  write_paste-IsMeasured :
      (mode : DuplicateMode) (encoded : Bytes) {u : Upload}
      → encoded ≢ []
      → write_paste max_upload_bytes budget mode encoded ≡ ok u
      → IsMeasured u
  unfolding write_paste
  write_paste-IsMeasured mode [] ne e = absurd (ne refl)
  write_paste-IsMeasured mode (c ∷ s) {u} ne e =
      let same : record {
        content = c ∷ s;
        total = count_char newline (c ∷ s) + (if not (ends_with newline (c ∷ s)) then 1 else 0);
        duplicate_mode = mode;
      }
          ≡ u =
        ground (arith, e) in
      subst IsMeasured same (lines_of-IsMeasured _ (unfold open_end in refl) ne)

  -- The same holds of an import of pasted text alone.
  import_pasted_accounts-IsMeasured :
      (mode text : Text) {u : Upload}
      → import_pasted_accounts max_upload_bytes budget mode text ≡ ok u
      → IsMeasured u
  unfolding import_pasted_accounts accept_paste
  import_pasted_accounts-IsMeasured mode text {u} e =
      let (m, _, accepted) = >>=-eq-ok (or_raise (mode_of mode) bad_mode) _ e in
      elim (Bool-cases (is_empty (strip text))) [
        | inl t ↦ ground (arith, t, accepted)
        | inr t ↦
            let (encoded, some_encoded, written) =
              >>=-eq-ok (or_raise (encode text) bad_text) (write_paste max_upload_bytes budget m)
                (sym (if_false _ _ t) ∙ accepted) in
            write_paste-IsMeasured m encoded
              (encoded-nonempty text t (or_raise-eq-ok (encode text) bad_text some_encoded)) written
      ]
