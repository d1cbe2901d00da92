-- ===== src/Import/Upload/Tracked.antt =====
-- The variables of `import_accounts` of app/main.py while it writes the import file.
use token_loom.Prelude.{
  ℕ, ◌+◌, ◌≡◌, refl, sym, ◌∙◌, subst, true, false, ◌&&◌, not, Option, none, some, List, [], ◌∷◌,
  ◌++◌, ltb, if◌then◌else◌, is_empty, length, length-append, Text, strip, count_char, ends_with,
  Result, ok, err, >>=-eq-ok, arith, inl, inr, Bool-cases, if_true, if_false,
}
use token_loom.Prelude.Utf8.{Bytes}
use token_loom.Import.Reader.{newline}
use token_loom.Import.Upload.{
  UploadError, Spool, open_end, no_spool, write_text, write_chunks, end_file, write_file,
  text_spool,
}
use token_loom.Import.Upload.Lines.{lines_of, count_char-append, one_newline, open_end-append}

-- The route's variables are about what it has written; the last line counts when the file ends.
pub record IsTracked (sp : Spool) : Type 0 where
  pub bytes : sp.total_bytes ≡ length sp.content
  pub lines : sp.total_lines ≡ count_char newline sp.content
  pub closed : sp.file_had_data ≡ false → open_end sp.content ≡ 0
  pub last :
      sp.file_had_data ≡ true → open_end sp.content ≡ (if sp.file_ended_with_newline then 0 else 1)

-- what the job is made of then
pub record IsSettled (sp : Spool) : Type 0 where
  pub bytes : sp.total_bytes ≡ length sp.content
  pub lines : sp.total_lines ≡ lines_of sp.content

no_spool-IsTracked : IsTracked no_spool
unfolding open_end count_char
no_spool-IsTracked = record { bytes = refl; lines = refl; closed = λ _. refl; last = λ e. cc }

write_text-IsTracked : (payload : Bytes) → IsTracked (write_text true payload)
unfolding write_text
write_text-IsTracked payload =
    elim (Bool-cases (not (is_empty payload) && not (ends_with newline payload))) [
      | inl e ↦
          let closed : open_end (payload ++ newline ∷ []) ≡ 0 =
            open_end-append payload newline [] ∙ unfold ends_with in refl in
          let one : open_end payload ≡ 1 = unfold open_end in if_true 1 0 e in
          subst IsTracked (sym (if_true _ _ e)) (record {
            bytes = omega (arith, length-append payload (newline ∷ []));
            lines =
                omega (arith, count_char-append newline payload (newline ∷ []), one_newline, one);
            closed = λ _. closed;
            last = λ t. cc;
          })
      | inr e ↦
          let closed : open_end payload ≡ 0 = unfold open_end in if_false 1 0 e in
          subst IsTracked (sym (if_false _ _ e)) (record {
            bytes = refl;
            lines = omega (arith, closed);
            closed = λ _. closed;
            last = λ t. cc;
          })
    ]

write_text-IsSettled : (payload : Bytes) → IsSettled (write_text false payload)
unfolding write_text
write_text-IsSettled payload = record { bytes = refl; lines = refl }

add_chunk-IsTracked :
    (sp : Spool) (c : ℕ) (chunk : Bytes)
    → IsTracked sp
    → IsTracked (record {
      content = sp.content ++ c ∷ chunk;
      total_bytes = sp.total_bytes + length (c ∷ chunk);
      total_lines = sp.total_lines + count_char newline (c ∷ chunk);
      file_had_data = true;
      file_ended_with_newline = ends_with newline (c ∷ chunk);
    })
add_chunk-IsTracked sp c chunk h = record {
  bytes = omega (arith, h.bytes, length-append sp.content (c ∷ chunk));
  lines = omega (arith, h.lines, count_char-append newline sp.content (c ∷ chunk));
  closed = λ e. cc;
  last = λ _. open_end-append sp.content c chunk;
}

no_spool-IsSettled : IsSettled no_spool
unfolding open_end count_char
no_spool-IsSettled = record { bytes = refl; lines = refl }

pub ok_injective {ℓ} :
    {A : Type ℓ} {x y : A} (m : Result UploadError A) → m ≡ ok x → m ≡ ok y → x ≡ y
ok_injective m d e = cc (d, e)

module _ (max_upload_bytes budget : ℕ) where
  write_chunks-IsTracked :
      (chunks : List Bytes) (sp : Spool) {done : Spool}
      → IsTracked sp
      → write_chunks max_upload_bytes budget chunks sp ≡ ok done
      → IsTracked done
  unfolding write_chunks
  write_chunks-IsTracked [] sp h e = let same : sp ≡ _ = ground (arith, e) in subst IsTracked same h
  write_chunks-IsTracked ([] ∷ chunks) sp h e =
      let same : sp ≡ _ = ground (arith, e) in subst IsTracked same h
  write_chunks-IsTracked ((c ∷ chunk) ∷ chunks) sp {done} h e =
      let total = sp.total_bytes + length (c ∷ chunk) in
      elim (Bool-cases (ltb max_upload_bytes total)) [
        | inl t ↦ absurd (ok_ne_err (sym (if_true _ _ t) ∙ e))
        | inr t ↦ elim (Bool-cases (ltb budget total)) [
          | inl u ↦ absurd (ok_ne_err (sym (if_true _ _ u) ∙ sym (if_false _ _ t) ∙ e))
          | inr u ↦
              write_chunks-IsTracked chunks _ (add_chunk-IsTracked sp c chunk h)
                (sym (if_false _ _ u) ∙ sym (if_false _ _ t) ∙ e)
        ]
      ]
    where
      ok_ne_err : {x : UploadError} → (err x ≡ ok done) → ⊥
      ok_ne_err q = cc q

  end_file-IsSettled : (sp : Spool) → IsTracked sp → IsSettled (end_file max_upload_bytes budget sp)
  unfolding end_file
  end_file-IsSettled sp h = elim (Bool-cases sp.file_had_data) [
    | inl e ↦ ground (arith, e, h.bytes, h.lines, h.last e)
    | inr e ↦ ground (arith, e, h.bytes, h.lines, h.closed e)
  ]

  pub write_file-IsSettled :
      (text : Text) (file : Option (List Bytes)) (payload : Bytes) {done : Spool}
      → write_file max_upload_bytes budget file
          (text_spool max_upload_bytes budget text file payload)
        ≡ ok done
      → IsSettled done
  unfolding write_file
  write_file-IsSettled text none payload {done} e =
      let start : IsSettled (text_spool max_upload_bytes budget text none payload) =
        elim (Bool-cases (is_empty (strip text))) [
          | inl t ↦ subst IsSettled (sym (if_true _ _ t)) no_spool-IsSettled
          | inr t ↦ subst IsSettled (sym (if_false _ _ t)) (write_text-IsSettled payload)
        ] in
      let same : text_spool max_upload_bytes budget text none payload ≡ done =
        ok_injective _ refl e in
      subst IsSettled same start
  write_file-IsSettled text (some chunks) payload {done} e =
      let start : IsTracked (text_spool max_upload_bytes budget text (some chunks) payload) =
        elim (Bool-cases (is_empty (strip text))) [
          | inl t ↦ subst IsTracked (sym (if_true _ _ t)) no_spool-IsTracked
          | inr t ↦ subst IsTracked (sym (if_false _ _ t)) (write_text-IsTracked payload)
        ] in
      let (sp, wrote, last) =
        >>=-eq-ok
          (write_chunks max_upload_bytes budget chunks
            (text_spool max_upload_bytes budget text (some chunks) payload))
          (λ done. ok (end_file max_upload_bytes budget done)) e in
      let same : end_file max_upload_bytes budget sp ≡ done = ground (arith, last) in
      subst IsSettled same (end_file-IsSettled sp (write_chunks-IsTracked chunks _ start wrote))
