-- ===== src/Database/Passes.antt =====
-- The pages of `migrate_account_ciphertexts` of app/database.py, in turn.
use token_loom.Prelude.{
  ℕ, zero, suc, ◌+◌, ◌<◌, ◌≡◌, refl, sym, ap, ◌∙◌, true, false, some, List, [], ◌∷◌, ◌++◌, take,
  drop, All, is_empty, length, Result, ok, err, inl, inr, arith, Result-cases, append_assoc,
  take-append-drop, length-drop, subst,
}
use token_loom.Prelude.Utf8.{Bytes}
use token_loom.Prelude.Paging.{IsGrowing, behind, last_key, take-IsGrowing}
use token_loom.Crypto.Context.{Field}
use token_loom.Crypto.Vault.{VaultError, Primitives, AreSound}
use token_loom.Records.{Account}
use token_loom.Refresh.Batches.Walk.{id_of}
use token_loom.Database.{
  Migration, migrate_account, migrate_page, migrate_from, migrate_account_ciphertexts, save,
}
use token_loom.Database.Fields.{IsClean}
use token_loom.Database.Writes.{
  IsBelow, raise-IsBelow, append-IsBelow, last_key-le, last_key-IsBelow, drop-IsGrowing,
  SameId-IsGrowing, SameId-last_key, behind-append, save_lem,
}
use token_loom.Database.Pages.{
  any-append, stale, is_err, Settled, IsMigrated, Pairs-Keeps_refl, Keeps-SameId, Pairs-append,
  All-append, stale-append, migrate_page_lem, migrate_page-err,
}

module _ (p : Primitives) (sound : AreSound p) (nonce : ℕ → Field → Bytes) (clock : ℕ → ℕ)
    (twelve : (id : ℕ) (f : Field) → length (nonce id f) ≡ 12) where
  -- one turn of the loop
  migrate_from-page :
      (fuel n cursor migrated : ℕ) (rows page : List Account) (r : ℕ × List Account)
      → take n (behind id_of (λ _. true) cursor rows) ≡ page
      → is_empty page ≡ false
      → migrate_page p nonce clock page ≡ ok r
      → migrate_from p nonce clock (suc fuel) n cursor migrated rows
        ≡ migrate_from p nonce clock fuel n
            (last_key id_of cursor page)
            (migrated + r.0)
            (save r.1 rows)
  unfolding migrate_from
  migrate_from-page fuel n cursor migrated rows page r e full d = rw (e, full, d) (rw e)

  migrate_from-refused :
      (fuel n cursor migrated : ℕ) (rows page : List Account) {raised : VaultError}
      → take n (behind id_of (λ _. true) cursor rows) ≡ page
      → is_empty page ≡ false
      → migrate_page p nonce clock page ≡ err raised
      → migrate_from p nonce clock (suc fuel) n cursor migrated rows
        ≡ some (record { rows = rows; outcome = err raised })
  unfolding migrate_from
  migrate_from-refused fuel n cursor migrated rows page e full d = rw (e, full, d)

  migrate_from-end :
      (fuel n cursor migrated : ℕ) (rows : List Account)
      → behind id_of (λ _. true) cursor rows ≡ []
      → migrate_from p nonce clock (suc fuel) (suc n) cursor migrated rows
        ≡ some (record { rows = rows; outcome = ok migrated })
  unfolding migrate_from
  migrate_from-end fuel n cursor migrated rows e = rw e

  Settled-append :
      (migrated : ℕ) (page upgraded rest new : List Account) (count : ℕ)
      (outcome : Result VaultError ℕ)
      → All IsClean upgraded
      → count ≡ stale page
      → Settled p nonce clock (migrated + count) rest new outcome
      → Settled p nonce clock migrated (page ++ rest) (upgraded ++ new) outcome
  Settled-append migrated page upgraded rest new count (ok total) clean sum s =
      (All-append upgraded new clean s.0, omega (arith, stale-append page rest, s.1, sum))
  Settled-append migrated page upgraded rest new count (err raised) clean sum s =
      ground (arith, any-append (λ a. is_err (migrate_account p nonce clock a)) page rest, s)

  -- a page that cannot be migrated leaves its rows and those behind it as they are
  refused-IsMigrated :
      (migrated : ℕ) (page rest : List Account) {raised : VaultError}
      → migrate_page p nonce clock page ≡ err raised
      → IsMigrated p nonce clock migrated (page ++ rest) (page ++ rest) (err raised)
  refused-IsMigrated migrated page rest d = record {
    kept = Pairs-Keeps_refl p clock (page ++ rest);
    settled = ground (
      arith,
      any-append (λ a. is_err (migrate_account p nonce clock a)) page rest,
      migrate_page-err p sound nonce clock twelve page d,
    );
  }

  abbrev Ends : ℕ → ℕ → ℕ → ℕ → List Account → List Account → Type 0
  Ends fuel n cursor migrated done rest =
      (new : List Account) × (outcome : Result VaultError ℕ) × (migrate_from p nonce clock fuel n
          cursor migrated (done ++ rest)
        ≡ some (record { rows = done ++ new; outcome = outcome }))
      × IsMigrated p nonce clock migrated rest new outcome

  page_turn :
      (fuel n cursor migrated : ℕ) (done page rest : List Account) (r : ℕ × List Account)
      → IsBelow cursor done
      → IsGrowing id_of cursor (page ++ rest)
      → take n (page ++ rest) ≡ page
      → is_empty page ≡ false
      → migrate_page p nonce clock page ≡ ok r
      → Ends fuel n (last_key id_of cursor page) (migrated + r.0) (done ++ r.1) rest
      → Ends (suc fuel) n cursor migrated done (page ++ rest)
  page_turn fuel n cursor migrated done page rest r below growing first full d ends =
      let (kept, clean, count) = migrate_page_lem p sound nonce clock twelve page d in
      let saved =
        save_lem cursor done page r.1 rest below growing (Keeps-SameId p clock page r.1 kept) in
      let found = ap (take n) (behind-append cursor done (page ++ rest) below growing) ∙ first in
      let turn =
        migrate_from-page fuel n cursor migrated (done ++ (page ++ rest)) page r found full d in
      let (new, outcome, runs, good) = ends in
      (
        r.1 ++ new,
        outcome,
        turn ∙ rw (saved, ← append_assoc done r.1 rest) (rw (← append_assoc done r.1 new) runs),
        record {
          kept = Pairs-append p clock page rest r.1 new kept good.kept;
          settled = Settled-append migrated page r.1 rest new r.0 outcome clean count good.settled;
        },
      )

  page_refused :
      (fuel n cursor migrated : ℕ) (done page rest : List Account) {raised : VaultError}
      → IsBelow cursor done
      → IsGrowing id_of cursor (page ++ rest)
      → take n (page ++ rest) ≡ page
      → is_empty page ≡ false
      → migrate_page p nonce clock page ≡ err raised
      → Ends (suc fuel) n cursor migrated done (page ++ rest)
  page_refused fuel n cursor migrated done page rest {raised} below growing first full d =
      let found = ap (take n) (behind-append cursor done (page ++ rest) below growing) ∙ first in
      (
        page ++ rest,
        err raised,
        migrate_from-refused fuel n cursor migrated (done ++ (page ++ rest)) page found full d,
        refused-IsMigrated migrated page rest d,
      )

  done-IsBelow :
      (cursor : ℕ) (done page : List Account) (r : ℕ × List Account)
      → IsBelow cursor done
      → IsGrowing id_of cursor page
      → migrate_page p nonce clock page ≡ ok r
      → IsBelow (last_key id_of cursor page) (done ++ r.1)
  done-IsBelow cursor done page r below growing d =
      let same =
        Keeps-SameId p clock page r.1 (migrate_page_lem p sound nonce clock twelve page d).0 in
      let new = last_key-IsBelow cursor r.1 (SameId-IsGrowing cursor page r.1 same growing) in
      append-IsBelow (last_key id_of cursor page) done r.1
        (raise-IsBelow cursor _ done (last_key-le cursor page growing) below)
        (rw (← SameId-last_key cursor page r.1 same) new)

  -- From rows that are done the loop goes through all that are left.
  migrate_from_lem :
      (fuel n cursor migrated : ℕ) (done rest : List Account)
      → IsBelow cursor done
      → IsGrowing id_of cursor rest
      → length rest < fuel
      → Ends fuel (suc n) cursor migrated done rest
  migrate_from_lem zero n cursor migrated done rest below growing enough = absurd (omega arith)
  migrate_from_lem (suc fuel) n cursor migrated done [] below growing enough = (
    [],
    ok migrated,
    migrate_from-end fuel n cursor migrated (done ++ [])
        (behind-append cursor done [] below growing),
    record { kept = tt; settled = (tt, omega arith) },
  )
  migrate_from_lem (suc fuel) n cursor migrated done (a ∷ rows) below growing enough =
      let page = a ∷ take n rows in
      let rest = drop n rows in
      let whole : page ++ rest ≡ a ∷ rows = take-append-drop (suc n) (a ∷ rows) in
      let growing' = subst (IsGrowing id_of cursor) (sym whole) growing in
      let first = ap (take (suc n)) whole in
      subst (Ends (suc fuel) (suc n) cursor migrated done) whole
        (elim (Result-cases (migrate_page p nonce clock page)) [
          | inr (raised, d) ↦
              page_refused fuel (suc n) cursor migrated done page rest below growing' first refl d
          | inl (r, d) ↦
              page_turn fuel (suc n) cursor migrated done page rest r below growing' first refl d (
                migrate_from_lem fuel n (last_key id_of cursor page) (migrated + r.0) (done ++ r.1)
                  rest
                  (done-IsBelow cursor done page r below
                    (take-IsGrowing id_of (suc n) cursor (a ∷ rows) growing) d)
                  (drop-IsGrowing (suc n) cursor (a ∷ rows) growing)
                  (omega (arith, length-drop n rows)))
        ])

  -- On a table by growing positive id, for a positive page, sound primitives and nonces of twelve
  -- bytes, the migration ends. Behind it, whether or not a row stopped it, every row is as before
  -- but for its ciphertexts, which open to what they opened to, and for `updated_at`, which is the
  -- instant of the commit in a row that was upgraded; it returns the number of ciphertexts
  -- that wanted an upgrade, and then none wants one any more, unless some row cannot be migrated.
  pub migrate_account_ciphertexts-IsMigrated :
      (batch_size : ℕ) (rows : List Account)
      → 0 < batch_size
      → IsGrowing id_of 0 rows
      → (m : Migration) × (migrate_account_ciphertexts p nonce clock batch_size rows ≡ some m)
        × IsMigrated p nonce clock 0 rows m.rows m.outcome
  unfolding migrate_account_ciphertexts
  migrate_account_ciphertexts-IsMigrated zero rows pos growing = elim pos [ ]
  migrate_account_ciphertexts-IsMigrated (suc n) rows pos growing =
      let (new, outcome, runs, good) =
        migrate_from_lem (suc (length rows)) n 0 0 [] rows tt growing (omega arith) in
      (record { rows = new; outcome = outcome }, runs, good)
