-- ===== src/Api/Listing/Pages.antt =====
-- The pages of `list_accounts` of app/main.py, followed by their cursors.
use token_loom.Prelude.{
  ℕ, zero, suc, ◌≤◌, ◌<◌, ◌≡◌, refl, ap, ◌∙◌, true, false, ◌&&◌, ◌||◌, not, Option, none, some,
  List, [], ◌∷◌, ◌++◌, take, ltb, is_empty, length, length-take, length-drop, take-append-drop,
  append-nil, Text, text_eq, codes, Result, ok, err, arith, inl, inr, Bool-cases, if_false,
}
use token_loom.Prelude.Paging.{IsGrowing, behind, last_key, behind-last_key}
use token_loom.Records.{Account}
use token_loom.Refresh.Batches.Walk.{id_of}
use token_loom.Auth.Session.{is_in}
use token_loom.Api.Listing.{
  ListQuery, Page, ListError, status_labels, is_listed, page_of, list_accounts,
}

abbrev pub items_of : Result ListError Page → List Account
items_of (err e) = []
items_of (ok page) = page.items

abbrev pub cursor_of : Result ListError Page → Option ℕ
cursor_of (err e) = none
cursor_of (ok page) = page.next_cursor

take-take {ℓ} : {A : Type ℓ} (n : ℕ) (xs : List A) → take n (take (suc n) xs) ≡ take n xs
take-take zero xs = refl
take-take (suc n) [] = refl
take-take (suc n) (x ∷ xs) = ap (λ (t : List _). x ∷ t) (take-take n xs)

take_all {ℓ} : {A : Type ℓ} (n : ℕ) (xs : List A) → length xs ≤ n → take n xs ≡ xs
take_all zero [] h = refl
take_all zero (x ∷ xs) h = absurd (omega (arith, h))
take_all (suc n) [] h = refl
take_all (suc n) (x ∷ xs) h = ap (λ (t : List _). x ∷ t) (take_all n xs (omega (arith, h)))

take_nonempty {ℓ} :
    {A : Type ℓ} (n : ℕ) (xs : List A) → 0 < n → n < length xs → is_empty (take n xs) ≡ false
take_nonempty zero xs p h = elim p [ ]
take_nonempty (suc n) [] p h = absurd (omega (arith, h))
take_nonempty (suc n) (x ∷ xs) p h = refl

last_key-start :
    (c d : ℕ) (rows : List Account)
    → is_empty rows ≡ false
    → last_key id_of c rows ≡ last_key id_of d rows
unfolding last_key
last_key-start c d [] h = cc
last_key-start c d (a ∷ rows) h = refl

page_of-more :
    (limit cursor : ℕ) (rows : List Account)
    → 0 < limit
    → limit < length rows
    → page_of limit (take (suc limit) rows) ≡ record {
      items = take limit rows;
      next_cursor = some (last_key id_of cursor (take limit rows));
      has_more = true;
    }
unfolding page_of
page_of-more limit cursor rows p h =
    let more : ltb limit (length (take (suc limit) rows)) ≡ true =
      ground (arith, length-take (suc limit) rows, h) in
    let shown = take_nonempty limit rows p h in
    rw (take-take limit rows, more, shown, last_key-start 0 cursor (take limit rows) shown) refl

page_of-last :
    (limit : ℕ) (rows : List Account)
    → length rows ≤ limit
    → page_of limit (take (suc limit) rows)
      ≡ record { items = rows; next_cursor = none; has_more = false }
unfolding page_of
page_of-last limit rows h =
    let last : ltb limit (length rows) ≡ false = ground (arith, h) in
    rw (take_all (suc limit) rows (omega (arith, h)), take_all limit rows h, last) refl

module _ (lower lookup_hash : Text → Text) where
  -- all that a client sees that follows `next_cursor` to its end
  unfoldable pub follow : ℕ → ListQuery → List Account → List Account
  follow zero q rows = []
  follow (suc fuel) q rows =
      let answer = list_accounts lower lookup_hash q rows in
      items_of answer ++ (elim (cursor_of answer) [
        | none ↦ []
        | some c ↦ follow fuel (record q { cursor = c }) rows
      ])

  list_accounts-ok :
      (q : ListQuery) (rows : List Account)
      → (text_eq q.status (codes "all") || is_in q.status status_labels) ≡ true
      → list_accounts lower lookup_hash q rows
        ≡ ok (
            page_of q.limit
              (take (suc q.limit) (behind id_of (is_listed lower lookup_hash q) q.cursor rows)))
  unfolding list_accounts
  list_accounts-ok q rows h =
      let valid : (not (text_eq q.status (codes "all")) && not (is_in q.status status_labels))
          ≡ false =
        ground (arith, h) in
      if_false _ _ valid

  -- On a table by growing id, for a known status, a positive limit and more fuel than there are rows
  -- to show, the pages that follow each other by `next_cursor` show together exactly the rows behind
  -- the first cursor that the filters let through, in order.
  pub follow-eq-behind :
      (fuel low : ℕ) (q : ListQuery) (rows : List Account)
      → IsGrowing id_of low rows
      → 0 < q.limit
      → (text_eq q.status (codes "all") || is_in q.status status_labels) ≡ true
      → length (behind id_of (is_listed lower lookup_hash q) q.cursor rows) < fuel
      → follow fuel q rows ≡ behind id_of (is_listed lower lookup_hash q) q.cursor rows
  unfolding follow is_listed
  follow-eq-behind zero low q rows g pos known f = elim f [ ]
  follow-eq-behind (suc fuel) low q rows g pos known f =
      let p = is_listed lower lookup_hash q in
      let shown = behind id_of p q.cursor rows in
      elim (Bool-cases (ltb q.limit (length shown))) [
        | inl e ↦
            let more : q.limit < length shown = ground (arith, e) in
            let next = last_key id_of q.cursor (take q.limit shown) in
            let left = behind-last_key id_of p q.limit low q.cursor rows g in
            let ih =
              follow-eq-behind fuel low (record q { cursor = next }) rows g pos known
                (omega (arith, ap length left, length-drop q.limit shown, f, more, pos)) in
            rw (list_accounts-ok q rows known, page_of-more q.limit q.cursor shown pos more)
              (ap (λ (t : List Account). take q.limit shown ++ t) (ih ∙ left)
                ∙ take-append-drop q.limit shown)
        | inr e ↦
            rw (list_accounts-ok q rows known, page_of-last q.limit shown (ground (arith, e)))
              (append-nil shown)
      ]
