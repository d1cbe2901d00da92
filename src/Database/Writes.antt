-- ===== src/Database/Writes.antt =====
-- What the commit of a page of app/database.py does to a table by growing id.
use token_loom.Prelude.{
  ℕ, zero, suc, ◌≤◌, ◌<◌, ◌≡◌, refl, true, List, [], ◌∷◌, ◌++◌, take, drop, All, arith,
}
use token_loom.Prelude.Paging.{IsGrowing, behind, last_key}
use token_loom.Records.{Account}
use token_loom.Refresh.Batches.Walk.{id_of}
use token_loom.Database.{written, save}

-- Two lists of one length whose elements are related in turn.
abbrev pub Pairs {ℓ} : {A : Type ℓ} → (A → A → Type 0) → List A → List A → Type 0
Pairs R [] [] = Unit
Pairs R [] (y ∷ ys) = ⊥
Pairs R (x ∷ xs) [] = ⊥
Pairs R (x ∷ xs) (y ∷ ys) = R x y × Pairs R xs ys

abbrev pub SameId : Account → Account → Type 0
SameId a b = b.id ≡ a.id

-- Every id is at most the bound.
abbrev pub IsBelow : ℕ → List Account → Type 0
IsBelow high rows = All (λ a. a.id ≤ high) rows

pub raise-IsBelow :
    (low high : ℕ) (rows : List Account) → low ≤ high → IsBelow low rows → IsBelow high rows
raise-IsBelow low high [] le h = tt
raise-IsBelow low high (a ∷ rows) le h = (omega arith, raise-IsBelow low high rows le h.1)

pub append-IsBelow :
    (high : ℕ) (a b : List Account) → IsBelow high a → IsBelow high b → IsBelow high (a ++ b)
append-IsBelow high [] b p q = q
append-IsBelow high (x ∷ a) b p q = (p.0, append-IsBelow high a b p.1 q)

pub last_key-le :
    (low : ℕ) (rows : List Account) → IsGrowing id_of low rows → low ≤ last_key id_of low rows
unfolding last_key
last_key-le low [] h = omega arith
last_key-le low (a ∷ rows) h = omega (arith, h.0, last_key-le a.id rows h.1)

pub last_key-IsBelow :
    (low : ℕ) (rows : List Account)
    → IsGrowing id_of low rows
    → IsBelow (last_key id_of low rows) rows
unfolding last_key
last_key-IsBelow low [] h = tt
last_key-IsBelow low (a ∷ rows) h = (last_key-le a.id rows h.1, last_key-IsBelow a.id rows h.1)

pub drop-IsGrowing :
    (n low : ℕ) (rows : List Account)
    → IsGrowing id_of low rows
    → IsGrowing id_of (last_key id_of low (take n rows)) (drop n rows)
unfolding last_key
drop-IsGrowing zero low rows h = h
drop-IsGrowing (suc n) low [] h = tt
drop-IsGrowing (suc n) low (a ∷ rows) h = drop-IsGrowing n a.id rows h.1

pub SameId-IsGrowing :
    (low : ℕ) (xs ys : List Account)
    → Pairs SameId xs ys
    → IsGrowing id_of low xs
    → IsGrowing id_of low ys
SameId-IsGrowing low [] [] s h = tt
SameId-IsGrowing low [] (y ∷ ys) s h = absurd s
SameId-IsGrowing low (x ∷ xs) [] s h = absurd s
SameId-IsGrowing low (x ∷ xs) (y ∷ ys) s h =
    let g = SameId-IsGrowing x.id xs ys s.1 h.1 in (omega (arith, s.0, h.0), rw s.0 g)

pub SameId-last_key :
    (low : ℕ) (xs ys : List Account)
    → Pairs SameId xs ys
    → last_key id_of low ys ≡ last_key id_of low xs
unfolding last_key
SameId-last_key low [] [] s = refl
SameId-last_key low [] (y ∷ ys) s = absurd s
SameId-last_key low (x ∷ xs) [] s = absurd s
SameId-last_key low (x ∷ xs) (y ∷ ys) s = rw s.0 (SameId-last_key x.id xs ys s.1)

behind_all :
    (cursor low : ℕ) (rest : List Account)
    → cursor ≤ low
    → IsGrowing id_of low rest
    → behind id_of (λ _. true) cursor rest ≡ rest
unfolding behind
behind_all cursor low [] le g = refl
behind_all cursor low (a ∷ rest) le g = ground (arith, behind_all cursor a.id rest)

-- The rows behind the cursor are what stands behind the rows up to it.
pub behind-append :
    (cursor : ℕ) (done rest : List Account)
    → IsBelow cursor done
    → IsGrowing id_of cursor rest
    → behind id_of (λ _. true) cursor (done ++ rest) ≡ rest
unfolding behind
behind-append cursor [] rest b g = behind_all cursor cursor rest (omega arith) g
behind-append cursor (a ∷ done) rest b g = ground (arith, behind-append cursor done rest)

written-above :
    (low : ℕ) (page : List Account) (a : Account)
    → IsGrowing id_of low page
    → last_key id_of low page < a.id
    → written page a ≡ a
unfolding written last_key
written-above low [] a g h = refl
written-above low (b ∷ page) a g h =
    ground (arith, last_key-le b.id page g.1, written-above b.id page a g.1 h)

written-below :
    (low : ℕ) (page : List Account) (a : Account)
    → IsGrowing id_of low page
    → a.id ≤ low
    → written page a ≡ a
unfolding written
written-below low [] a g h = refl
written-below low (b ∷ page) a g h = ground (arith, written-below b.id page a)

save-above :
    (low high : ℕ) (page rows : List Account)
    → IsGrowing id_of low page
    → last_key id_of low page ≤ high
    → IsGrowing id_of high rows
    → save page rows ≡ rows
unfolding save
save-above low high page [] g h r = refl
save-above low high page (a ∷ rows) g h r =
    cc (written-above low page a g (omega arith), save-above low a.id page rows g (omega arith) r.1)

-- the first row of a page concerns no row behind it
save-skip :
    (low : ℕ) (b : Account) (page rows : List Account)
    → b.id ≤ low
    → IsGrowing id_of low rows
    → save (b ∷ page) rows ≡ save page rows
unfolding save written
save-skip low b page [] h g = refl
save-skip low b page (a ∷ rows) h g = ground (arith, save-skip a.id b page rows)

save-page :
    (low : ℕ) (page upgraded rest : List Account)
    → Pairs SameId page upgraded
    → IsGrowing id_of low (page ++ rest)
    → save upgraded (page ++ rest) ≡ upgraded ++ rest
unfolding save written
save-page low [] [] rest s g = save-above low low [] rest tt (unfold last_key in omega arith) g
save-page low [] (b ∷ upgraded) rest s g = absurd s
save-page low (a ∷ page) [] rest s g = absurd s
save-page low (a ∷ page) (b ∷ upgraded) rest s g =
    let skip = save-skip a.id b upgraded (page ++ rest) (omega (arith, s.0)) g.1 in
    let ih = save-page a.id page upgraded rest s.1 g.1 in ground (arith, s.0, skip, ih)

append-IsGrowing_left :
    (low : ℕ) (a b : List Account) → IsGrowing id_of low (a ++ b) → IsGrowing id_of low a
append-IsGrowing_left low [] b g = tt
append-IsGrowing_left low (x ∷ a) b g = (g.0, append-IsGrowing_left x.id a b g.1)

-- The commit of a page that stands behind the done rows replaces the page and leaves the others.
pub save_lem :
    (cursor : ℕ) (done page upgraded rest : List Account)
    → IsBelow cursor done
    → IsGrowing id_of cursor (page ++ rest)
    → Pairs SameId page upgraded
    → save upgraded (done ++ (page ++ rest)) ≡ done ++ (upgraded ++ rest)
unfolding save
save_lem cursor [] page upgraded rest b g s = save-page cursor page upgraded rest s g
save_lem cursor (a ∷ done) page upgraded rest b g s =
    let growing =
      SameId-IsGrowing cursor page upgraded s (append-IsGrowing_left cursor page rest g) in
    let kept = written-below cursor upgraded a growing b.0 in
    let ih = save_lem cursor done page upgraded rest b.1 g s in cc (kept, ih)
