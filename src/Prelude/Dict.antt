-- ===== src/Prelude/Dict.antt =====
-- Python's `dict` with text keys, in insertion order.
use Prim.Native.Nat.{suc, ◌≤◌}
use mathlib.Core.Path.{◌≡◌, refl}
use mathlib.Core.Bool.{Bool, true, false}
use mathlib.Core.Option.{Option, none, some}
use mathlib.Core.List.{List, [], ◌∷◌}
use native.Mathlib.Omega.{arith}
use token_loom.Prelude.Tests.{if◌then◌else◌}
use token_loom.Prelude.Lists.{length}
use token_loom.Prelude.Texts.{Text, text_eq, text_eq_iff}

abbrev pub Dict {ℓ} : Type ℓ → Type ℓ
Dict V = List (Text × V)

module _ {ℓ} {V : Type ℓ} where
  -- `d.get(k)`
  unfoldable pub get : Text → Dict V → Option V
  get k [] = none
  get k ((j, v) ∷ d) = if text_eq j k then some v else get k d

  -- `k in d`
  unfoldable pub contains : Text → Dict V → Bool
  contains k [] = false
  contains k ((j, v) ∷ d) = if text_eq j k then true else contains k d

  -- `d[k] = v`: an old key keeps its place, a new one goes to the end
  unfoldable pub put : Text → V → Dict V → Dict V
  put k v [] = (k, v) ∷ []
  put k v ((j, w) ∷ d) = if text_eq j k then (j, v) ∷ d else (j, w) ∷ put k v d

  -- `d.pop(k, None)`
  unfoldable pub pop : Text → Dict V → Dict V
  pop k [] = []
  pop k ((j, w) ∷ d) = if text_eq j k then d else (j, w) ∷ pop k d

  -- No key is listed twice.
  abbrev pub IsDistinct : Dict V → Type 0
  IsDistinct [] = Unit
  IsDistinct ((k, v) ∷ d) = (contains k d ≡ false) × IsDistinct d

  pub get-put :
      (k j : Text) (v : V) (d : Dict V)
      → get j (put k v d) ≡ (if text_eq k j then some v else get j d)
  unfolding get put
  get-put k j v [] = refl
  get-put k j v ((i, w) ∷ d) =
      ground (arith, text_eq_iff i k, text_eq_iff i j, text_eq_iff k j, get-put k j v d)

  pub contains-put :
      (k j : Text) (v : V) (d : Dict V)
      → contains j (put k v d) ≡ (if text_eq k j then true else contains j d)
  unfolding contains put
  contains-put k j v [] = refl
  contains-put k j v ((i, w) ∷ d) =
      ground (arith, text_eq_iff i k, text_eq_iff i j, text_eq_iff k j, contains-put k j v d)

  pub contains-pop_ne :
      (k j : Text) (d : Dict V) → text_eq k j ≡ false → contains j (pop k d) ≡ contains j d
  unfolding contains pop
  contains-pop_ne k j [] h = refl
  contains-pop_ne k j ((i, w) ∷ d) h =
      ground (arith, text_eq_iff i k, text_eq_iff i j, text_eq_iff k j, contains-pop_ne k j d h)

  pub get-pop_ne : (k j : Text) (d : Dict V) → text_eq k j ≡ false → get j (pop k d) ≡ get j d
  unfolding get pop
  get-pop_ne k j [] h = refl
  get-pop_ne k j ((i, w) ∷ d) h =
      ground (arith, text_eq_iff i k, text_eq_iff i j, text_eq_iff k j, get-pop_ne k j d h)

  -- What is not there before a `pop` is not there after it.
  pub contains-pop_absent :
      (k j : Text) (d : Dict V) → contains j d ≡ false → contains j (pop k d) ≡ false
  unfolding contains pop
  contains-pop_absent k j [] h = refl
  contains-pop_absent k j ((i, w) ∷ d) h = ground (arith, contains-pop_absent k j d)

  pub get-absent : (k : Text) (d : Dict V) → contains k d ≡ false → get k d ≡ none
  unfolding contains get
  get-absent k [] h = refl
  get-absent k ((i, w) ∷ d) h = ground (arith, get-absent k d)

  pub contains-pop_self : (k : Text) (d : Dict V) → IsDistinct d → contains k (pop k d) ≡ false
  unfolding contains pop
  contains-pop_self k [] h = refl
  contains-pop_self k ((i, w) ∷ d) h = ground (arith, text_eq_iff i k, contains-pop_self k d h.1)

  pub put-IsDistinct : (k : Text) (v : V) (d : Dict V) → IsDistinct d → IsDistinct (put k v d)
  unfolding put contains
  put-IsDistinct k v [] h = (refl, tt)
  put-IsDistinct k v ((i, w) ∷ d) h =
      ground
        (arith, text_eq_iff i k, text_eq_iff k i, contains-put k i v d, put-IsDistinct k v d h.1)

  pub pop-IsDistinct : (k : Text) (d : Dict V) → IsDistinct d → IsDistinct (pop k d)
  unfolding pop
  pop-IsDistinct k [] h = tt
  pop-IsDistinct k ((i, w) ∷ d) h =
      ground (arith, contains-pop_absent k i d h.0, pop-IsDistinct k d h.1)

  pub length-pop : (k : Text) (d : Dict V) → length (pop k d) ≤ length d
  unfolding pop
  length-pop k [] = omega arith
  length-pop k ((i, w) ∷ d) = ground (arith, length-pop k d)

  pub length-put :
      (k : Text) (v : V) (d : Dict V)
      → length (put k v d) ≡ (if contains k d then length d else suc (length d))
  unfolding put contains
  length-put k v [] = refl
  length-put k v ((i, w) ∷ d) = ground (arith, length-put k v d)

  -- Every value in the dict has the property.
  abbrev pub AllValues {κ} : (V → Type κ) → Dict V → Type κ
  AllValues P [] = Unit
  AllValues P ((k, v) ∷ d) = P v × AllValues P d

  pub put-AllValues {κ} :
      (P : V → Type κ) (k : Text) (v : V) (d : Dict V)
      → P v
      → AllValues P d
      → AllValues P (put k v d)
  unfolding put
  put-AllValues P k v [] pv h = (pv, tt)
  put-AllValues P k v ((i, w) ∷ d) pv h = ground (arith, put-AllValues P k v d pv h.1)

  pub pop-AllValues {κ} :
      (P : V → Type κ) (k : Text) (d : Dict V) → AllValues P d → AllValues P (pop k d)
  unfolding pop
  pop-AllValues P k [] h = tt
  pop-AllValues P k ((i, w) ∷ d) h = ground (arith, pop-AllValues P k d h.1)

  pub get-AllValues {κ} :
      (P : V → Type κ) (k : Text) {v : V} (d : Dict V) → AllValues P d → get k d ≡ some v → P v
  unfolding get
  get-AllValues P k {v} [] h e = cc
  get-AllValues P k {v} ((i, w) ∷ d) h e = ground (arith, get-AllValues P k {v = v} d h.1)
