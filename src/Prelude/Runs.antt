-- ===== src/Prelude/Runs.antt =====
-- `re.sub` of runs of characters by one character.
use Prim.Native.Nat.{ℕ}
use mathlib.Core.Path.{◌≡◌, refl}
use mathlib.Core.Bool.{Bool, true, false, not}
use mathlib.Core.List.{[], ◌∷◌}
use native.Mathlib.Omega.{arith}
use token_loom.Prelude.Tests.{if◌then◌else◌}
use token_loom.Prelude.Lists.{all, take}
use token_loom.Prelude.Texts.{Text}

module _ (p : ℕ → Bool) (r : ℕ) where
  -- `re.sub("[p]+", r, s)`; `within` says that the character before belongs to a run
  unfoldable pub sub_runs : Bool → Text → Text
  sub_runs within [] = []
  sub_runs within (c ∷ s) =
      let rest = sub_runs (p c) s in
      if not (p c) then c ∷ rest else if within then rest else r ∷ rest

  -- What the replacement and all characters outside of the runs pass, the result passes.
  pub all-sub_runs :
      (q : ℕ → Bool) (within : Bool) (s : Text)
      → q r ≡ true
      → ((c : ℕ) → p c ≡ false → q c ≡ true)
      → all q (sub_runs within s) ≡ true
  unfolding sub_runs
  all-sub_runs q within [] h other = refl
  all-sub_runs q within (c ∷ s) h other = ground (arith, all-sub_runs q (p c) s h other, other c)

pub all-take : (q : ℕ → Bool) (n : ℕ) (s : Text) → all q s ≡ true → all q (take n s) ≡ true
all-take q Prim.Native.Nat.zero s h = refl
all-take q (Prim.Native.Nat.suc n) [] h = refl
all-take q (Prim.Native.Nat.suc n) (c ∷ s) h = ground (arith, all-take q n s)
