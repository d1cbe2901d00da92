-- ===== src/Auth/Attempts/Windows.antt =====
-- The deque of one client's attempts, and what pruning keeps of it.
use token_loom.Prelude.{
  ℕ, ◌+◌, ◌≤◌, Bool, ◌≡◌, refl, [], ◌∷◌, ◌++◌, leb, length, filter, All, arith,
}
use token_loom.Auth.Attempts.{Window, attempt_window, prune_window}

-- The attempts are in the order of their instants, and none lies behind `now`.
abbrev pub IsOrdered : ℕ → Window → Type 0
IsOrdered now [] = Unit
IsOrdered now (t ∷ ts) = (t ≤ now) × All (λ u. t ≤ u) ts × IsOrdered now ts

-- The attempt is at most fifteen minutes old.
abbrev pub is_recent : ℕ → ℕ → Bool
is_recent now t = leb now (t + attempt_window)

pub length-prune_window : (now : ℕ) (w : Window) → length (prune_window now w) ≤ length w
unfolding prune_window
length-prune_window now [] = omega arith
length-prune_window now (t ∷ ts) = ground (arith, length-prune_window now ts)

pub prune_window-IsOrdered :
    (now : ℕ) (w : Window) → IsOrdered now w → IsOrdered now (prune_window now w)
unfolding prune_window
prune_window-IsOrdered now [] h = tt
prune_window-IsOrdered now (t ∷ ts) h = ground (arith, prune_window-IsOrdered now ts h.2)

All-recent :
    (now t : ℕ) (ts : Window)
    → now ≤ t + attempt_window
    → All (λ u. t ≤ u) ts
    → filter (is_recent now) ts ≡ ts
All-recent now t [] p h = refl
All-recent now t (u ∷ us) p h = ground (arith, All-recent now t us p h.1)

-- On an ordered deque, dropping from the left until an attempt is recent keeps exactly the
-- recent attempts.
pub prune_window-eq-filter :
    (now : ℕ) (w : Window) → IsOrdered now w → prune_window now w ≡ filter (is_recent now) w
unfolding prune_window
prune_window-eq-filter now [] h = refl
prune_window-eq-filter now (t ∷ ts) h =
    ground (arith, prune_window-eq-filter now ts h.2, All-recent now t ts)

All-le-append :
    (now t : ℕ) (ts : Window) → t ≤ now → All (λ u. t ≤ u) ts → All (λ u. t ≤ u) (ts ++ now ∷ [])
All-le-append now t [] p h = (p, tt)
All-le-append now t (u ∷ us) p h = (h.0, All-le-append now t us p h.1)

pub append-IsOrdered : (now : ℕ) (w : Window) → IsOrdered now w → IsOrdered now (w ++ now ∷ [])
append-IsOrdered now [] h = (omega arith, tt, tt)
append-IsOrdered now (t ∷ ts) h = (h.0, All-le-append now t ts h.0 h.1, append-IsOrdered now ts h.2)

pub later-IsOrdered : (now now' : ℕ) (w : Window) → now ≤ now' → IsOrdered now w → IsOrdered now' w
later-IsOrdered now now' [] p h = tt
later-IsOrdered now now' (t ∷ ts) p h = (omega arith, h.1, later-IsOrdered now now' ts p h.2)
