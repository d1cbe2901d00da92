-- ===== src/Auth/Attempts/Eviction.antt =====
-- Eviction makes room for one client, forgets only other clients, and keeps the table well formed.
use token_loom.Prelude.{ℕ, ◌<◌, false, ◌≡◌, refl, List, [], ◌∷◌, Text, length, arith}
use token_loom.Prelude.Dict
use token_loom.Prelude.Dict.{Dict, IsDistinct, AllValues}
use token_loom.Auth.Attempts.{
  Attempts, Window, max_tracked_clients, expired_keys, pop_all, drop_oldest, evict,
}

pub length-drop_oldest :
    (limit : ℕ) (d : Attempts) → 0 < limit → length (drop_oldest limit d) < limit
unfolding drop_oldest
length-drop_oldest limit [] h = omega arith
length-drop_oldest limit (e ∷ d) h = ground (arith, length-drop_oldest limit d h)

drop_oldest-absent :
    (k : Text) (limit : ℕ) (d : Attempts)
    → Dict.contains k d ≡ false
    → Dict.contains k (drop_oldest limit d) ≡ false
unfolding drop_oldest Dict.contains
drop_oldest-absent k limit [] h = refl
drop_oldest-absent k limit ((j, w) ∷ d) h = ground (arith, drop_oldest-absent k limit d)

drop_oldest-IsDistinct :
    (limit : ℕ) (d : Attempts) → IsDistinct d → IsDistinct (drop_oldest limit d)
unfolding drop_oldest
drop_oldest-IsDistinct limit [] h = tt
drop_oldest-IsDistinct limit ((j, w) ∷ d) h = ground (arith, drop_oldest-IsDistinct limit d h.1)

drop_oldest-AllValues :
    (P : Window → Type 0) (limit : ℕ) (d : Attempts)
    → AllValues P d
    → AllValues P (drop_oldest limit d)
unfolding drop_oldest
drop_oldest-AllValues P limit [] h = tt
drop_oldest-AllValues P limit ((j, w) ∷ d) h = ground (arith, drop_oldest-AllValues P limit d h.1)

pop_all-absent :
    (k : Text) (keys : List Text) (d : Attempts)
    → Dict.contains k d ≡ false
    → Dict.contains k (pop_all keys d) ≡ false
unfolding pop_all
pop_all-absent k [] d h = h
pop_all-absent k (j ∷ keys) d h =
    pop_all-absent k keys (Dict.pop j d) (Dict.contains-pop_absent j k d h)

pop_all-IsDistinct : (keys : List Text) (d : Attempts) → IsDistinct d → IsDistinct (pop_all keys d)
unfolding pop_all
pop_all-IsDistinct [] d h = h
pop_all-IsDistinct (j ∷ keys) d h =
    pop_all-IsDistinct keys (Dict.pop j d) (Dict.pop-IsDistinct j d h)

pop_all-AllValues :
    (P : Window → Type 0) (keys : List Text) (d : Attempts)
    → AllValues P d
    → AllValues P (pop_all keys d)
unfolding pop_all
pop_all-AllValues P [] d h = h
pop_all-AllValues P (j ∷ keys) d h =
    pop_all-AllValues P keys (Dict.pop j d) (Dict.pop-AllValues P j d h)

module _ (now : ℕ) (d : Attempts) where
  pub length-evict : length (evict now d) < max_tracked_clients
  unfolding evict
  length-evict =
      length-drop_oldest max_tracked_clients (pop_all (expired_keys now d) d) (omega arith)

  -- A client that is not tracked stays so.
  pub evict-absent : (k : Text) → Dict.contains k d ≡ false → Dict.contains k (evict now d) ≡ false
  unfolding evict
  evict-absent k h =
      drop_oldest-absent k max_tracked_clients (pop_all (expired_keys now d) d)
        (pop_all-absent k (expired_keys now d) d h)

  pub evict-IsDistinct : IsDistinct d → IsDistinct (evict now d)
  unfolding evict
  evict-IsDistinct h =
      drop_oldest-IsDistinct max_tracked_clients (pop_all (expired_keys now d) d)
        (pop_all-IsDistinct (expired_keys now d) d h)

  pub evict-AllValues : (P : Window → Type 0) → AllValues P d → AllValues P (evict now d)
  unfolding evict
  evict-AllValues P h =
      drop_oldest-AllValues P max_tracked_clients (pop_all (expired_keys now d) d)
        (pop_all-AllValues P (expired_keys now d) d h)
