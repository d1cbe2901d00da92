-- ===== src/Auth/Attempts/Throttle.antt =====
-- What `reserve_login_attempt` of app/auth.py grants, and the invariant of its table.
use token_loom.Prelude.{
  ℕ, ◌≤◌, ◌<◌, true, false, ◌≡◌, refl, inl, inr, none, some, [], ◌∷◌, ◌++◌, not, ◌&&◌, Option, sym,
  ◌∙◌, ltb, leb, if◌then◌else◌, Text, text_eq, length, is_empty, arith, Bool-cases, length-append,
  text_eq_refl,
}
use token_loom.Prelude.Dict
use token_loom.Prelude.Dict.{Dict, IsDistinct, AllValues}
use token_loom.Auth.Attempts.{
  Attempts, or_empty, Window, max_failed_attempts, max_tracked_clients, prune_window, window_of,
  prune_attempts, evict, make_room, reserve_login_attempt,
}
use token_loom.Auth.Attempts.Windows.{
  IsOrdered, length-prune_window, prune_window-IsOrdered, append-IsOrdered, later-IsOrdered,
}
use token_loom.Auth.Attempts.Eviction.{
  length-evict, evict-absent, evict-IsDistinct, evict-AllValues,
}

-- One client's deque: at most eight attempts, in order, none later than `now`.
pub record IsLimited (now : ℕ) (w : Window) : Type 0 where
  pub limited : length w ≤ max_failed_attempts
  pub ordered : IsOrdered now w

-- The table: no address twice, every deque limited, and no more clients than are tracked.
pub record IsValid (now : ℕ) (d : Attempts) : Type 0 where
  pub distinct : IsDistinct d
  pub windows : AllValues (IsLimited now) d
  pub tracked : length d ≤ max_tracked_clients

later_windows :
    (now now' : ℕ) (d : Attempts)
    → now ≤ now'
    → AllValues (IsLimited now) d
    → AllValues (IsLimited now') d
later_windows now now' [] p h = tt
later_windows now now' ((k, w) ∷ d) p h = (
  record { limited = h.0.limited; ordered = later-IsOrdered now now' w p h.0.ordered },
  later_windows now now' d p h.1,
)

pub later-IsValid : (now now' : ℕ) (d : Attempts) → now ≤ now' → IsValid now d → IsValid now' d
later-IsValid now now' d p h = record {
  distinct = h.distinct;
  windows = later_windows now now' d p h.windows;
  tracked = h.tracked;
}

or_empty-IsLimited :
    (ip : Text) (now : ℕ) (d : Attempts) (o : Option Window)
    → AllValues (IsLimited now) d
    → Dict.get ip d ≡ o
    → IsLimited now (or_empty o)
or_empty-IsLimited ip now d none h e = record { limited = omega arith; ordered = tt }
or_empty-IsLimited ip now d (some w) h e = Dict.get-AllValues (IsLimited now) ip d h e

pub window_of-IsLimited :
    (ip : Text) (now : ℕ) (d : Attempts)
    → AllValues (IsLimited now) d
    → IsLimited now (window_of ip d)
unfolding window_of
window_of-IsLimited ip now d h = or_empty-IsLimited ip now d (Dict.get ip d) h refl

window_of-put : (ip : Text) (w : Window) (d : Attempts) → window_of ip (Dict.put ip w d) ≡ w
unfolding window_of
window_of-put ip w d = rw (Dict.get-put ip ip w d, text_eq_refl ip)

pub window_of-put_ne :
    (ip j : Text) (w : Window) (d : Attempts)
    → text_eq ip j ≡ false
    → window_of j (Dict.put ip w d) ≡ window_of j d
unfolding window_of
window_of-put_ne ip j w d h = rw (Dict.get-put ip j w d, h)

pub window_of-pop_ne :
    (ip j : Text) (d : Attempts)
    → text_eq ip j ≡ false
    → window_of j (Dict.pop ip d) ≡ window_of j d
unfolding window_of
window_of-pop_ne ip j d h = rw (Dict.get-pop_ne ip j d h)

window_of-absent : (ip : Text) (d : Attempts) → Dict.contains ip d ≡ false → window_of ip d ≡ []
unfolding window_of
window_of-absent ip d h = rw (Dict.get-absent ip d h)

is_empty-nil : (w : Window) → is_empty w ≡ true → w ≡ []
is_empty-nil [] h = refl
is_empty-nil (t ∷ ts) h = cc

-- The stored deque is the one that `_prune_attempts` returns.
window_of-prune_attempts :
    (ip : Text) (now : ℕ) (d : Attempts)
    → IsDistinct d
    → window_of ip (prune_attempts ip now d).1 ≡ prune_window now (window_of ip d)
unfolding prune_attempts
window_of-prune_attempts ip now d h =
    elim (Bool-cases (is_empty (prune_window now (window_of ip d)))) [
      | inl e ↦ rw e (
          window_of-absent ip (Dict.pop ip d) (Dict.contains-pop_self ip d h)
          ∙ sym (is_empty-nil _ e))
      | inr e ↦ rw e (window_of-put ip _ d)
    ]

pub contains-nonempty :
    (ip : Text) (now : ℕ) (d : Attempts)
    → is_empty (prune_window now (window_of ip d)) ≡ false
    → Dict.contains ip d ≡ true
unfolding prune_window
contains-nonempty ip now d h = elim (Bool-cases (Dict.contains ip d)) [
  | inl e ↦ e
  | inr e ↦ cc (window_of-absent ip d e)
]

prune_attempts-IsValid :
    (ip : Text) (now : ℕ) (d : Attempts) → IsValid now d → IsValid now (prune_attempts ip now d).1
unfolding prune_attempts
prune_attempts-IsValid ip now d h =
    let old = window_of-IsLimited ip now d h.windows in
    let w = prune_window now (window_of ip d) in
    elim (Bool-cases (is_empty w)) [
      | inl e ↦ rw e (record {
        distinct = Dict.pop-IsDistinct ip d h.distinct;
        windows = Dict.pop-AllValues (IsLimited now) ip d h.windows;
        tracked = omega (arith, Dict.length-pop ip d);
      })
      | inr e ↦ rw e (record {
        distinct = Dict.put-IsDistinct ip w d h.distinct;
        windows =
            Dict.put-AllValues (IsLimited now) ip w d
              (record {
                limited = omega (arith, length-prune_window now (window_of ip d));
                ordered = prune_window-IsOrdered now (window_of ip d) old.ordered;
              })
              h.windows;
        tracked = ground (arith, Dict.length-put ip w d, contains-nonempty ip now d e);
      })
    ]

make_room-IsValid :
    (ip : Text) (now : ℕ) (d : Attempts) → IsValid now d → IsValid now (make_room ip now d)
unfolding make_room
make_room-IsValid ip now d h =
    elim (Bool-cases (not (Dict.contains ip d) && leb max_tracked_clients (length d))) [
      | inl e ↦ rw e (record {
        distinct = evict-IsDistinct now d h.distinct;
        windows = evict-AllValues now d (IsLimited now) h.windows;
        tracked = omega (arith, length-evict now d);
      })
      | inr e ↦ rw e h
    ]

-- There is room for the client's entry: it has one, or the table is not full.
make_room-fits :
    (ip : Text) (now : ℕ) (d : Attempts)
    → Dict.contains ip (make_room ip now d) ≡ false
    → length (make_room ip now d) < max_tracked_clients
unfolding make_room
make_room-fits ip now d h = ground (arith, length-evict now d)

-- Eviction leaves the client's own deque alone.
window_of-make_room :
    (ip : Text) (now : ℕ) (d : Attempts) → window_of ip (make_room ip now d) ≡ window_of ip d
unfolding make_room
window_of-make_room ip now d = elim (Bool-cases (Dict.contains ip d)) [
  | inl e ↦ rw e refl
  | inr e ↦ rw e (
      ground (
        arith,
        window_of-absent ip d e,
        window_of-absent ip (evict now d) (evict-absent now d ip e),
      ))
]

prune_attempts-window :
    (ip : Text) (now : ℕ) (d : Attempts)
    → (prune_attempts ip now d).0 ≡ prune_window now (window_of ip d)
unfolding prune_attempts
prune_attempts-window ip now d = refl

-- Adding one attempt where the deque and the table have room for it.
add_attempt-IsValid :
    (ip : Text) (now : ℕ) (d : Attempts)
    → IsValid now d
    → length (window_of ip d) < max_failed_attempts
    → (Dict.contains ip d ≡ false → length d < max_tracked_clients)
    → IsValid now (Dict.put ip (window_of ip d ++ now ∷ []) d)
add_attempt-IsValid ip now d h short fits =
    let old = window_of-IsLimited ip now d h.windows in
    let w = window_of ip d ++ now ∷ [] in
    record {
      distinct = Dict.put-IsDistinct ip w d h.distinct;
      windows =
          Dict.put-AllValues (IsLimited now) ip w d
            (record {
              limited = omega (arith, length-append (window_of ip d) (now ∷ []));
              ordered = append-IsOrdered now (window_of ip d) old.ordered;
            })
            h.windows;
      tracked = ground (arith, Dict.length-put ip w d);
    }

-- In a table of distinct clients an attempt is granted exactly while the client's pruned deque has
-- fewer than eight; a granted one joins that deque, a refused one leaves it pruned.
pub reserve_login_attempt_lem :
    (ip : Text) (now : ℕ) (d : Attempts)
    → IsDistinct d
    → let w = prune_window now (window_of ip d) in
      let (granted, d') = reserve_login_attempt ip now d in
      (granted ≡ ltb (length w) max_failed_attempts)
      × (window_of ip d' ≡ (if granted then w ++ now ∷ [] else w))
unfolding reserve_login_attempt
reserve_login_attempt_lem ip now d h =
    let pruned = (prune_attempts ip now d).1 in
    let room = make_room ip now pruned in
    ground (
      arith,
      prune_attempts-window ip now d,
      window_of-prune_attempts ip now d h,
      window_of-make_room ip now pruned,
      window_of-put ip (window_of ip room ++ now ∷ []) room,
    )

-- An attempt keeps the table valid.
pub reserve_login_attempt-IsValid :
    (ip : Text) (now : ℕ) (d : Attempts)
    → IsValid now d
    → IsValid now (reserve_login_attempt ip now d).1
unfolding reserve_login_attempt
reserve_login_attempt-IsValid ip now d h =
    let pruned = (prune_attempts ip now d).1 in
    let room = make_room ip now pruned in
    let pruned-IsValid = prune_attempts-IsValid ip now d h in
    elim (Bool-cases (leb max_failed_attempts (length (prune_attempts ip now d).0))) [
      | inl e ↦ rw e pruned-IsValid
      | inr e ↦ rw e (
          add_attempt-IsValid ip now room (make_room-IsValid ip now pruned pruned-IsValid)
            (ground (
              arith,
              prune_attempts-window ip now d,
              window_of-prune_attempts ip now d h.distinct,
              window_of-make_room ip now pruned,
            ))
            (make_room-fits ip now pruned))
    ]
