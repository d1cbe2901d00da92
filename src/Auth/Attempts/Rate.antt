-- ===== src/Auth/Attempts/Rate.antt =====
-- The rate that the throttle of app/auth.py enforces over a sequence of attempts of many clients.
use token_loom.Prelude.{
  ℕ, suc, ◌+◌, ◌≤◌, ◌<◌, Bool, true, false, ◌&&◌, ◌≡◌, refl, inl, inr, List, [], ◌∷◌, ◌++◌, leb,
  if◌then◌else◌, Text, text_eq, length, arith, Bool-cases, text_eq_iff,
}
use token_loom.Prelude.Dict
use token_loom.Prelude.Dict.{IsDistinct}
use token_loom.Auth.Attempts.{
  Attempts, Window, attempt_window, max_failed_attempts, max_tracked_clients, prune_window,
  window_of, prune_attempts, make_room, reserve_login_attempt, clear_failed_logins,
}
use token_loom.Auth.Attempts.Throttle.{
  IsLimited, IsValid, window_of-IsLimited, window_of-put_ne, window_of-pop_ne, later-IsValid,
  reserve_login_attempt_lem, reserve_login_attempt-IsValid, contains-nonempty,
}

-- Attempts as they arrive: the client's address, the instant, and whether the key is right.
abbrev pub Arrivals : Type 0
Arrivals = List (Text × ℕ × Bool)

-- What `login` of app/main.py leaves of the table: a key that is right clears the client's attempts.
unfoldable pub arrive : Text → ℕ → Bool → Attempts → Attempts
arrive j now right d =
    let (granted, d') = reserve_login_attempt j now d in
    if granted && right then clear_failed_logins j d' else d'

-- how many of the arrivals of one client are granted
unfoldable pub granted_to : Text → Arrivals → Attempts → ℕ
unfolding arrive
granted_to ip [] d = 0
granted_to ip ((j, now, right) ∷ rest) d =
    let granted = (reserve_login_attempt j now d).0 in
    let n = granted_to ip rest (arrive j now right d) in
    if text_eq j ip && granted then suc n else n

-- The clock never goes back, and no arrival is later than `limit`.
abbrev pub IsTimed : ℕ → ℕ → Arrivals → Type 0
IsTimed now limit [] = Unit
IsTimed now limit ((j, t, right) ∷ rest) = (now ≤ t) × (t ≤ limit) × IsTimed t limit rest

-- The client never has the right key.
abbrev pub IsFailing : Text → Arrivals → Type 0
IsFailing ip [] = Unit
IsFailing ip ((j, t, right) ∷ rest) = (text_eq j ip ≡ true → right ≡ false) × IsFailing ip rest

-- the attempts that are not before `since`
count_since : ℕ → Window → ℕ
count_since since [] = 0
count_since since (t ∷ ts) =
    if leb since t then suc (count_since since ts) else count_since since ts

count_since-le : (since : ℕ) (w : Window) → count_since since w ≤ length w
unfolding count_since
count_since-le since [] = omega arith
count_since-le since (t ∷ ts) = ground (arith, count_since-le since ts)

-- Within one window of `since`, pruning drops nothing that is not before `since`.
count_since-prune_window :
    (since now : ℕ) (w : Window)
    → now ≤ since + attempt_window
    → count_since since (prune_window now w) ≡ count_since since w
unfolding count_since prune_window
count_since-prune_window since now [] h = refl
count_since-prune_window since now (t ∷ ts) h =
    ground (arith, count_since-prune_window since now ts)

count_since-append :
    (since now : ℕ) (w : Window)
    → since ≤ now
    → count_since since (w ++ now ∷ []) ≡ suc (count_since since w)
unfolding count_since
count_since-append since now [] h = ground arith
count_since-append since now (t ∷ ts) h = ground (arith, count_since-append since now ts)

length-prune_attempts :
    (ip : Text) (now : ℕ) (d : Attempts) → length (prune_attempts ip now d).1 ≤ length d
unfolding prune_attempts
length-prune_attempts ip now d = ground (
  arith,
  Dict.length-pop ip d,
  Dict.length-put ip (prune_window now (window_of ip d)) d,
  contains-nonempty ip now d,
)

window_of-prune_attempts_ne :
    (ip j : Text) (now : ℕ) (d : Attempts)
    → text_eq j ip ≡ false
    → window_of ip (prune_attempts j now d).1 ≡ window_of ip d
unfolding prune_attempts
window_of-prune_attempts_ne ip j now d h =
    ground (
      arith,
      window_of-pop_ne j ip d h,
      window_of-put_ne j ip (prune_window now (window_of j d)) d h,
    )

module _ (now : ℕ) (d : Attempts) (room_left : length d < max_tracked_clients) where
  make_room-same : (j : Text) (e : Attempts) → length e ≤ length d → make_room j now e ≡ e
  unfolding make_room
  make_room-same j e h = ground arith

  -- Where the table has room, another client's attempt does not touch this client's deque.
  window_of-reserve_ne :
      (ip j : Text)
      → text_eq j ip ≡ false
      → window_of ip (reserve_login_attempt j now d).1 ≡ window_of ip d
  unfolding reserve_login_attempt
  window_of-reserve_ne ip j h =
      let pruned = (prune_attempts j now d).1 in
      ground (
        arith,
        make_room-same j pruned (length-prune_attempts j now d),
        window_of-prune_attempts_ne ip j now d h,
        window_of-put_ne j ip (window_of j pruned ++ now ∷ []) pruned h,
      )

  length-reserve : (j : Text) → length (reserve_login_attempt j now d).1 ≤ suc (length d)
  unfolding reserve_login_attempt
  length-reserve j =
      let pruned = (prune_attempts j now d).1 in
      ground (
        arith,
        make_room-same j pruned (length-prune_attempts j now d),
        length-prune_attempts j now d,
        Dict.length-put j (window_of j pruned ++ now ∷ []) pruned,
      )

  arrive-IsValid : (j : Text) (right : Bool) → IsValid now d → IsValid now (arrive j now right d)
  unfolding arrive clear_failed_logins
  arrive-IsValid j right h =
      let (granted, d') = reserve_login_attempt j now d in
      let valid = reserve_login_attempt-IsValid j now d h in
      elim (Bool-cases (granted && right)) [
        | inl e ↦ rw e (record {
          distinct = Dict.pop-IsDistinct j d' valid.distinct;
          windows = Dict.pop-AllValues (IsLimited now) j d' valid.windows;
          tracked = omega (arith, Dict.length-pop j d', valid.tracked);
        })
        | inr e ↦ rw e valid
      ]

  length-arrive : (j : Text) (right : Bool) → length (arrive j now right d) ≤ suc (length d)
  unfolding arrive clear_failed_logins
  length-arrive j right =
      ground (arith, length-reserve j, Dict.length-pop j (reserve_login_attempt j now d).1)

  window_of-arrive_ne :
      (ip j : Text) (right : Bool)
      → text_eq j ip ≡ false
      → window_of ip (arrive j now right d) ≡ window_of ip d
  unfolding arrive clear_failed_logins
  window_of-arrive_ne ip j right h = ground (
    arith,
    window_of-reserve_ne ip j h,
    window_of-pop_ne j ip (reserve_login_attempt j now d).1 h,
  )

arrive-wrong :
    (j : Text) (now : ℕ) (right : Bool) (d : Attempts)
    → right ≡ false
    → arrive j now right d ≡ (reserve_login_attempt j now d).1
unfolding arrive
arrive-wrong j now right d e = ground (arith, e)

-- One arrival of the client adds its grant to the count of recent attempts.
count_since-reserve :
    (since now : ℕ) (ip : Text) (d : Attempts)
    → IsDistinct d
    → since ≤ now
    → now ≤ since + attempt_window
    → let (granted, d') = reserve_login_attempt ip now d in
      let before = count_since since (window_of ip d) in
      count_since since (window_of ip d') ≡ (if granted then suc before else before)
count_since-reserve since now ip d dd p q =
    let law = reserve_login_attempt_lem ip now d dd in
    let w = prune_window now (window_of ip d) in
    rw law.1 (
      ground (
        arith,
        count_since-prune_window since now (window_of ip d) q,
        count_since-append since now w p,
      ))

granted_to-count_since :
    (since now : ℕ) (ip : Text) (reqs : Arrivals) (d : Attempts)
    → IsValid now d
    → since ≤ now
    → IsTimed now (since + attempt_window) reqs
    → IsFailing ip reqs
    → length d + length reqs ≤ max_tracked_clients
    → granted_to ip reqs d + count_since since (window_of ip d) ≤ max_failed_attempts
unfolding granted_to
granted_to-count_since since now ip [] d h p t failing room =
    omega (
      arith,
      count_since-le since (window_of ip d),
      (window_of-IsLimited ip now d h.windows).limited,
    )
granted_to-count_since since now ip ((j, at, right) ∷ rest) d h p t failing room =
    let d' = arrive j at right d in
    let valid = later-IsValid now at d t.0 h in
    let fits = length-arrive at d (omega arith) j right in
    let ih =
      granted_to-count_since since at ip rest d' (arrive-IsValid at d (omega arith) j right valid)
        (omega arith) t.2 failing.1 (omega (arith, fits)) in
    elim (Bool-cases (text_eq j ip)) [
      | inl e ↦ rw e (
          ground (
            arith,
            ih,
            (text_eq_iff j ip).0 e,
            arrive-wrong j at right d (failing.0 e),
            count_since-reserve since at j d h.distinct (omega arith) t.1,
          ))
      | inr e ↦ rw e (ground (arith, ih, window_of-arrive_ne at d (omega arith) ip j right e))
    ]

-- While the clock does not go back, a client of which no attempt has the right key is granted at
-- most eight attempts within fifteen minutes, whether or not other clients have it, from a valid
-- table that all the arrivals leave below its limit of clients.
pub granted_to-le :
    (since : ℕ) (ip : Text) (reqs : Arrivals) (d : Attempts)
    → IsValid since d
    → IsTimed since (since + attempt_window) reqs
    → IsFailing ip reqs
    → length d + length reqs ≤ max_tracked_clients
    → granted_to ip reqs d ≤ max_failed_attempts
granted_to-le since ip reqs d h t failing room =
    omega (arith, granted_to-count_since since since ip reqs d h (omega arith) t failing room)
