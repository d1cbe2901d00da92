-- ===== src/Auth/Attempts.antt =====
-- The login throttle of app/auth.py: `_attempts`, a dict from a client's address to the deque of
-- its attempts, oldest first. Instants are in seconds; `a < now - w` is written `a + w < now`.
pub mod Windows
pub mod Eviction
pub mod Throttle
pub mod Rate
use token_loom.Prelude.{
  ℕ, suc, ◌+◌, ◌*◌, Bool, true, false, ◌&&◌, ◌||◌, not, Option, none, some, List, [], ◌∷◌, ◌++◌,
  ltb, leb, if◌then◌else◌, length, is_empty, Text, get_last_or,
}
use token_loom.Prelude.Dict
use token_loom.Prelude.Dict.{Dict}

-- `_ATTEMPT_WINDOW_SECONDS`
abbrev pub attempt_window : ℕ
attempt_window = 15 * 60

-- `_MAX_FAILED_ATTEMPTS`
abbrev pub max_failed_attempts : ℕ
max_failed_attempts = 8

-- `_MAX_TRACKED_CLIENTS`
abbrev pub max_tracked_clients : ℕ
max_tracked_clients = 4096

abbrev pub Window : Type 0
Window = List ℕ

abbrev pub Attempts : Type 0
Attempts = Dict Window

-- the `while` of `_prune_attempts`
unfoldable pub prune_window : ℕ → Window → Window
prune_window now [] = []
prune_window now (t ∷ ts) = if ltb (t + attempt_window) now then prune_window now ts else t ∷ ts

abbrev pub or_empty : Option Window → Window
or_empty none = []
or_empty (some w) = w

-- `_attempts.get(ip, deque())`
unfoldable pub window_of : Text → Attempts → Window
window_of ip d = or_empty (Dict.get ip d)

-- The deque in the dict is the one that is pruned, so a window that is not empty is written back.
unfoldable pub prune_attempts : Text → ℕ → Attempts → Window × Attempts
prune_attempts ip now d =
    let window = prune_window now (window_of ip d) in
    (window, if is_empty window then Dict.pop ip d else Dict.put ip window d)

-- the keys whose deque is empty or ends before the window
unfoldable pub expired_keys : ℕ → Attempts → List Text
expired_keys now [] = []
expired_keys now ((key, values) ∷ d) =
    if is_empty values || ltb (get_last_or 0 values + attempt_window) now
    then key ∷ expired_keys now d
    else expired_keys now d

unfoldable pub pop_all : List Text → Attempts → Attempts
pop_all [] d = d
pop_all (key ∷ keys) d = pop_all keys (Dict.pop key d)

-- `while len(_attempts) >= limit: _attempts.pop(next(iter(_attempts)))`
unfoldable pub drop_oldest : ℕ → Attempts → Attempts
drop_oldest limit [] = []
drop_oldest limit (e ∷ d) = if leb limit (length (e ∷ d)) then drop_oldest limit d else e ∷ d

unfoldable pub evict : ℕ → Attempts → Attempts
unfolding expired_keys pop_all drop_oldest
evict now d = drop_oldest max_tracked_clients (pop_all (expired_keys now d) d)

-- the eviction that `reserve_login_attempt` makes before it adds a client
unfoldable pub make_room : Text → ℕ → Attempts → Attempts
make_room ip now d =
    if not (Dict.contains ip d) && leb max_tracked_clients (length d) then evict now d else d

unfoldable pub reserve_login_attempt : Text → ℕ → Attempts → Bool × Attempts
reserve_login_attempt ip now d =
    let (window, pruned) = prune_attempts ip now d in
    if leb max_failed_attempts (length window)
    then (false, pruned)
    else let room = make_room ip now pruned in
      (true, Dict.put ip (window_of ip room ++ now ∷ []) room)

unfoldable pub login_allowed : Text → ℕ → Attempts → Bool × Attempts
login_allowed ip now d =
    let (window, pruned) = prune_attempts ip now d in
    (ltb (length window) max_failed_attempts, pruned)

unfoldable pub record_failed_login : Text → ℕ → Attempts → Attempts
record_failed_login ip now d = (reserve_login_attempt ip now d).1

unfoldable pub clear_failed_logins : Text → Attempts → Attempts
clear_failed_logins ip d = Dict.pop ip d
