-- ===== src/Api/Orders.antt =====
-- `create_job` and `delete_accounts` of app/main.py. A value of the JSON list `ids` is a parameter
-- type, with `isinstance(value, bool)` and `int(value)`; the uuid of a job is an argument.
pub mod Totals
use token_loom.Prelude.{
  ℕ, ◌-◌, Bool, true, false, ◌&&◌, ◌||◌, not, Option, none, some, List, [], ◌∷◌, filter, any, ltb,
  ◌==◌, if◌then◌else◌, is_empty, length, Text, text_eq, codes, Result, ok, err, ◌>>=◌,
}
use token_loom.Prelude.Ints.{ℤ, sorted_set}
use token_loom.Records.{
  Account, Job, JobKind, refresh, health, JobScope, selected, everything, due, queued,
}
use token_loom.Refresh.Batches.{in_ids, scope_snapshot}

-- the details of the answers with status 400
pub data OrderError : Type 0 where
  bad_kind bad_scope bad_ids wrong_number not_confirmed empty_scope : OrderError

-- The payload: `ids` is none where it is no list, and empty where it is missing.
pub record Order (J : Type 0) : Type 0 where
  pub kind : Text
  pub scope : Text
  pub ids : Option (List J)
  pub confirm : Bool

unfoldable pub kind_of : Text → Option JobKind
kind_of t =
    if text_eq t (codes "refresh")
    then some refresh
    else if text_eq t (codes "health")
    then some health
    else none

unfoldable pub scope_of : Text → Option JobScope
scope_of t =
    if text_eq t (codes "selected")
    then some selected
    else if text_eq t (codes "all")
    then some everything
    else if text_eq t (codes "due")
    then some due
    else none

-- `if not ids or len(ids) > 200`
unfoldable pub check_number : List ℤ → Result OrderError (List ℤ)
check_number ids = if is_empty ids || ltb 200 (length ids) then err wrong_number else ok ids

module _ {J : Type 0} (is_bool : J → Bool) (int_of : J → Option ℤ) where
  unfoldable pub ints_of : List J → Option (List ℤ)
  ints_of [] = some []
  ints_of (v ∷ vs) = elim (int_of v) [
    | none ↦ none
    | some k ↦ elim (ints_of vs) [ none ↦ none | some ks ↦ some (k ∷ ks) ]
  ]

  unfoldable pub number_of : Option (List ℤ) → Result OrderError (List ℤ)
  number_of none = err bad_ids
  number_of (some ks) = check_number (sorted_set ks)

  unfoldable pub read_ids : Option (List J) → Result OrderError (List ℤ)
  read_ids none = err bad_ids
  read_ids (some vs) = if any is_bool vs then err bad_ids else number_of (ints_of vs)

  -- the `if`/`elif` on the scope
  unfoldable pub chosen_ids : JobKind → JobScope → Order J → Result OrderError (List ℤ)
  chosen_ids kind selected order = read_ids order.ids
  chosen_ids health everything order = if order.confirm then ok [] else err not_confirmed
  chosen_ids kind scope order = ok []

abbrev pub priority_of : JobScope → ℕ
priority_of selected = 100
priority_of _ = 40

abbrev pub stored_ids : JobScope → List ℤ → Option (List ℤ)
stored_ids selected ids = some ids
stored_ids _ ids = none

-- the row of a job that begins, with the values that are not given
unfoldable pub new_job : Text → ℕ → JobKind → JobScope → List ℤ → ℕ → ℕ → Job
new_job id now kind scope ids total largest = record {
  id = id;
  kind = kind;
  scope = scope;
  status = queued;
  priority = priority_of scope;
  account_ids = stored_ids scope ids;
  options = record {
    max_account_id = if largest == 0 then none else some largest;
    duplicate_mode = none;
  };
  source_path = none;
  source_name = none;
  cursor_id = 0;
  total = total;
  processed = 0;
  succeeded = 0;
  failed = 0;
  skipped = 0;
  error_summary = none;
  cancel_requested = false;
  created_at = now;
  started_at = none;
  heartbeat_at = none;
  finished_at = none;
}

-- `async with SessionLocal() as db` of `create_job`
unfoldable pub queue_order :
    Text → ℕ → JobKind → JobScope → List Account → List ℤ → Result OrderError Job
queue_order id now kind scope rows ids =
    let (total, largest) = scope_snapshot now scope ids rows in
    if total == 0 then err empty_scope else ok (new_job id now kind scope ids total largest)

module _ {J : Type 0} (is_bool : J → Bool) (int_of : J → Option ℤ) where
  unfoldable pub scoped_order :
      Text → ℕ → JobKind → Option JobScope → Order J → List Account → Result OrderError Job
  scoped_order id now kind none order rows = err bad_scope
  scoped_order id now kind (some scope) order rows =
      chosen_ids is_bool int_of kind scope order >>= queue_order id now kind scope rows

  unfoldable pub kinded_order :
      Text → ℕ → Option JobKind → Order J → List Account → Result OrderError Job
  kinded_order id now none order rows = err bad_kind
  kinded_order id now (some kind) order rows =
      scoped_order id now kind (scope_of order.scope) order rows

  -- the job that is added to the table
  unfoldable pub create_job : Text → ℕ → Order J → List Account → Result OrderError Job
  unfolding kinded_order
  create_job id now order rows = kinded_order id now (kind_of order.kind) order rows

  unfoldable pub delete_ids : List Account → List ℤ → Result OrderError (ℕ × List Account)
  delete_ids rows ids =
      let kept = filter (λ a. not (in_ids (some ids) a.id)) rows in
      ok (length rows - length kept, kept)

  -- the number of the rows deleted, and those that stay
  unfoldable pub delete_accounts :
      Bool → Option (List J) → List Account → Result OrderError (ℕ × List Account)
  delete_accounts confirm ids rows =
      if not confirm then err not_confirmed else (read_ids is_bool int_of ids >>= delete_ids rows)
