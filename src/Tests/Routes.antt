-- ===== src/Tests/Routes.antt =====
-- The routes on a small table.
use token_loom.Prelude.{
  ℕ, zero, suc, ◌+◌, ◌≤◌, ◌<◌, ◌≡◌, ◌≢◌, refl, ap, Bool, true, false, ◌||◌, Option, none, some,
  List, [], ◌∷◌, Text, codes, length, Result, ok, err, arith, text_eq,
}
use token_loom.Prelude.Ints.{ℤ, pos, negsuc}
use token_loom.Prelude.Paging.{behind}
use token_loom.Records.{Account, Job, refresh, selected}
use token_loom.Refresh.Batches.Walk.{id_of}
use token_loom.Api.Listing.{ListQuery, is_listed}
use token_loom.Api.Listing.Pages.{follow, follow-eq-behind}
use token_loom.Api.Orders.{Order, create_job, new_job, bad_ids}
use token_loom.Api.Orders.Totals.{IsOrdered, create_job-IsOrdered}
use token_loom.Api.Policy.{PolicyRequest, Policy, update_settings, bad_interval}
use token_loom.Api.Policy.Ranges.{IsSafe, update_settings-IsSafe}
use token_loom.Tests.Samples.{ascii_lower, same_text, account_of}

abbrev table : List Account
table =
    account_of 2 (codes "aa") none
    ∷ account_of 5 (codes "bb") none
    ∷ account_of 9 (codes "cc") none
    ∷ []

abbrev query : ListQuery
query = record { cursor = 0; limit = 2; status = codes "all"; email = []; domain = codes "X.org" }

shown_of_query : behind id_of (is_listed ascii_lower same_text query) 0 table ≡ table
unfolding is_listed behind text_eq token_loom.Prelude.strip token_loom.Prelude.is_space
shown_of_query = refl

follow-eq-behind_example :
    follow ascii_lower same_text 4 query table
    ≡ behind id_of (is_listed ascii_lower same_text query) 0 table
unfolding text_eq
follow-eq-behind_example =
    follow-eq-behind ascii_lower same_text 4 0 query table (ground arith) (omega arith) refl
      (omega (arith, ap length shown_of_query))

-- JSON values of `ids`: a boolean, an integer, or anything that `int` refuses
data Json : Type 0 where
  boolean : Bool → Json
  integer : ℤ → Json
  other : Json

abbrev is_bool : Json → Bool
is_bool (boolean b) = true
is_bool _ = false

abbrev int_of : Json → Option ℤ
int_of (integer k) = some k
int_of _ = none

abbrev order : Order Json
order = record {
  kind = codes "refresh";
  scope = codes "selected";
  ids = some (integer (pos 9) ∷ integer (pos 2) ∷ integer (pos 9) ∷ integer (negsuc 0) ∷ []);
  confirm = false;
}

abbrev queued_job : Job
queued_job = new_job (codes "j") 7 refresh selected (negsuc 0 ∷ pos 2 ∷ pos 9 ∷ []) 2 9

created : create_job is_bool int_of (codes "j") 7 order table ≡ ok queued_job
unfolding create_job token_loom.Api.Orders.kind_of text_eq token_loom.Api.Orders.scoped_order
    token_loom.Api.Orders.scope_of token_loom.Api.Orders.chosen_ids token_loom.Api.Orders.read_ids
    token_loom.Api.Orders.number_of token_loom.Api.Orders.ints_of token_loom.Api.Orders.check_number
    token_loom.Prelude.Ints.sorted_set token_loom.Prelude.Ints.insert_once
    token_loom.Prelude.Ints.int_ltb token_loom.Api.Orders.queue_order
    token_loom.Refresh.Batches.scope_snapshot token_loom.Prelude.Ints.is_nat
created = refl

create_job-IsOrdered_example : IsOrdered 7 table queued_job
create_job-IsOrdered_example =
    create_job-IsOrdered is_bool int_of (codes "j") 7 order table (ground arith) created

boolean_refused :
    create_job is_bool int_of (codes "j") 7 (record order { ids = some (boolean true ∷ []) }) table
    ≡ err bad_ids
unfolding create_job token_loom.Api.Orders.kind_of text_eq token_loom.Api.Orders.scoped_order
    token_loom.Api.Orders.scope_of token_loom.Api.Orders.chosen_ids token_loom.Api.Orders.read_ids
boolean_refused = refl

abbrev is_digit : ℕ → Bool
is_digit c = text_eq (c ∷ []) (codes "0")

abbrev known_zone : Text → Bool
known_zone t = text_eq t (codes "UTC")

abbrev wish : PolicyRequest Json
wish = record {
  interval_days = some (integer (pos 30));
  refresh_concurrency = none;
  health_concurrency = none;
  max_retries = none;
  schedule_time = codes "20:50";
  timezone = codes "UTC";
}

abbrev granted : Policy
granted = record {
  interval_days = pos 30;
  schedule_time = codes "20:50";
  timezone = codes "UTC";
  refresh_concurrency = pos 40;
  health_concurrency = pos 8;
  max_retries = pos 3;
}

wish_granted : update_settings is_bool int_of is_digit known_zone wish ≡ ok granted
unfolding update_settings token_loom.Api.Policy.payload_integer token_loom.Api.Policy.check_policy
    token_loom.Api.Policy.is_outside token_loom.Prelude.Ints.int_ltb token_loom.Api.Policy.is_time
    text_eq token_loom.Api.Policy.is_zone_text
wish_granted = refl

update_settings-IsSafe_example : IsSafe is_digit known_zone granted
update_settings-IsSafe_example =
    update_settings-IsSafe is_bool int_of is_digit known_zone wish wish_granted

interval_refused :
    update_settings is_bool int_of is_digit known_zone
      (record wish { interval_days = some (integer (pos 90)) })
    ≡ err bad_interval
unfolding update_settings token_loom.Api.Policy.payload_integer token_loom.Api.Policy.check_policy
    token_loom.Api.Policy.is_outside token_loom.Prelude.Ints.int_ltb
interval_refused = refl
