-- ===== src/Api/Policy/Ranges.antt =====
-- Which policies `update_settings` of app/main.py stores.
use token_loom.Prelude.{
  ℕ, ◌≤◌, ◌≡◌, refl, subst, Bool, true, false, Option, Text, ok, >>=-eq-ok, arith,
}
use token_loom.Prelude.Ints.{ℤ, pos, negsuc, int_ltb}
use token_loom.Api.Policy.{
  PolicyRequest, Policy, is_outside, is_time, is_zone_text, payload_integer, check_policy,
  update_settings,
}

-- the integer is a number from 1 to the bound
pub record IsWithin (n : ℕ) (k : ℤ) : Type 0 where
  pub value : ℕ
  pub form : k ≡ pos value
  pub least : 1 ≤ value
  pub most : value ≤ n

is_outside-IsWithin : (n : ℕ) (k : ℤ) → is_outside n k ≡ false → IsWithin n k
unfolding is_outside int_ltb
is_outside-IsWithin n (pos v) h = record {
  value = v;
  form = refl;
  least = ground (arith, h);
  most = ground (arith, h);
}
is_outside-IsWithin n (negsuc v) h = cc

pub record IsSafe (is_digit : ℕ → Bool) (is_zone : Text → Bool) (p : Policy) : Type 0 where
  pub interval : IsWithin 89 p.interval_days
  pub refresh : IsWithin 150 p.refresh_concurrency
  pub health : IsWithin 30 p.health_concurrency
  pub retries : IsWithin 5 p.max_retries
  pub time : is_time is_digit p.schedule_time ≡ true
  pub zone_text : is_zone_text p.timezone ≡ true
  pub zone : is_zone p.timezone ≡ true

module _ {J : Type 0} (is_bool : J → Bool) (int_of : J → Option ℤ) (is_digit : ℕ → Bool)
    (is_zone : Text → Bool) where
  check_policy-IsSafe :
      (p : Policy) {q : Policy}
      → check_policy is_bool int_of is_digit is_zone p ≡ ok q
      → IsSafe is_digit is_zone q
  unfolding check_policy
  check_policy-IsSafe p {q} h =
      let same : p ≡ q = ground (arith, h) in
      subst (IsSafe is_digit is_zone) same (record {
        interval = is_outside-IsWithin 89 p.interval_days (ground (arith, h));
        refresh = is_outside-IsWithin 150 p.refresh_concurrency (ground (arith, h));
        health = is_outside-IsWithin 30 p.health_concurrency (ground (arith, h));
        retries = is_outside-IsWithin 5 p.max_retries (ground (arith, h));
        time = ground (arith, h);
        zone_text = ground (arith, h);
        zone = ground (arith, h);
      })

  -- A policy that is stored has an interval of 1 to 89 days, concurrencies of 1 to 150 and 1 to 30,
  -- 1 to 5 retries, a time of the form HH:MM and a time zone that exists.
  pub update_settings-IsSafe :
      (r : PolicyRequest J) {q : Policy}
      → update_settings is_bool int_of is_digit is_zone r ≡ ok q
      → IsSafe is_digit is_zone q
  unfolding update_settings
  update_settings-IsSafe r h =
      let (_, _, h1) = >>=-eq-ok (payload_integer is_bool int_of r.interval_days (pos 60)) _ h in
      let (_, _, h2) =
        >>=-eq-ok (payload_integer is_bool int_of r.refresh_concurrency (pos 40)) _ h1 in
      let (_, _, h3) =
        >>=-eq-ok (payload_integer is_bool int_of r.health_concurrency (pos 8)) _ h2 in
      let (_, _, h4) = >>=-eq-ok (payload_integer is_bool int_of r.max_retries (pos 3)) _ h3 in
      check_policy-IsSafe _ h4
