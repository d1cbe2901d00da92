-- ===== src/Api/Policy.antt =====
-- `update_settings` of app/main.py. A JSON value is a parameter type, with `isinstance(value, bool)`
-- and `int(value)`; `ZoneInfo` and the Unicode digits are parameters too.
pub mod Ranges
use token_loom.Prelude.{
  ℕ, Bool, true, false, ◌&&◌, ◌||◌, not, Option, none, some, List, [], ◌∷◌, all, ltb, leb, ◌==◌,
  if◌then◌else◌, is_empty, length, Text, codes, Result, ok, err, ◌>>=◌, ◌>>◌, raise_if,
}
use token_loom.Prelude.Ints.{ℤ, pos, negsuc, int_ltb}

-- the details of the answers with status 400
pub data PolicyError : Type 0 where
  not_an_integer bad_interval bad_time bad_concurrency bad_retries bad_timezone : PolicyError

-- the payload: an integer is none where missing, a text has been through `str`
pub record PolicyRequest (J : Type 0) : Type 0 where
  pub interval_days : Option J
  pub refresh_concurrency : Option J
  pub health_concurrency : Option J
  pub max_retries : Option J
  pub schedule_time : Text
  pub timezone : Text

-- the value of the setting `refresh_policy`
pub record Policy : Type 0 where
  pub interval_days : ℤ
  pub schedule_time : Text
  pub timezone : Text
  pub refresh_concurrency : ℤ
  pub health_concurrency : ℤ
  pub max_retries : ℤ

-- `not 1 <= k <= n`
unfoldable pub is_outside : ℕ → ℤ → Bool
is_outside n k = int_ltb k (pos 1) || int_ltb (pos n) k

-- `(?:[01]\d|2[0-3]):[0-5]\d` as a whole
unfoldable pub is_time : (ℕ → Bool) → Text → Bool
is_time is_digit (a ∷ b ∷ c ∷ d ∷ e ∷ []) =
    (((a == b'0' || a == b'1') && is_digit b) || (a == b'2' && leb b'0' b && leb b b'3'))
    && c == b':'
    && leb b'0' d
    && leb d b'5'
    && is_digit e
is_time is_digit _ = false

-- `[A-Za-z0-9_+\-/]`
unfoldable pub is_zone_char : ℕ → Bool
is_zone_char c =
    (leb b'A' c && leb c b'Z')
    || (leb b'a' c && leb c b'z')
    || (leb b'0' c && leb c b'9')
    || c == b'_'
    || c == b'+'
    || c == b'-'
    || c == b'/'

unfoldable pub is_zone_text : Text → Bool
unfolding is_zone_char
is_zone_text t = not (ltb 128 (length t)) && not (is_empty t) && all is_zone_char t

module _ {J : Type 0} (is_bool : J → Bool) (int_of : J → Option ℤ) where
  abbrev or_not_integer : Option ℤ → Result PolicyError ℤ
  or_not_integer none = err not_an_integer
  or_not_integer (some k) = ok k

  unfoldable pub payload_integer : Option J → ℤ → Result PolicyError ℤ
  payload_integer none default = ok default
  payload_integer (some v) default =
      if is_bool v then err not_an_integer else or_not_integer (int_of v)

  module _ (is_digit : ℕ → Bool) (is_zone : Text → Bool) where
    -- the checks behind the four integers
    unfoldable pub check_policy : Policy → Result PolicyError Policy
    check_policy p =
        if is_outside 89 p.interval_days
        then err bad_interval
        else if not (is_time is_digit p.schedule_time)
        then err bad_time
        else if is_outside 150 p.refresh_concurrency || is_outside 30 p.health_concurrency
        then err bad_concurrency
        else if is_outside 5 p.max_retries
        then err bad_retries
        else if not (is_zone_text p.timezone)
        then err bad_timezone
        else if not (is_zone p.timezone)
        then err bad_timezone
        else ok p

    unfoldable pub update_settings : PolicyRequest J → Result PolicyError Policy
    update_settings r = do
      interval ← payload_integer r.interval_days (pos 60)
      refresh ← payload_integer r.refresh_concurrency (pos 40)
      health ← payload_integer r.health_concurrency (pos 8)
      retries ← payload_integer r.max_retries (pos 3)
      check_policy (record {
        interval_days = interval;
        schedule_time = r.schedule_time;
        timezone = r.timezone;
        refresh_concurrency = refresh;
        health_concurrency = health;
        max_retries = retries;
      })
