-- ===== src/Config/Checks.antt =====
-- What holds of the settings once app/config.py has accepted them.
use token_loom.Prelude.{
  ℕ, ◌≤◌, ◌≡◌, ◌↔◌, Bool, true, false, Option, none, some, [], ◌∷◌, all, is_empty, length, Text,
  codes, starts_with, ok, arith,
}
use token_loom.Prelude.Ints.{ℤ, int_ltb}
use token_loom.Auth.Session.{is_in}
use token_loom.Config.{
  Settings, is_key_length, production_ready, validate, check_range, raw_integer, int_setting,
}

module _ (key_bytes : Text → Option ℕ) (is_ip : Text → Bool) where
  pub record IsSecure (s : Settings) : Type 0 where
    pub environment :
        is_in s.app_env (codes "development" ∷ codes "test" ∷ codes "production" ∷ []) ≡ true
    pub hashed : starts_with (codes "$argon2") s.admin_key_hash ≡ true
    pub long_key : is_key_length key_bytes is_ip (key_bytes s.encryption_key) ≡ true
    pub long_secret : 32 ≤ length s.session_secret
    pub some_host : is_empty s.allowed_hosts ≡ false
    pub no_wildcard : is_in (codes "*") s.allowed_hosts ≡ false
    pub proxies : all is_ip s.trusted_proxy_ips ≡ true

  -- The program starts exactly with one of the three environments, an argon2 hash, a key of 32
  -- bytes, a secret of at least 32 characters, hosts without a wildcard, and proxies that are
  -- addresses.
  validate_lem : (s : Settings) → (validate key_bytes is_ip s ≡ ok tt) ↔ IsSecure s
  unfolding validate production_ready
  validate_lem s = (
    λ h. ground (arith, h),
    λ h. ground (
      arith, h.environment, h.hashed, h.long_key, h.long_secret, h.some_host, h.no_wildcard,
      h.proxies,
    ),
  )

-- An integer of the environment is within its range, or the program does not start.
pub int_setting-range :
    (env : Text → Option Text) (int_of : Text → Option ℤ) (name : Text)
    (default minimum maximum : ℤ) {value : ℤ}
    → int_setting env int_of name default minimum maximum ≡ ok value
    → (int_ltb value minimum ≡ false) × (int_ltb maximum value ≡ false)
unfolding int_setting check_range
int_setting-range env int_of name default minimum maximum h =
    check_range-ok env minimum maximum (raw_integer env int_of default (env name)) h
  where
    check_range-ok :
        (env : Text → Option Text) (minimum maximum : ℤ) (o : Option ℤ) {value : ℤ}
        → check_range env minimum maximum o ≡ ok value
        → (int_ltb value minimum ≡ false) × (int_ltb maximum value ≡ false)
    check_range-ok env minimum maximum none h = cc h
    check_range-ok env minimum maximum (some v) h = ground (arith, h)
