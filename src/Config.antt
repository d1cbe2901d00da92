-- ===== src/Config.antt =====
-- app/config.py: the readers of the environment and the checks at the start. `int`, `str.lower`,
-- `b64decode` and `ip_address` are parameters.
pub mod Checks
pub mod Numbers
use token_loom.Prelude.{
  ℕ, Bool, true, false, ◌&&◌, ◌||◌, not, Option, none, some, List, [], ◌∷◌, map, filter, any, all,
  ltb, leb, ◌==◌, if◌then◌else◌, is_empty, length, Text, text_eq, codes, strip, starts_with, Result,
  ok, err,
}
use token_loom.Prelude.Ints.{ℤ, pos, int_ltb}
use token_loom.Auth.Session.{is_in}

-- what `_int` and `validate` raise
pub data ConfigError : Type 0 where
  not_an_integer out_of_range bad_environment weak_secrets open_hosts bad_proxy : ConfigError

-- `s.split(",")`
abbrev pub before_first : ℕ → List Text → List Text
before_first c [] = (c ∷ []) ∷ []
before_first c (t ∷ ts) = (c ∷ t) ∷ ts

unfoldable pub split_all : ℕ → Text → List Text
split_all c [] = [] ∷ []
split_all c (d ∷ s) = let rest = split_all c s in if d == c then [] ∷ rest else before_first d rest

module _ (env : Text → Option Text) where
  abbrev pub env_or : Text → Text → Text
  env_or name default = elim (env name) [ none ↦ default | some t ↦ t ]

  abbrev pub true_words : List Text
  true_words = codes "1" ∷ codes "true" ∷ codes "yes" ∷ codes "on" ∷ []

  -- `_bool`
  unfoldable pub bool_setting : (Text → Text) → Text → Bool → Bool
  bool_setting lower name default = elim (env name) [
    | none ↦ default
    | some value ↦ is_in (lower (strip value)) true_words
  ]

  unfoldable pub check_range : ℤ → ℤ → Option ℤ → Result ConfigError ℤ
  check_range minimum maximum none = err not_an_integer
  check_range minimum maximum (some value) =
      if int_ltb value minimum || int_ltb maximum value then err out_of_range else ok value

  abbrev raw_integer : (Text → Option ℤ) → ℤ → Option Text → Option ℤ
  raw_integer int_of default none = some default
  raw_integer int_of default (some raw) = int_of raw

  -- `_int`; `int(str(default))` is the default
  unfoldable pub int_setting : (Text → Option ℤ) → Text → ℤ → ℤ → ℤ → Result ConfigError ℤ
  int_setting int_of name default minimum maximum =
      check_range minimum maximum (raw_integer int_of default (env name))

  -- `_csv`, the set as a list
  unfoldable pub csv_setting : Text → Text → List Text
  csv_setting name default =
      filter (λ t. not (is_empty t)) (map strip (split_all b',' (env_or name default)))

-- the settings that `validate` reads
pub record Settings : Type 0 where
  pub app_env : Text
  pub admin_key_hash : Text
  pub session_secret : Text
  pub encryption_key : Text
  pub trusted_proxy_ips : List Text
  pub allowed_hosts : List Text

-- the fields of `Settings` that `validate` reads, from the environment
unfoldable pub load_settings : (Text → Text) → (Text → Option Text) → Settings
load_settings lower env = record {
  app_env = lower (strip (env_or env (codes "APP_ENV") (codes "development")));
  admin_key_hash = env_or env (codes "ADMIN_KEY_HASH") [];
  session_secret = env_or env (codes "SESSION_SECRET") [];
  encryption_key = env_or env (codes "ENCRYPTION_KEY") [];
  trusted_proxy_ips = csv_setting env (codes "TRUSTED_PROXY_IPS") (codes "127.0.0.1,::1");
  allowed_hosts =
      csv_setting env (codes "ALLOWED_HOSTS") (codes "localhost,127.0.0.1,::1,testserver");
}

-- `key_bytes` is the number of bytes that `b64decode` makes of the key, none where it raises;
-- `is_ip` says whether `ip_address` takes the text.
module _ (key_bytes : Text → Option ℕ) (is_ip : Text → Bool) where
  abbrev pub is_key_length : Option ℕ → Bool
  is_key_length none = false
  is_key_length (some n) = n == 32

  unfoldable pub production_ready : Settings → Bool
  production_ready s =
      starts_with (codes "$argon2") s.admin_key_hash
      && is_key_length (key_bytes s.encryption_key)
      && leb 32 (length s.session_secret)

  unfoldable pub validate : Settings → Result ConfigError (Unit {0})
  validate s =
      if not (is_in s.app_env (codes "development" ∷ codes "test" ∷ codes "production" ∷ []))
      then err bad_environment
      else if not (production_ready s)
      then err weak_secrets
      else if is_empty s.allowed_hosts || is_in (codes "*") s.allowed_hosts
      then err open_hosts
      else if not (all is_ip s.trusted_proxy_ips)
      then err bad_proxy
      else ok tt
