-- ===== src/Tests/Settings.antt =====
-- The settings of a small environment.
use token_loom.Config.Numbers.{Numbers, load_numbers, InRange, load_numbers-InRange}
use token_loom.Prelude.{
  ℕ, ◌≡◌, ◌↔◌, refl, Bool, true, false, Option, none, some, List, [], ◌∷◌, Text, codes, text_eq,
  if◌then◌else◌, Result, ok, err,
}
use token_loom.Prelude.Ints.{ℤ, pos}
use token_loom.Config.{Settings, validate, weak_secrets, csv_setting, int_setting, out_of_range}

abbrev settings : Settings
settings = record {
  app_env = codes "production";
  admin_key_hash = codes "$argon2id$v=19";
  session_secret = codes "0123456789abcdef0123456789abcdef";
  encryption_key = codes "key";
  trusted_proxy_ips = codes "::1" ∷ [];
  allowed_hosts = codes "localhost" ∷ [];
}

abbrev thirty_two : Text → Option ℕ
thirty_two key = some 32

abbrev any_ip : Text → Bool
any_ip t = true

settings_accepted : validate thirty_two any_ip settings ≡ ok tt
unfolding validate token_loom.Auth.Session.is_in text_eq token_loom.Config.production_ready
    token_loom.Prelude.starts_with
settings_accepted = refl

no_hash_refused :
    validate thirty_two any_ip (record settings { admin_key_hash = [] }) ≡ err weak_secrets
unfolding validate token_loom.Auth.Session.is_in text_eq token_loom.Config.production_ready
    token_loom.Prelude.starts_with
no_hash_refused = refl

abbrev environment : Text → Option Text
environment name = if text_eq name (codes "HOSTS") then some (codes "a, b,,") else none

hosts_read : csv_setting environment (codes "HOSTS") [] ≡ codes "a" ∷ codes "b" ∷ []
unfolding csv_setting token_loom.Config.split_all text_eq token_loom.Prelude.strip
    token_loom.Prelude.is_space
hosts_read = refl

abbrev no_int : Text → Option ℤ
no_int t = none

default_out_of_range :
    int_setting environment no_int (codes "PORT") (pos 0) (pos 1) (pos 65535) ≡ err out_of_range
unfolding int_setting token_loom.Config.check_range text_eq token_loom.Prelude.Ints.int_ltb
default_out_of_range = refl

-- the numbers where the environment sets one of them
abbrev one_number : Text → Option Text
one_number name = if text_eq name (codes "WORKER_BATCH_SIZE") then some (codes "7") else none

abbrev seven : Text → Option ℤ
seven t = some (pos 7)

abbrev numbers : Numbers
numbers = record {
  session_hours = pos 12;
  bind_port = pos 8787;
  max_upload_bytes = pos 2147483648;
  min_free_bytes = pos 2147483648;
  max_import_line_bytes = pos 262144;
  import_batch_size = pos 1000;
  worker_batch_size = pos 7;
  audit_retention_days = pos 180;
  job_retention_days = pos 90;
}

numbers_read : load_numbers one_number seven ≡ ok numbers
unfolding load_numbers int_setting token_loom.Config.check_range text_eq
    token_loom.Prelude.Ints.int_ltb
numbers_read = refl

load_numbers-InRange_example : InRange numbers
load_numbers-InRange_example = load_numbers-InRange one_number seven numbers_read

-- a batch of none, which ends the start
abbrev zero_of : Text → Option ℤ
zero_of t = some (pos 0)

no_batch : load_numbers one_number zero_of ≡ err out_of_range
unfolding load_numbers int_setting token_loom.Config.check_range text_eq
    token_loom.Prelude.Ints.int_ltb
no_batch = refl
