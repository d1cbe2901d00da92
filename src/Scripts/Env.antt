-- ===== src/Scripts/Env.antt =====
-- The values of scripts/generate_docker_env.py and scripts/build_bootstrap.py, and the checks of
-- app/config.py at the start.
use token_loom.Prelude.{
  ℕ, ◌≤◌, ◌≡◌, refl, Bool, true, Option, some, List, [], ◌∷◌, le→leb, length, Text, codes,
  starts_with, text_eq, strip, is_space, ok,
}
use token_loom.Prelude.Dict.{get}
use token_loom.Auth.Session.{is_in}
use token_loom.Config.{load_settings, csv_setting, split_all, production_ready, validate}
use token_loom.Scripts.{Secrets, docker_values}

-- the environment of compose.yaml, where the values are taken as they stand
unfoldable pub environment : List (Text × Text) → Text → Option Text
environment values name = get name ((codes "APP_ENV", codes "production") ∷ values)

module _ (lower hash : Text → Text) (s : Secrets) (admin_key : Text) where
  loaded : load_settings lower (environment (docker_values hash s admin_key)) ≡ record {
    app_env = lower (codes "production");
    admin_key_hash = hash admin_key;
    session_secret = s.session_secret;
    encryption_key = s.encryption_key;
    trusted_proxy_ips = codes "127.0.0.1" ∷ codes "::1" ∷ [];
    allowed_hosts = codes "localhost" ∷ codes "127.0.0.1" ∷ codes "::1" ∷ [];
  }
  unfolding load_settings environment docker_values get text_eq csv_setting split_all strip is_space
  loaded = refl

  -- The program accepts the values of the Docker configuration as they stand, for a hash of argon2, a
  -- key of 32 bytes, a secret of at least 32 characters, and two loopback addresses that are valid.
  pub docker_values-validate :
      (key_bytes : Text → Option ℕ) (is_ip : Text → Bool)
      → lower (codes "production") ≡ codes "production"
      → starts_with (codes "$argon2") (hash admin_key) ≡ true
      → key_bytes s.encryption_key ≡ some 32
      → 32 ≤ length s.session_secret
      → is_ip (codes "127.0.0.1") ≡ true
      → is_ip (codes "::1") ≡ true
      → validate key_bytes is_ip
          (load_settings lower (environment (docker_values hash s admin_key)))
        ≡ ok tt
  unfolding validate production_ready is_in text_eq
  docker_values-validate key_bytes is_ip low hashed key long v4 v6 =
      rw (loaded, low, hashed, key, le→leb 32 (length s.session_secret) long, v4, v6) refl
