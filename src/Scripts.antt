-- ===== src/Scripts.antt =====
-- The scripts that make the keys of a deployment: scripts/generate_admin_key.py,
-- scripts/build_bootstrap.py and scripts/generate_docker_env.py. What `secrets` and argon2 return are
-- arguments; a file is its text.
pub mod Keys
pub mod Env
use token_loom.Prelude.{
  ℕ, Bool, true, false, ◌&&◌, ◌||◌, not, Option, none, some, List, [], ◌∷◌, ◌++◌, leb, ◌==◌,
  if◌then◌else◌, Text, codes, strip, starts_with, Result, ok, err, ◌>>=◌,
}
use token_loom.Api.Names.{cons_head}
use token_loom.Import.Reader.{newline}

-- the text mode of `read_text`: "\r\n" and "\r" are read as "\n"
unfoldable pub read_newlines : Text → Text
read_newlines [] = []
read_newlines (c ∷ s) =
    let rest = read_newlines s in
    if c == 13 then if starts_with (newline ∷ []) s then rest else newline ∷ rest else c ∷ rest

-- the characters at which `splitlines` ends a line
unfoldable pub is_break : ℕ → Bool
is_break c =
    (leb 10 c && leb c 13) || (leb 28 c && leb c 30) || c == 0x85 || c == 0x2028 || c == 0x2029

-- `s.splitlines()` on a text with no "\r\n"
unfoldable pub split_lines : Text → List Text
unfolding is_break cons_head
split_lines [] = []
split_lines (c ∷ s) = let rest = split_lines s in if is_break c then [] ∷ rest else cons_head c rest

abbrev pub key_prefix : Text
key_prefix = codes "tloom_"

-- what the scripts raise: a file without a key, and a file that is there already
pub data ScriptError : Type 0 where
  no_key file_exists : ScriptError

unfoldable pub first_key : List Text → Result ScriptError Text
first_key [] = err no_key
first_key (line ∷ lines) = if starts_with key_prefix line then ok (strip line) else first_key lines

-- `read_admin_key`
unfoldable pub read_admin_key : Text → Result ScriptError Text
unfolding first_key
read_admin_key content = first_key (split_lines (read_newlines content))

-- the text that generate_admin_key.py writes around the key
unfoldable pub admin_key_text : Text → Text
admin_key_text value =
    codes "TokenLoom 管理员密钥"
    ++ (newline ∷ codes "========================"
        ++ (newline ∷ value
            ++ (newline ∷ newline ∷ codes "请妥善保存。登录时只输入上面以 tloom_ 开头的一整行；不要发送给他人。"
                ++ newline ∷ [])))

-- The file behind `main` of generate_admin_key.py; `token` is `secrets.token_urlsafe(36)`.
unfoldable pub generate_admin_key : Bool → Text → Option Text → Text
generate_admin_key force token none = admin_key_text (key_prefix ++ token)
generate_admin_key force token (some content) =
    if not force then content else admin_key_text (key_prefix ++ token)

-- `f"{key}={value}\n"` for each of the values
unfoldable pub env_lines : List (Text × Text) → Text
env_lines [] = []
env_lines ((key, value) ∷ values) = key ++ b'=' ∷ value ++ newline ∷ env_lines values

-- `f"{key}='{value}'\n"` for each of the values
unfoldable pub quoted_lines : List (Text × Text) → Text
quoted_lines [] = []
quoted_lines ((key, value) ∷ values) =
    key ++ b'=' ∷ b'\'' ∷ value ++ b'\'' ∷ newline ∷ quoted_lines values

-- what `secrets.token_urlsafe(32)`, `(48)` and the random key in base64 are
pub record Secrets : Type 0 where
  pub password : Text
  pub session_secret : Text
  pub encryption_key : Text

unfoldable pub docker_values : (Text → Text) → Secrets → Text → List (Text × Text)
docker_values hash s admin_key =
    (codes "POSTGRES_PASSWORD", s.password)
    ∷ (codes "ADMIN_KEY_HASH", hash admin_key)
    ∷ (codes "SESSION_SECRET", s.session_secret)
    ∷ (codes "ENCRYPTION_KEY", s.encryption_key)
    ∷ (codes "TOKEN_LOOM_PORT", codes "8787")
    ∷ (codes "COOKIE_SECURE", codes "false")
    ∷ (codes "TRUST_PROXY_HEADERS", codes "false")
    ∷ (codes "TRUSTED_PROXY_IPS", codes "127.0.0.1,::1")
    ∷ (codes "ALLOWED_HOSTS", codes "localhost,127.0.0.1,::1")
    ∷ (codes "MIN_FREE_BYTES", codes "268435456")
    ∷ []

unfoldable pub bootstrap_values : (Text → Text) → Secrets → Text → List (Text × Text)
bootstrap_values hash s admin_key =
    (codes "DB_PASSWORD", s.password)
    ∷ (codes "ADMIN_KEY_HASH", hash admin_key)
    ∷ (codes "SESSION_SECRET", s.session_secret)
    ∷ (codes "ENCRYPTION_KEY", s.encryption_key)
    ∷ []

-- `if output.exists() and not args.force: raise FileExistsError`
unfoldable pub may_write : Bool → Option Text → Bool
may_write force none = true
may_write force (some content) = force

-- The text that `main` of generate_docker_env.py writes; `hash` is `PasswordHasher(…).hash`.
unfoldable pub generate_docker_env :
    Bool → (Text → Text) → Secrets → Text → Option Text → Result ScriptError Text
unfolding may_write
generate_docker_env force hash s key_file output =
    if not (may_write force output)
    then err file_exists
    else read_admin_key key_file >>= λ (key : Text). ok (env_lines (docker_values hash s key))

-- `main` of build_bootstrap.py reads the key first.
unfoldable pub build_bootstrap :
    Bool → (Text → Text) → Secrets → Text → Option Text → Result ScriptError Text
unfolding may_write
build_bootstrap force hash s key_file output = read_admin_key key_file >>= λ (key : Text).
    if not (may_write force output)
    then err file_exists
    else ok (quoted_lines (bootstrap_values hash s key))
