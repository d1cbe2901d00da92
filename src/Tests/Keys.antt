-- ===== src/Tests/Keys.antt =====
-- The files of the key scripts at a short token.
use token_loom.Prelude.{
  ℕ, ◌≡◌, refl, true, false, none, some, [], ◌∷◌, ◌++◌, all, Text, codes, ok, err,
}
use token_loom.Scripts.{
  Secrets, no_key, file_exists, key_prefix, split_lines, read_newlines, may_write, admin_key_text,
  read_admin_key, generate_admin_key, generate_docker_env, build_bootstrap, env_lines, quoted_lines,
}
use token_loom.Scripts.Keys.{read_admin_key-generate_admin_key}
use token_loom.Tests.Samples.{same_text}

read_admin_key-generate_admin_key_example :
    read_admin_key (generate_admin_key true (codes "aB-9_") (some (codes "old")))
    ≡ ok (key_prefix ++ codes "aB-9_")
unfolding may_write
read_admin_key-generate_admin_key_example =
    read_admin_key-generate_admin_key true (codes "aB-9_") (some (codes "old")) refl refl

key_kept : generate_admin_key false (codes "aB-9_") (some (codes "old")) ≡ codes "old"
unfolding generate_admin_key
key_kept = refl

no_key_found : read_admin_key (codes "old\r\n tloom_x") ≡ err no_key
unfolding read_admin_key split_lines read_newlines token_loom.Prelude.starts_with
no_key_found = refl

key_behind_lines : read_admin_key (codes "old\r\ntloom_x \rtloom_y") ≡ ok (codes "tloom_x")
unfolding read_admin_key split_lines read_newlines token_loom.Prelude.starts_with
    token_loom.Prelude.strip token_loom.Prelude.is_space
key_behind_lines = refl

two_lines : env_lines ((codes "A", codes "$x") ∷ (codes "B", []) ∷ []) ≡ codes "A=$x\nB=\n"
unfolding env_lines
two_lines = refl

two_quoted : quoted_lines ((codes "A", codes "$x") ∷ (codes "B", []) ∷ []) ≡ codes "A='$x'\nB=''\n"
unfolding quoted_lines
two_quoted = refl

abbrev secrets : Secrets
secrets = record { password = codes "p"; session_secret = codes "s"; encryption_key = codes "e" }

-- The first script tests the file first, the second reads the key first.
refused_first : generate_docker_env false same_text secrets (codes "x") (some []) ≡ err file_exists
unfolding generate_docker_env
refused_first = refl

no_key_first : build_bootstrap false same_text secrets (codes "x") (some []) ≡ err no_key
unfolding build_bootstrap read_admin_key split_lines read_newlines token_loom.Prelude.starts_with
no_key_first = refl

bootstrap_written :
    build_bootstrap true same_text secrets (codes "tloom_k") (some [])
    ≡ ok (
        codes "DB_PASSWORD='p'\nADMIN_KEY_HASH='tloom_k'\nSESSION_SECRET='s'\nENCRYPTION_KEY='e'\n")
unfolding build_bootstrap read_admin_key split_lines read_newlines token_loom.Prelude.starts_with
    quoted_lines token_loom.Scripts.bootstrap_values token_loom.Prelude.strip
    token_loom.Prelude.is_space
bootstrap_written = refl
