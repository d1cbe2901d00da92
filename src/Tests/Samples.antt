-- ===== src/Tests/Samples.antt =====
-- Inputs that the runs share, and what stands for the code outside the repository.
use token_loom.Prelude.{
  ℕ, ◌+◌, refl, Bool, ◌&&◌, Option, none, some, [], ◌∷◌, ◌++◌, map, leb, ◌==◌, if◌then◌else◌,
  length, take, drop, Text, text_eq, text_eq_iff, text_eq_refl, codes, arith, take-append,
  drop-append, ==_iff,
}
use token_loom.Prelude.Utf8.{Bytes}
use token_loom.Records.{Account, unknown, Job, refresh, everything, JobStatus}
use token_loom.Crypto.Vault.{Primitives, AreSound}

-- `str.lower` on ASCII
abbrev pub ascii_lower_char : ℕ → ℕ
ascii_lower_char c = if leb b'A' c && leb c b'Z' then c + 32 else c

abbrev pub ascii_lower : Text → Text
ascii_lower s = map ascii_lower_char s

abbrev pub same_text : Text → Text
same_text s = s

-- A cipher that binds what it carries by putting it in front, with its length.
abbrev toy_unseal : Bytes → Bytes → Option Bytes
toy_unseal [] aad = none
toy_unseal (n ∷ rest) aad =
    if n == length aad && text_eq (take n rest) aad then some (drop n rest) else none

abbrev pub toy : Primitives
toy = record {
  encrypt = λ nonce raw aad. length aad ∷ aad ++ raw;
  decrypt = λ nonce payload aad. toy_unseal payload aad;
  compress = λ raw. raw;
  decompress = λ raw. some raw;
}

pub toy-AreSound : AreSound toy
toy-AreSound = record {
  decrypt-encrypt = λ nonce raw aad.
      rw
        (
          take-append (length aad) aad raw refl,
          drop-append (length aad) aad raw refl,
          text_eq_refl aad,
        )
        (ground (arith, ==_iff (length aad) (length aad)));
  decrypt-other = λ nonce raw aad other ne.
      rw (take-append (length aad) aad raw refl) (ground (arith, text_eq_iff aad other));
  decompress-compress = λ raw. refl;
}

abbrev pub nonce_a : Bytes
nonce_a = 0 ∷ 1 ∷ 2 ∷ 3 ∷ 4 ∷ 5 ∷ 6 ∷ 7 ∷ 8 ∷ 9 ∷ 10 ∷ 11 ∷ []

-- a lookup hash of sixty-four hexadecimal digits
abbrev pub hash_a : Text
hash_a = codes "0123456789abcdef0123456789abcdef0123456789abcdef0123456789abcdef"

abbrev pub account_of : ℕ → Text → Option ℕ → Account
account_of id hash next = record {
  id = id;
  email_encrypted = [];
  email_hash = hash;
  email_masked = codes "ab•••@x.org";
  domain = codes "x.org";
  client_id_encrypted = [];
  refresh_token_encrypted = 1 ∷ [];
  status = unknown;
  source_name = [];
  last_refresh_at = none;
  last_refresh_success_at = none;
  last_health_at = none;
  last_health_success_at = none;
  token_expires_at = none;
  next_refresh_at = next;
  last_error_code = none;
  last_error_summary = none;
  created_at = 0;
  updated_at = 0;
}

abbrev pub job_of : Text → JobStatus → ℕ → ℕ → Bool → Option ℕ → Job
job_of id status priority created cancel end = record {
  id = id;
  kind = refresh;
  scope = everything;
  status = status;
  priority = priority;
  account_ids = none;
  options = record { max_account_id = some 9; duplicate_mode = none };
  source_path = none;
  source_name = none;
  cursor_id = 0;
  total = 3;
  processed = 0;
  succeeded = 0;
  failed = 0;
  skipped = 0;
  error_summary = none;
  cancel_requested = cancel;
  created_at = created;
  started_at = none;
  heartbeat_at = none;
  finished_at = end;
}
