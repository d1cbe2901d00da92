-- ===== src/Scripts/Keys.antt =====
-- The key that scripts/generate_admin_key.py writes is the one that the other scripts read.
use token_loom.Prelude.{
  ℕ, ◌≡◌, refl, ap, Bool, true, false, ◌&&◌, ◌||◌, not, Option, none, some, [], ◌∷◌, ◌++◌, leb,
  ◌==◌, all, Text, codes, strip, starts_with, is_space, lstrip_by, rstrip_by, ok, arith,
}
use token_loom.Import.Reader.{newline}
use token_loom.Scripts.{
  read_newlines, is_break, split_lines, key_prefix, first_key, read_admin_key, admin_key_text,
  generate_admin_key, may_write,
}

-- the characters of `secrets.token_urlsafe`
abbrev pub is_urlsafe : ℕ → Bool
is_urlsafe c =
    (leb b'A' c && leb c b'Z')
    || (leb b'a' c && leb c b'z')
    || (leb b'0' c && leb c b'9')
    || c == b'-'
    || c == b'_'

-- neither a break nor white space, nor a carriage return
abbrev is_solid : ℕ → Bool
is_solid c = not (is_break c) && not (is_space c) && not (c == 13)

urlsafe-solid : (c : ℕ) → is_urlsafe c ≡ true → is_solid c ≡ true
unfolding is_break is_space
urlsafe-solid c h = ground (arith, h)

all-solid : (s : Text) → all is_urlsafe s ≡ true → all is_solid s ≡ true
all-solid [] h = refl
all-solid (c ∷ s) h = ground (arith, h, urlsafe-solid c, all-solid s)

read_newlines-append :
    (s rest : Text)
    → all is_solid s ≡ true
    → read_newlines rest ≡ rest
    → read_newlines (s ++ rest) ≡ s ++ rest
unfolding read_newlines
read_newlines-append [] rest h e = e
read_newlines-append (c ∷ s) rest h e = ground (arith, h, read_newlines-append s rest)

split_lines-append :
    (s rest : Text)
    → all is_solid s ≡ true
    → split_lines (s ++ newline ∷ rest) ≡ s ∷ split_lines rest
unfolding split_lines
split_lines-append [] rest h = refl
split_lines-append (c ∷ s) rest h = ground (arith, h, split_lines-append s rest)

rstrip_by-solid : (s : Text) → all is_solid s ≡ true → rstrip_by is_space s ≡ s
unfolding rstrip_by
rstrip_by-solid [] h = refl
rstrip_by-solid (c ∷ []) h = ground (arith, h)
rstrip_by-solid (c ∷ d ∷ s) h = ground (arith, h, rstrip_by-solid (d ∷ s))

strip-solid : (s : Text) → all is_solid s ≡ true → strip s ≡ s
unfolding strip lstrip_by
strip-solid [] h = refl
strip-solid (c ∷ s) h = ground (arith, h, rstrip_by-solid (c ∷ s) h)

abbrev footer : Text
footer = newline ∷ newline ∷ codes "请妥善保存。登录时只输入上面以 tloom_ 开头的一整行；不要发送给他人。" ++ newline ∷ []

read_admin_key-text :
    (token : Text)
    → all is_urlsafe token ≡ true
    → read_admin_key (admin_key_text (key_prefix ++ token)) ≡ ok (key_prefix ++ token)
unfolding read_admin_key admin_key_text read_newlines split_lines first_key starts_with
read_admin_key-text token h =
    let solid = all-solid token h in
    rw (read_newlines-append token footer solid refl) (
      rw
        (split_lines-append token
          (newline ∷ codes "请妥善保存。登录时只输入上面以 tloom_ 开头的一整行；不要发送给他人。" ++ newline ∷ []) solid)
        (ap ok (strip-solid (key_prefix ++ token) (all-solid (key_prefix ++ token) h))))

-- Where the key file is new or is to be replaced, the other scripts read the key from it that was
-- put into it.
pub read_admin_key-generate_admin_key :
    (force : Bool) (token : Text) (existing : Option Text)
    → all is_urlsafe token ≡ true
    → may_write force existing ≡ true
    → read_admin_key (generate_admin_key force token existing) ≡ ok (key_prefix ++ token)
unfolding generate_admin_key may_write
read_admin_key-generate_admin_key force token none h w = read_admin_key-text token h
read_admin_key-generate_admin_key true token (some content) h w = read_admin_key-text token h
read_admin_key-generate_admin_key false token (some content) h w = cc
