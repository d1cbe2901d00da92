-- ===== src/Api/Listing.antt =====
-- `list_accounts` of app/main.py. The vault's lookup hash and `str.lower` are parameters, and the
-- bounds of `Query` have been checked before.
pub mod Pages
use token_loom.Prelude.{
  ℕ, suc, ◌+◌, Bool, true, false, ◌&&◌, ◌||◌, not, Option, none, some, List, [], ◌∷◌, any, take,
  ltb, if◌then◌else◌, is_empty, length, Text, text_eq, codes, strip, Result, ok, err,
}
use token_loom.Prelude.Paging.{behind, last_key}
use token_loom.Records.{
  Account, AccountStatus, unknown, healthy, refreshed, token_invalid, fetch_failed, transient_error,
}
use token_loom.Crypto.Email.{normalize_email}
use token_loom.Auth.Session.{is_in}

-- the text of a status
abbrev pub status_name : AccountStatus → Text
status_name unknown = codes "unknown"
status_name healthy = codes "healthy"
status_name refreshed = codes "refreshed"
status_name token_invalid = codes "token_invalid"
status_name fetch_failed = codes "fetch_failed"
status_name transient_error = codes "transient_error"

-- the keys of STATUS_LABELS
abbrev pub status_labels : List Text
status_labels =
    codes "unknown"
    ∷ codes "healthy"
    ∷ codes "refreshed"
    ∷ codes "token_invalid"
    ∷ codes "fetch_failed"
    ∷ codes "transient_error"
    ∷ []

-- the parameters of the query
pub record ListQuery : Type 0 where
  pub cursor : ℕ
  pub limit : ℕ
  pub status : Text
  pub email : Text
  pub domain : Text

pub record Page : Type 0 where
  pub items : List Account
  pub next_cursor : Option ℕ
  pub has_more : Bool

pub data ListError : Type 0 where
  unknown_status : ListError

module _ (lower lookup_hash : Text → Text) where
  -- the clauses of `where`, less the one on the cursor
  unfoldable pub is_listed : ListQuery → Account → Bool
  is_listed q a =
      (text_eq q.status (codes "all") || text_eq (status_name a.status) q.status)
      && (is_empty (strip q.email)
          || text_eq a.email_hash (lookup_hash (normalize_email lower q.email)))
      && (is_empty (strip q.domain) || text_eq a.domain (lower (strip q.domain)))

-- what is behind the query, of at most `limit + 1` rows
unfoldable pub page_of : ℕ → List Account → Page
page_of limit rows =
    let has_more = ltb limit (length rows) in
    let shown = take limit rows in
    record {
      items = shown;
      next_cursor =
          if has_more && not (is_empty shown) then some (last_key (λ a. a.id) 0 shown) else none;
      has_more = has_more;
    }

module _ (lower lookup_hash : Text → Text) where
  unfoldable pub list_accounts : ListQuery → List Account → Result ListError Page
  unfolding page_of
  list_accounts q rows =
      if not (text_eq q.status (codes "all")) && not (is_in q.status status_labels)
      then err unknown_status
      else ok (
          page_of q.limit
            (take (suc q.limit) (behind (λ a. a.id) (is_listed lower lookup_hash q) q.cursor rows)))
