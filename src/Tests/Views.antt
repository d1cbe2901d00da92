-- ===== src/Tests/Views.antt =====
-- What the routes show, at small tables and texts.
use token_loom.Prelude.{
  ℕ, zero, suc, ◌≡◌, ◌≤◌, refl, Bool, true, false, none, some, List, [], ◌∷◌, ◌++◌, map, Text,
  codes, text_eq, Option, ok, err, arith,
}
use token_loom.Prelude.Dict.{Dict, get, IsDistinct}
use token_loom.Records.{Job, queued, running, completed}
use token_loom.Auth.Session.{
  cookie_name, http_cookie_name, read_session, session_cookie_name, request_is_https, no_session,
}
use token_loom.Views.{list_jobs, progress_of, newest_first, dashboard_counts, job_public}
use token_loom.Views.Newest.{IsNewest, list_jobs-IsNewest}
use token_loom.Api.Names.{path_name, safe_source_name, IsSafe, safe_source_name-IsSafe}
use token_loom.Api.Logout.{logout, deleted_cookies, without_cookies, logout-ends}
use token_loom.Api.Defaults.{
  or_else, ensure_defaults, get_policy, default_policy, default_settings, stored_value,
  get_policy-ensure_defaults,
}
use token_loom.Api.Pages.{
  redirect, home, index, login_page, SetCookie, session_cookie, with_cookie, security_headers,
  login_cookie-index,
}
use token_loom.Tests.Requests.{codec-IsSoundAt, csrf, settings, codec, visit, visit_allowed}
use token_loom.Tests.Messages.{ascii_word}
use token_loom.Tests.Samples.{ascii_lower, job_of}
use token_loom.Auth.Session.{Request, create_session}

-- a rounding that says a half of everything
abbrev half : ℕ → ℕ → ℕ
half n m = 500

abbrev jobs : List Job
jobs =
    job_of (codes "a") queued 0 1 false none
    ∷ job_of (codes "b") running 0 3 false none
    ∷ job_of (codes "c") completed 0 2 false (some 4)
    ∷ []

two_newest : map (λ (j : Job). j.id) (newest_first jobs) ≡ codes "b" ∷ codes "c" ∷ codes "a" ∷ []
unfolding newest_first token_loom.Views.insert_newest
two_newest = refl

list_jobs-IsNewest_example :
    (page : List Job) × (rest : List Job) × (list_jobs half 2 jobs ≡ map (job_public half) page)
    × IsNewest 2 jobs page rest
list_jobs-IsNewest_example = list_jobs-IsNewest half 2 jobs

all_done :
    progress_of half (record (job_of (codes "c") completed 0 2 false none) { total = 0 }) ≡ 1000
unfolding progress_of
all_done = refl

last_part : path_name (codes "/tmp/a b.txt/.") ≡ codes "a b.txt"
unfolding path_name text_eq
last_part = refl

name_cleaned : safe_source_name ascii_word (codes "x/a&&b.txt") ≡ codes "a_b.txt"
unfolding safe_source_name token_loom.Prelude.Runs.sub_runs text_eq
name_cleaned = refl

safe_source_name-IsSafe_example :
    IsSafe ascii_word (safe_source_name ascii_word (codes "x/a&&b.txt"))
safe_source_name-IsSafe_example =
    safe_source_name-IsSafe ascii_word (codes "x/a&&b.txt") refl refl refl refl

visit_ends : logout ascii_lower codec settings 2000 visit ≡ ok (http_cookie_name ∷ cookie_name ∷ [])
unfolding logout deleted_cookies session_cookie_name text_eq request_is_https
    token_loom.Auth.Session.forwarded_proto token_loom.Auth.Session.request_uses_trusted_proxy
visit_ends = rw visit_allowed refl

logout-ends_example :
    read_session ascii_lower codec settings 3000
      (without_cookies (http_cookie_name ∷ cookie_name ∷ []) visit)
    ≡ none
logout-ends_example = logout-ends ascii_lower codec settings 2000 3000 visit visit_ends

-- a policy with one key, as JSON texts
abbrev stored : Dict (Dict Text)
stored = (codes "refresh_policy", (codes "interval_days", codes "7") ∷ []) ∷ []

abbrev text_of : ℕ → Text
text_of n = n ∷ []

abbrev text_itself : Text → Text
text_itself t = t

get_policy-ensure_defaults_example :
    (get
        (codes "interval_days")
        (get_policy text_of text_itself (ensure_defaults text_of text_itself stored))
      ≡ or_else
          (stored_value text_of text_itself (codes "interval_days") stored)
          (get (codes "interval_days") (default_policy text_of text_itself)))
    × (get (codes "last_scheduler_run") (ensure_defaults text_of text_itself stored)
        ≡ or_else
            (get (codes "last_scheduler_run") stored)
            (get (codes "last_scheduler_run") (default_settings text_of text_itself)))
unfolding get text_eq token_loom.Prelude.Dict.contains
get_policy-ensure_defaults_example =
    get_policy-ensure_defaults text_of text_itself stored (codes "interval_days")
      (codes "last_scheduler_run") (refl, tt)

-- a visit that brings no cookie yet
abbrev first_visit : Request
first_visit = record visit { cookie = λ _. [] }

abbrev cookie : SetCookie
cookie =
    session_cookie ascii_lower codec settings false first_visit
      (create_session codec settings 1000 csrf)

login_cookie-index_example :
    (index ascii_lower codec settings 2000 (with_cookie cookie first_visit) ≡ home csrf)
    × (login_page ascii_lower codec settings 2000 (with_cookie cookie first_visit)
        ≡ redirect (codes "/"))
login_cookie-index_example =
    login_cookie-index ascii_lower codec settings false 1000 2000 csrf first_visit codec-IsSoundAt
      (unfold token_loom.Api.Pages.login_cookie in refl) (omega arith) (omega arith) (omega arith)
      (omega arith)

sent_to_login : index ascii_lower codec settings 2000 first_visit ≡ redirect (codes "/login")
unfolding index read_session token_loom.Auth.Session.check_token token_loom.Prelude.rcut
    token_loom.Auth.Session.session_token text_eq session_cookie_name request_is_https
    token_loom.Auth.Session.forwarded_proto token_loom.Auth.Session.request_uses_trusted_proxy
sent_to_login = refl

-- The page is not stored; over http no transport security is asked for.
page_headers :
    get
      (codes "cache-control")
      (security_headers ascii_lower settings (codes "production") visit (codes "/") [])
    ≡ some (codes "no-store")
unfolding security_headers get text_eq request_is_https token_loom.Auth.Session.forwarded_proto
    token_loom.Auth.Session.request_uses_trusted_proxy token_loom.Prelude.starts_with
    token_loom.Prelude.Dict.put token_loom.Api.Defaults.update_all
page_headers = refl

asset_headers :
    get
      (codes "cache-control")
      (security_headers ascii_lower settings (codes "production") visit (codes "/static/app.js") [])
    ≡ none
unfolding security_headers get text_eq request_is_https token_loom.Auth.Session.forwarded_proto
    token_loom.Auth.Session.request_uses_trusted_proxy token_loom.Prelude.starts_with
    token_loom.Api.Defaults.update_all token_loom.Prelude.Dict.put
asset_headers = refl
