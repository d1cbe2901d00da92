-- ===== src/Api/Writes.antt =====
-- The routes of app/main.py that write, each behind its own `Depends(require_csrf)`, with the row that
-- it adds to the audit table: `create_job`, `cancel_job`, `update_settings` and `delete_accounts`. The
-- details of an audit row are left out; `ip_address` and the keyed hash `hash_ip` are parameters.
use token_loom.Prelude.{
  ℕ, ◌≡◌, Bool, Option, some, List, [], ◌∷◌, ◌++◌, Text, codes, Result, ok, err, ◌>>=◌,
}
use token_loom.Prelude.Ints.{ℤ}
use token_loom.Records.{Account, Job, AuditEvent}
use token_loom.Jobs.Queue.{CancelError, cancel_job}
use token_loom.Auth.Session.{
  SessionError, Session, SessionCodec, SessionSettings, Request, client_ip, require_csrf,
}
use token_loom.Api.Orders.{OrderError, Order, create_job, delete_accounts}
use token_loom.Api.Policy.{Policy, PolicyError, PolicyRequest, update_settings}

-- the tables that these routes write
pub record Tables : Type 0 where
  pub jobs : List Job
  pub accounts : List Account
  pub policy : Option Policy
  pub events : List AuditEvent

-- the answers that are errors
pub data RouteError : Type 0 where
  session : SessionError → RouteError
  order : OrderError → RouteError
  cancel : CancelError → RouteError
  policy : PolicyError → RouteError

abbrev pub answered {ℓ κ} :
    {E : Type ℓ} {A : Type κ} → (E → RouteError) → Result E A → Result RouteError A
answered f (ok a) = ok a
answered f (err e) = err (f e)

unfoldable pub add_audit : ℕ → Text → Text → List AuditEvent → List AuditEvent
add_audit now action ip_hash events =
    events ++ record { action = action; ip_hash = ip_hash; created_at = now } ∷ []

-- a request's route and payload
pub data Call (J : Type 0) : Type 0 where
  create : Text → Order J → Call J
  stop : Text → Call J
  change : PolicyRequest J → Call J
  remove : Bool → Option (List J) → Call J

module _ (lower : Text → Text) (c : SessionCodec) (s : SessionSettings)
    (ip_address : Text → Option Text) (hash_ip : Text → Text) where
  -- `hash_ip(client_ip(request))`
  unfoldable pub request_hash : Request → Text
  request_hash request = hash_ip (client_ip ip_address s request)

  -- the route `cancel_job`
  unfoldable pub cancel_job_route : ℕ → Request → Text → Tables → Result RouteError Tables
  unfolding request_hash
  cancel_job_route now request id t = do
    authorised ← answered session (require_csrf lower c s now request)
    jobs ← answered cancel (cancel_job id t.jobs)
    ok (record t {
      jobs = jobs;
      events = add_audit now (codes "job_cancel_requested") (request_hash request) t.events;
    })

  module _ {J : Type 0} (is_bool : J → Bool) (int_of : J → Option ℤ) where
    -- the route `create_job`; the action is `f"{kind}_queued"`
    unfoldable pub create_job_route :
        ℕ → Request → Text → Order J → Tables → Result RouteError Tables
    unfolding request_hash
    create_job_route now request id o t = do
      authorised ← answered session (require_csrf lower c s now request)
      j ← answered order (create_job is_bool int_of id now o t.accounts)
      ok (record t {
        jobs = t.jobs ++ j ∷ [];
        events = add_audit now (o.kind ++ codes "_queued") (request_hash request) t.events;
      })

    -- the route `delete_accounts`
    unfoldable pub delete_accounts_route :
        ℕ → Request → Bool → Option (List J) → Tables → Result RouteError Tables
    unfolding request_hash
    delete_accounts_route now request confirm ids t = do
      authorised ← answered session (require_csrf lower c s now request)
      deleted ← answered order (delete_accounts is_bool int_of confirm ids t.accounts)
      ok (record t {
        accounts = deleted.1;
        events = add_audit now (codes "accounts_deleted") (request_hash request) t.events;
      })

    module _ (is_digit : ℕ → Bool) (is_zone : Text → Bool) where
      -- the route `update_settings`
      unfoldable pub update_settings_route :
          ℕ → Request → PolicyRequest J → Tables → Result RouteError Tables
      unfolding request_hash
      update_settings_route now request r t = do
        authorised ← answered session (require_csrf lower c s now request)
        value ← answered policy (update_settings is_bool int_of is_digit is_zone r)
        ok (record t {
          policy = some value;
          events = add_audit now (codes "settings_updated") (request_hash request) t.events;
        })

      unfoldable pub respond : ℕ → Request → Call J → Tables → Result RouteError Tables
      unfolding create_job_route cancel_job_route update_settings_route delete_accounts_route
      respond now request (create id o) t = create_job_route now request id o t
      respond now request (stop id) t = cancel_job_route now request id t
      respond now request (change r) t = update_settings_route now request r t
      respond now request (remove confirm ids) t = delete_accounts_route now request confirm ids t

-- the action that the audit table names for a call
abbrev pub action_of : {J : Type 0} → Call J → Text
action_of (create id o) = o.kind ++ codes "_queued"
action_of (stop id) = codes "job_cancel_requested"
action_of (change r) = codes "settings_updated"
action_of (remove confirm ids) = codes "accounts_deleted"

module _ {J : Type 0} (is_bool : J → Bool) (int_of : J → Option ℤ) (is_digit : ℕ → Bool)
    (is_zone : Text → Bool) (now : ℕ) where
  -- What a call makes of the table that it is about, and that the other tables stay.
  abbrev pub Carried : Call J → Tables → Tables → Type 0
  Carried (create id o) t t' =
      ((j : Job) × (create_job is_bool int_of id now o t.accounts ≡ ok j)
        × (t'.jobs ≡ t.jobs ++ j ∷ []))
      × (t'.accounts ≡ t.accounts)
      × (t'.policy ≡ t.policy)
  Carried (stop id) t t' =
      (cancel_job id t.jobs ≡ ok t'.jobs) × (t'.accounts ≡ t.accounts) × (t'.policy ≡ t.policy)
  Carried (change r) t t' =
      ((value : Policy) × (update_settings is_bool int_of is_digit is_zone r ≡ ok value)
        × (t'.policy ≡ some value))
      × (t'.accounts ≡ t.accounts)
      × (t'.jobs ≡ t.jobs)
  Carried (remove confirm ids) t t' =
      ((n : ℕ) × (delete_accounts is_bool int_of confirm ids t.accounts ≡ ok (n, t'.accounts)))
      × (t'.policy ≡ t.policy)
      × (t'.jobs ≡ t.jobs)

module _ (lower : Text → Text) (c : SessionCodec) (s : SessionSettings)
    (ip_address : Text → Option Text) (hash_ip : Text → Text) {J : Type 0} (is_bool : J → Bool)
    (int_of : J → Option ℤ) (is_digit : ℕ → Bool) (is_zone : Text → Bool) (now : ℕ)
    (request : Request) where
  -- what a call that was carried out leaves, and the session that asked for it
  pub record IsAudited (call : Call J) (t t' : Tables) : Type 0 where
    pub asked : (z : Session) × (require_csrf lower c s now request ≡ ok z)
    pub audited :
        t'.events
        ≡ add_audit now (action_of call) (hash_ip (client_ip ip_address s request)) t.events
    pub carried : Carried is_bool int_of is_digit is_zone now call t t'
