-- ===== src/Auth.antt =====
-- backend/app/services/auth_service.py, and `get_current_user` of backend/app/core/deps.py. The salt
-- of a hash is an argument.
pub mod Login
pub mod Bearer
use Prim.Native.String.{String}
use enterprise_document_inte.Base.{
  ℕ, Bool, true, false, not, ◌&&◌, ◌||◌, Option, none, some, List, [], ◌∷◌, ◌++◌, Text, text_eq,
  lower, find?, is_some, ◌==◌, if◌then◌else◌,
}
use enterprise_document_inte.Errors.{Error}
use enterprise_document_inte.Models.{
  Db, User, UserRole, Tenant, SubscriptionStatus, event, AuditAction, AuditLog, Json,
}
use enterprise_document_inte.Session.{
  Exec, Session, gets, pure, raise, raise_if, or_raise, modify, new_id, ◌>>=◌, ◌>>◌,
}
use enterprise_document_inte.Audit.{write_event, record_event_committed}
use enterprise_document_inte.Security.{
  PasswordContext, Jwt, TokenPair, TokenPayload, TokenType, issue_tokens, decode_token,
}
use enterprise_document_inte.Billing.{ensure_subscription, status_value}
use enterprise_document_inte.Invitations.{is_user_of, insert_user, role_value}
use enterprise_document_inte.Documents.{CurrentUser}

-- `_NULL_TENANT`
abbrev null_tenant : ℕ
null_tenant = 0

abbrev tenant_or_null : Option Tenant → ℕ
tenant_or_null none = null_tenant
tenant_or_null (some t) = t.id

abbrev actor : Option User → Option ℕ
actor none = none
actor (some u) = some u.id

abbrev pub find_tenant : Db → Text → Option Tenant
find_tenant db slug = find? (λ (t : Tenant). text_eq t.slug slug) db.tenants

-- A user that has not been deleted, in the tenant if there is one.
abbrev pub find_login : Db → Option Tenant → Text → Option User
find_login db none email = none
find_login db (some t) email = find? (is_user_of t.id (lower email)) db.users

-- The row of a user that is named by id and tenant.
abbrev pub is_subject : TokenPayload → User → Bool
is_subject c u = u.id == c.sub && u.tenant_id == c.tenant_id && not (is_some u.deleted_at)

abbrev pub if_active : Option User → Option User
if_active none = none
if_active (some u) = if u.is_active then some u else none

-- The audit row of a failed login.
abbrev pub login_failed : Option Tenant → Option User → Text → Text → Option Text → AuditLog
login_failed tenant user slug email ip =
    record (event (tenant_or_null tenant) AuditAction.login_failed) {
      actor_user_id = actor user;
      resource_type = some "user";
      event_metadata = ("tenant_slug", Json.text slug) ∷ ("email", Json.text (lower email)) ∷ [];
      ip_address = ip;
    }

abbrev user_row : ℕ → AuditAction → User → Option Text → AuditLog
user_row tenant_id action user ip = record (event tenant_id action) {
  actor_user_id = some user.id;
  resource_type = some "user";
  resource_id = some user.id;
  ip_address = ip;
}

module _ (pw : PasswordContext) (jwt : Jwt) where
  unfoldable pub register_tenant_and_owner :
      Text → Text → Text → Text → ℕ → Option Text → Exec (Tenant × User × TokenPair)
  unfolding insert_user
  register_tenant_and_owner tenant_name tenant_slug email password salt ip = do
    existing ← gets (λ s. is_some (find_tenant s.db tenant_slug))
    raise_if existing Error.registration_conflict
    tenant_id ← new_id
    let tenant : Tenant = record {
      id = tenant_id;
      name = tenant_name;
      slug = tenant_slug;
      is_active = true;
    }
    modify (λ db. record db { tenants = db.tenants ++ tenant ∷ [] })
    owner_id ← new_id
    let owner : User = record {
      id = owner_id;
      tenant_id = tenant_id;
      email = lower email;
      hashed_password = pw.hash salt password;
      role = UserRole.owner;
      is_active = true;
      deleted_at = none;
    }
    insert_user owner
    write_event (record (event tenant_id AuditAction.tenant_registered) {
      actor_user_id = some owner_id;
      resource_type = some "tenant";
      resource_id = some tenant_id;
      event_metadata = ("slug", Json.text tenant_slug) ∷ [];
      ip_address = ip;
    })
    write_event (record (user_row tenant_id AuditAction.user_registered owner ip) {
      event_metadata = ("role", Json.word (role_value owner.role)) ∷ [];
    })
    sub ← ensure_subscription tenant_id none SubscriptionStatus.trialing
    write_event (record (event tenant_id AuditAction.subscription_created) {
      actor_user_id = some owner_id;
      resource_type = some "subscription";
      resource_id = some sub.id;
      event_metadata =
          ("plan_key", Json.word sub.plan_key)
          ∷ ("status", Json.word (status_value sub.status))
          ∷ [];
      ip_address = ip;
    })
    tokens ← issue_tokens jwt owner
    pure (tenant, owner, tokens)

  -- `user is not None and user.is_active and verify_password(...)`
  abbrev pub checked : Text → Option User → Option User
  checked password none = none
  checked password (some u) =
      if u.is_active && pw.verify password u.hashed_password then some u else none

  -- The two ways out of a login.
  abbrev pub refuse_or_issue : AuditLog → Option Text → Option User → Exec (User × TokenPair)
  refuse_or_issue failure ip none = record_event_committed failure >> raise Error.credentials
  refuse_or_issue failure ip (some user) = do
    write_event (user_row user.tenant_id AuditAction.login_succeeded user ip)
    tokens ← issue_tokens jwt user
    pure (user, tokens)

  unfoldable pub authenticate : Text → Text → Text → Option Text → Exec (User × TokenPair)
  authenticate tenant_slug email password ip = do
    tenant ← gets (λ s. find_tenant s.db tenant_slug)
    user ← gets (λ s. find_login s.db tenant email)
    refuse_or_issue (login_failed tenant user tenant_slug email ip) ip (checked password user)

  unfoldable pub refresh_tokens : Text → Option Text → Exec TokenPair
  refresh_tokens refresh_token ip = do
    decoded ← gets (λ s. decode_token jwt s.now refresh_token TokenType.refresh)
    payload ← or_raise decoded Error.credentials
    found ← gets (λ s. if_active (find? (is_subject payload) s.users))
    user ← or_raise found Error.credentials
    write_event (user_row user.tenant_id AuditAction.token_refreshed user ip)
    issue_tokens jwt user

  -- `user is None or user.deleted_at is not None or not user.is_active or ...`
  abbrev pub still_valid : TokenPayload → Option User → Option User
  still_valid payload none = none
  still_valid payload (some u) =
      if is_some u.deleted_at || not u.is_active || not (u.tenant_id == payload.tenant_id)
      then none
      else some u

  -- `get_current_user`, with the address of the client.
  unfoldable pub get_current_user : Option Text → Option Text → Exec CurrentUser
  get_current_user credentials ip = do
    token ← or_raise credentials Error.authentication
    decoded ← gets (λ s. decode_token jwt s.now token TokenType.access)
    payload ← or_raise decoded Error.authentication
    found ← gets (λ s. still_valid payload (find? (λ (u : User). u.id == payload.sub) s.users))
    user ← or_raise found Error.authentication
    pure (record { id = user.id; tenant_id = user.tenant_id; role = user.role; ip = ip })
