-- ===== src/Members.antt =====
-- The user management of backend/app/api/v1/admin.py: create, update and deactivate. The gate
-- `require_role(OWNER, ADMIN)` in front of each is `admin_only`.
pub mod Seats
pub mod Reactivation
use enterprise_document_inte.Base.{
  ℕ, Bool, true, false, not, ◌&&◌, ◌||◌, Option, none, some, List, [], ◌∷◌, ◌++◌, Text, lower, any,
  find?, update, is_some, ◌==◌, if◌then◌else◌,
}
use enterprise_document_inte.Errors.{Error}
use enterprise_document_inte.Models.{Db, User, UserRole, event, AuditAction, Json}
use enterprise_document_inte.Session.{
  Exec, Session, gets, pure, raise_if, or_raise, modify, new_id, ◌>>=◌, ◌>>◌,
}
use enterprise_document_inte.Audit.{write_event}
use enterprise_document_inte.Security.{PasswordContext}
use enterprise_document_inte.Billing.{enforce_quota, Resource}
use enterprise_document_inte.Authz.{is_privileged}
use enterprise_document_inte.Documents.{CurrentUser}
use enterprise_document_inte.Invitations.{has_email, insert_user, role_value}

-- `_admin`
abbrev pub admin_only : CurrentUser → Exec (Unit {0})
admin_only current = raise_if (not (is_privileged current.role)) Error.authorization

unfoldable pub create_user : PasswordContext → CurrentUser → Text → Text → UserRole → ℕ → Exec User
unfolding insert_user
create_user pw current email password role salt = do
  admin_only current
  existing ← gets (λ s. any (has_email current.tenant_id (lower email)) s.users)
  raise_if existing Error.conflict
  enforce_quota current.tenant_id Resource.seats
  id ← new_id
  let user : User = record {
    id = id;
    tenant_id = current.tenant_id;
    email = lower email;
    hashed_password = pw.hash salt password;
    role = role;
    is_active = true;
    deleted_at = none;
  }
  insert_user user
  write_event (record (event current.tenant_id AuditAction.user_created) {
    actor_user_id = some current.id;
    resource_type = some "user";
    resource_id = some user.id;
    event_metadata = ("role", Json.word (role_value user.role)) ∷ [];
    ip_address = current.ip;
    outcome = some "allow";
  })
  pure user

-- `_load_tenant_user`: a user of the tenant that has not been deleted.
abbrev live_user : ℕ → Option User → Option User
live_user tenant_id none = none
live_user tenant_id (some u) =
    if u.tenant_id == tenant_id && not (is_some u.deleted_at) then some u else none

abbrev pub load_tenant_user : Db → ℕ → ℕ → Option User
load_tenant_user db tenant_id user_id =
    live_user tenant_id (find? (λ (u : User). u.id == user_id) db.users)

abbrev pub update_users : ℕ → (User → User) → Db → Db
update_users user_id f db = record db { users = update (λ (u : User). u.id == user_id) f db.users }

abbrev or_role : Option UserRole → UserRole → UserRole
or_role none old = old
or_role (some role) old = role

abbrev or_flag : Option Bool → Bool → Bool
or_flag none old = old
or_flag (some b) old = b

-- `body.is_active is False`
abbrev is_false : Option Bool → Bool
is_false none = false
is_false (some b) = not b

abbrev pub changed : Option UserRole → Option Bool → User → User
changed role is_active u = record u {
  role = or_role role u.role;
  is_active = or_flag is_active u.is_active;
}

unfoldable pub update_user : CurrentUser → ℕ → Option UserRole → Option Bool → Exec User
update_user current user_id role is_active = do
  admin_only current
  found ← gets (λ s. load_tenant_user s.db current.tenant_id user_id)
  user ← or_raise found Error.not_found
  raise_if (is_false is_active && user.id == current.id) Error.app
  modify (update_users user.id (changed role is_active))
  write_event (record (event current.tenant_id AuditAction.user_updated) {
    actor_user_id = some current.id;
    resource_type = some "user";
    resource_id = some user.id;
    event_metadata =
        ("role", Json.word (role_value (or_role role user.role)))
        ∷ ("is_active", Json.flag (or_flag is_active user.is_active))
        ∷ [];
    ip_address = current.ip;
    outcome = some "allow";
  })
  pure (changed role is_active user)

abbrev pub deactivated : ℕ → User → User
deactivated now u = record u { is_active = false; deleted_at = some now }

unfoldable pub deactivate_user : CurrentUser → ℕ → Exec (Unit {0})
deactivate_user current user_id = do
  admin_only current
  found ← gets (λ s. load_tenant_user s.db current.tenant_id user_id)
  user ← or_raise found Error.not_found
  raise_if (user.id == current.id) Error.app
  now ← gets (λ s. s.now)
  modify (update_users user.id (deactivated now))
  write_event (record (event current.tenant_id AuditAction.user_deactivated) {
    actor_user_id = some current.id;
    resource_type = some "user";
    resource_id = some user.id;
    ip_address = current.ip;
    outcome = some "allow";
  })
