-- ===== src/Invitations.antt =====
-- backend/app/services/invitation_service.py. The random characters of a key and the salt of its
-- hash are arguments. A row that the code adds and then completes is added complete.
mod Keys
pub mod RoundTrip
pub mod Lifecycle
unfoldable pub use Keys.*
use Prim.Native.String.{String}
use enterprise_document_inte.Base.{
  ℕ, ◌+◌, ◌*◌, Bool, true, false, not, ◌&&◌, ◌||◌, Option, none, some, List, [], ◌∷◌, ◌++◌, Text,
  text_eq, lower, any, filter, find?, update, is_some, ◌==◌, ltb, if◌then◌else◌,
}
use enterprise_document_inte.Errors.{Error}
use enterprise_document_inte.Models.{
  Db, User, UserRole, Tenant, Invitation, InvitationStatus, is_pending, event, AuditAction, Json,
}
use enterprise_document_inte.Session.{
  Exec, Session, gets, pure, raise_if, or_raise, modify, new_id, ◌>>=◌, ◌>>◌,
}
use enterprise_document_inte.Audit.{write_event}
use enterprise_document_inte.Security.{PasswordContext, Jwt, TokenPair, issue_tokens}
use enterprise_document_inte.Billing.{enforce_quota, Resource, is_pending_invite}

unfoldable pub is_expired : ℕ → ℕ → Bool
is_expired now expires_at = ltb expires_at now

-- A user of the tenant with the email that has not been deleted.
abbrev pub is_user_of : ℕ → Text → User → Bool
is_user_of tenant_id email u =
    u.tenant_id == tenant_id && text_eq u.email email && not (is_some u.deleted_at)

unfoldable pub existing_user : Db → ℕ → Text → Bool
existing_user db tenant_id email = is_some (find? (is_user_of tenant_id email) db.users)

abbrev pub is_invite_of : ℕ → Text → Invitation → Bool
is_invite_of tenant_id email i =
    i.tenant_id == tenant_id && text_eq i.email email && is_pending i.status

unfoldable pub pending_invite : Db → ℕ → Text → Option Invitation
pending_invite db tenant_id email = find? (is_invite_of tenant_id email) db.invitations

-- `uq_users_tenant_id_email`: the constraint of the table, which knows nothing of `deleted_at`.
abbrev pub has_email : ℕ → Text → User → Bool
has_email tenant_id email u = u.tenant_id == tenant_id && text_eq u.email email

-- `db.add(user)` and the flush that inserts it.
unfoldable pub insert_user : User → Exec (Unit {0})
insert_user user = do
  taken ← gets (λ s. any (has_email user.tenant_id user.email) s.users)
  raise_if taken Error.integrity
  modify (λ db. record db { users = db.users ++ user ∷ [] })

abbrev pub role_value : UserRole → String
role_value UserRole.owner = "owner"
role_value UserRole.admin = "admin"
role_value UserRole.member = "member"

unfoldable pub get_invitation : Db → ℕ → Option Invitation
get_invitation db invitation_id = find? (λ (i : Invitation). i.id == invitation_id) db.invitations

-- Writes to one invitation, which the session has loaded.
abbrev pub update_invitation : ℕ → (Invitation → Invitation) → Db → Db
update_invitation invitation_id f db = record db {
  invitations = update (λ (i : Invitation). i.id == invitation_id) f db.invitations;
}

abbrev in_tenant : ℕ → Option Invitation → Option Invitation
in_tenant tenant_id none = none
in_tenant tenant_id (some i) = if i.tenant_id == tenant_id then some i else none

abbrev still_pending : Option Invitation → Option Invitation
still_pending none = none
still_pending (some i) = if is_pending i.status then some i else none

unfoldable pub list_pending : Db → ℕ → List Invitation
list_pending db tenant_id = filter (is_pending_invite tenant_id) db.invitations

abbrev pub accept : ℕ → Invitation → Invitation
accept now i = record i { status = InvitationStatus.accepted; accepted_at = some now }

module _ (pw : PasswordContext) where
  unfoldable pub create_invitation : ℕ → ℕ → Text → UserRole → Text → ℕ → Exec (Invitation × Text)
  unfolding new_invite_key
  create_invitation tenant_id inviter_id email role raw salt = do
    enforce_quota tenant_id Resource.seats
    taken ← gets (λ s. existing_user s.db tenant_id (lower email))
    raise_if taken Error.conflict
    pending ← gets (λ s. is_some (pending_invite s.db tenant_id (lower email)))
    raise_if pending Error.conflict
    id ← new_id
    expires_at ← gets (λ s. s.now + s.settings.invite_token_ttl_hours * 3600)
    let invitation : Invitation = record {
      id = id;
      tenant_id = tenant_id;
      email = lower email;
      role = role;
      token_hash = pw.hash salt (new_invite_key raw).1;
      expires_at = expires_at;
      status = InvitationStatus.pending;
      invited_by_user_id = inviter_id;
      accepted_at = none;
    }
    modify (λ db. record db { invitations = db.invitations ++ invitation ∷ [] })
    pure (invitation, (new_invite_key raw).0)

  -- `invitation is None or _is_expired(...) or not verify_password(...)`
  abbrev usable : ℕ → Text → Option Invitation → Option Invitation
  usable now invite_key none = none
  usable now invite_key (some i) =
      if is_expired now i.expires_at || not (pw.verify (normalize_key invite_key) i.token_hash)
      then none
      else some i

  unfoldable pub accept_invitation :
      Jwt → Text → Text → Text → Text → ℕ → Exec (User × Tenant × TokenPair)
  unfolding insert_user
  accept_invitation jwt tenant_slug email invite_key password salt = do
    found ← gets (λ s. find? (λ (t : Tenant). text_eq t.slug (lower tenant_slug)) s.tenants)
    tenant ← or_raise found Error.invalid_invitation
    candidate ← gets (λ s. usable s.now invite_key (pending_invite s.db tenant.id (lower email)))
    invitation ← or_raise candidate Error.invalid_invitation
    taken ← gets (λ s. existing_user s.db tenant.id (lower email))
    raise_if taken Error.conflict
    id ← new_id
    let user : User = record {
      id = id;
      tenant_id = tenant.id;
      email = invitation.email;
      hashed_password = pw.hash salt password;
      role = invitation.role;
      is_active = true;
      deleted_at = none;
    }
    insert_user user
    now ← gets (λ s. s.now)
    modify (update_invitation invitation.id (accept now))
    write_event (record (event invitation.tenant_id AuditAction.invite_accepted) {
      actor_user_id = some user.id;
      resource_type = some "user";
      resource_id = some user.id;
      event_metadata =
          ("invitation_id", Json.num invitation.id)
          ∷ ("role", Json.word (role_value user.role))
          ∷ [];
    })
    tokens ← issue_tokens jwt user
    pure (user, tenant, tokens)

  unfoldable pub regenerate_token : ℕ → ℕ → Text → ℕ → Exec (Invitation × Text)
  unfolding new_invite_key
  regenerate_token tenant_id invitation_id raw salt = do
    found ← gets (λ s. still_pending (in_tenant tenant_id (get_invitation s.db invitation_id)))
    invitation ← or_raise found Error.not_found
    let token_hash = pw.hash salt (new_invite_key raw).1
    modify (update_invitation invitation.id (λ i. record i { token_hash = token_hash }))
    pure (record invitation { token_hash = token_hash }, (new_invite_key raw).0)

unfoldable pub revoke : ℕ → ℕ → Exec Invitation
revoke tenant_id invitation_id = do
  found ← gets (λ s. in_tenant tenant_id (get_invitation s.db invitation_id))
  invitation ← or_raise found Error.not_found
  modify (update_invitation invitation.id (λ i. record i { status = InvitationStatus.revoked }))
  pure (record invitation { status = InvitationStatus.revoked })
