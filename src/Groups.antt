-- ===== src/Groups.antt =====
-- The groups and the invitations of backend/app/api/v1/admin.py. A group of a tenant gathers users whom
-- a grant names at once. The e-mail with the key of an invitation is best effort, and is not modelled.
pub mod Narrowing
use Prim.Native.String.{String}
use enterprise_document_inte.Base.{
  ℕ, Bool, true, false, not, ◌&&◌, Option, none, some, List, [], ◌∷◌, ◌++◌, Text, text_eq, filter,
  find?, any, ◌==◌, if◌then◌else◌,
}
use enterprise_document_inte.Errors.{Error}
use enterprise_document_inte.Models.{
  Db, User, UserRole, Group, GroupType, GroupMembership, Invitation, event, AuditAction, Json,
}
use enterprise_document_inte.Session.{
  Exec, gets, pure, raise_if, or_raise, modify, new_id, ◌>>=◌, ◌>>◌,
}
use enterprise_document_inte.Audit.{write_event}
use enterprise_document_inte.Security.{PasswordContext}
use enterprise_document_inte.Documents.{CurrentUser}
use enterprise_document_inte.Members.{admin_only, load_tenant_user}
use enterprise_document_inte.Invitations.{
  create_invitation, regenerate_token, revoke, list_pending, role_value,
}

abbrev group_type_value : GroupType → String
group_type_value GroupType.department = "department"
group_type_value GroupType.matter = "matter"
group_type_value GroupType.client = "client"
group_type_value GroupType.team = "team"
group_type_value GroupType.custom = "custom"

abbrev admin_event : CurrentUser → AuditAction → String → ℕ → List (String × Json) → Exec (Unit {0})
admin_event current action type id extra = write_event (record (event current.tenant_id action) {
  actor_user_id = some current.id;
  resource_type = some type;
  resource_id = some id;
  event_metadata = extra;
  ip_address = current.ip;
  outcome = some "allow";
})

abbrev is_named : ℕ → Text → Group → Bool
is_named tenant_id name g = g.tenant_id == tenant_id && text_eq g.name name

unfoldable pub create_group : CurrentUser → Text → GroupType → Option Text → Exec Group
create_group current name group_type description = do
  admin_only current
  existing ← gets (λ s. any (is_named current.tenant_id name) s.groups)
  raise_if existing Error.conflict
  id ← new_id
  let group : Group = record {
    id = id;
    tenant_id = current.tenant_id;
    name = name;
    group_type = group_type;
    description = description;
  }
  modify (λ db. record db { groups = db.groups ++ group ∷ [] })
  admin_event current AuditAction.group_created "group" id
      (("name", Json.text name) ∷ ("group_type", Json.word (group_type_value group_type)) ∷ [])
  pure group

abbrev own_group : ℕ → Option Group → Option Group
own_group tenant_id none = none
own_group tenant_id (some g) = if g.tenant_id == tenant_id then some g else none

unfoldable pub load_tenant_group : CurrentUser → ℕ → Exec Group
load_tenant_group current group_id = do
  found ← gets (λ s. own_group current.tenant_id (find? (λ (g : Group). g.id == group_id) s.groups))
  or_raise found Error.not_found

abbrev pub is_member_of : ℕ → GroupMembership → Bool
is_member_of group_id m = m.group_id == group_id

-- The foreign key of the memberships cascades.
abbrev pub remove_group : ℕ → Db → Db
remove_group group_id db = record db {
  groups = filter (λ (g : Group). not (g.id == group_id)) db.groups;
  memberships = filter (λ m. not (is_member_of group_id m)) db.memberships;
}

unfoldable pub delete_group : CurrentUser → ℕ → Exec (Unit {0})
unfolding load_tenant_group
delete_group current group_id = do
  admin_only current
  group ← load_tenant_group current group_id
  modify (remove_group group.id)
  admin_event current AuditAction.group_deleted "group" group_id []

abbrev pub is_membership : ℕ → ℕ → GroupMembership → Bool
is_membership group_id user_id m = m.group_id == group_id && m.user_id == user_id

-- A user who is in the group already is left there, and nothing is audited.
abbrev add_unless : Bool → CurrentUser → ℕ → ℕ → Exec (Unit {0})
add_unless true current group_id user_id = pure tt
add_unless false current group_id user_id = do
  modify (λ db. record db {
    memberships =
        db.memberships
        ++ (record { tenant_id = current.tenant_id; group_id = group_id; user_id = user_id }) ∷ [];
  })
  admin_event current AuditAction.group_member_added "group" group_id
      (("user_id", Json.num user_id) ∷ [])

unfoldable pub add_group_member : CurrentUser → ℕ → ℕ → Exec (Unit {0})
unfolding load_tenant_group
add_group_member current group_id user_id = do
  admin_only current
  group ← load_tenant_group current group_id
  found ← gets (λ s. load_tenant_user s.db current.tenant_id user_id)
  member ← or_raise found Error.not_found
  existing ← gets (λ s. any (is_membership group.id member.id) s.memberships)
  add_unless existing current group.id member.id

abbrev pub is_own_membership : ℕ → ℕ → ℕ → GroupMembership → Bool
is_own_membership tenant_id group_id user_id m =
    m.tenant_id == tenant_id && is_membership group_id user_id m

-- A user is in a group at most once, by a constraint.
unfoldable pub remove_group_member : CurrentUser → ℕ → ℕ → Exec (Unit {0})
unfolding load_tenant_group
remove_group_member current group_id user_id = do
  admin_only current
  group ← load_tenant_group current group_id
  membership ←
      gets (λ s. find? (is_own_membership current.tenant_id group.id user_id) s.memberships)
  found ← or_raise membership Error.not_found
  modify (λ db. record db {
    memberships =
        filter (λ m. not (is_own_membership current.tenant_id group.id user_id m)) db.memberships;
  })
  admin_event current AuditAction.group_member_removed "group" group.id
      (("user_id", Json.num user_id) ∷ [])

unfoldable pub list_invitations : CurrentUser → Exec (List Invitation)
list_invitations current = do admin_only current; gets (λ s. list_pending s.db current.tenant_id)

-- `create_invitation`, `regenerate_invitation_link` and `revoke_invitation` of the router.
unfoldable pub invite :
    PasswordContext → CurrentUser → Text → UserRole → Text → ℕ → Exec (Invitation × Text)
invite pw current email role raw salt = do
  admin_only current
  created ← create_invitation pw current.tenant_id current.id email role raw salt
  admin_event current AuditAction.user_invited "invitation" created.0.id
      (("email", Json.text created.0.email) ∷ ("role", Json.word (role_value created.0.role)) ∷ [])
  pure created

unfoldable pub regenerate_invitation_link :
    PasswordContext → CurrentUser → ℕ → Text → ℕ → Exec (Invitation × Text)
regenerate_invitation_link pw current invitation_id raw salt = do
  admin_only current
  made ← regenerate_token pw current.tenant_id invitation_id raw salt
  admin_event current AuditAction.user_invited "invitation" made.0.id
      (("email", Json.text made.0.email) ∷ ("regenerated_key", Json.flag true) ∷ [])
  pure made

unfoldable pub revoke_invitation : CurrentUser → ℕ → Exec (Unit {0})
revoke_invitation current invitation_id = do
  admin_only current
  invitation ← revoke current.tenant_id invitation_id
  admin_event current AuditAction.invite_revoked "invitation" invitation.id []
