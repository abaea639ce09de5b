-- ===== src/Authz.antt =====
-- backend/app/services/authz.py: who may act on which document. A set of ids is a list, of which
-- only membership is read; `None`, the unrestricted set, is `none`.
pub mod Agreement
pub mod Denial
use Prim.Native.String.{String}
use enterprise_document_inte.Base.{
  ℕ, Bool, true, false, not, ◌&&◌, ◌||◌, Option, none, some, List, [], ◌∷◌, ◌++◌, Text, map, filter,
  find?, any, contains, is_some, ◌==◌, if◌then◌else◌,
}
use enterprise_document_inte.Errors.{Error}
use enterprise_document_inte.Models.{
  UserRole, PrincipalType, Permission, permission_eq, is_rep_visible, Document,
  DocumentAccessControl, GroupMembership, Db, Json, event, AuditLog, AuditAction,
}
use enterprise_document_inte.Session.{Exec, Session, err, gets, pure, raise, ◌>>=◌, ◌>>◌}
use enterprise_document_inte.Audit.{write_event}

-- `role in _PRIVILEGED_ROLES`
unfoldable pub is_privileged : UserRole → Bool
is_privileged UserRole.owner = true
is_privileged UserRole.admin = true
is_privileged UserRole.member = false

-- `permission in _VISIBILITY_PERMISSIONS`
unfoldable pub is_visibility : Permission → Bool
is_visibility Permission.view = true
is_visibility Permission.query = true
is_visibility Permission.delete = false
is_visibility Permission.review = false
is_visibility Permission.manage = false

unfoldable pub user_group_ids : Db → ℕ → ℕ → List ℕ
user_group_ids db tenant_id user_id =
    map (λ (m : GroupMembership). m.group_id)
      (filter (λ m. m.tenant_id == tenant_id && m.user_id == user_id) db.memberships)

-- `acl.principal_id == user_id`, or `in group_ids`, by the type of the principal.
unfoldable pub principal_matches : PrincipalType → ℕ → ℕ → List ℕ → Bool
principal_matches PrincipalType.user principal_id user_id group_ids = principal_id == user_id
principal_matches PrincipalType.group principal_id user_id group_ids =
    contains principal_id group_ids

unfoldable pub grant_matches : DocumentAccessControl → ℕ → List ℕ → Permission → Bool
unfolding principal_matches
grant_matches acl user_id group_ids permission =
    any (λ p. permission_eq p permission) acl.permissions
    && principal_matches acl.principal_type acl.principal_id user_id group_ids

-- `Document.deleted_at.is_(None)` in a tenant.
abbrev pub is_live : ℕ → Document → Bool
is_live tenant_id d = d.tenant_id == tenant_id && not (is_some d.deleted_at)

abbrev pub document_ids : List Document → List ℕ
document_ids ds = map (λ (d : Document). d.id) ds

-- The loop over the grants: the document of each one that matches is added.
unfoldable pub add_granted : List DocumentAccessControl → ℕ → List ℕ → Permission → List ℕ → List ℕ
add_granted [] user_id group_ids permission allowed = allowed
add_granted (acl ∷ acls) user_id group_ids permission allowed =
    add_granted acls user_id group_ids permission (
      if grant_matches acl user_id group_ids permission then acl.document_id ∷ allowed else allowed)

-- The owned documents, and for VIEW and QUERY all that is visible to reps.
unfoldable pub ungranted_ids : Db → ℕ → ℕ → Permission → List ℕ
ungranted_ids db tenant_id user_id permission =
    let owned =
      document_ids (filter (λ d. is_live tenant_id d && d.owner_user_id == user_id) db.documents) in
    let rep_visible =
      document_ids
        (filter (λ d. is_live tenant_id d && is_rep_visible d.visibility) db.documents) in
    if is_visibility permission then owned ++ rep_visible else owned

unfoldable pub accessible_document_ids : Db → ℕ → ℕ → UserRole → Permission → Option (List ℕ)
accessible_document_ids db tenant_id user_id role permission =
    if is_privileged role
    then none
    else some (
        add_granted
          (filter (λ (a : DocumentAccessControl). a.tenant_id == tenant_id) db.access_controls)
          user_id (user_group_ids db tenant_id user_id) permission
          (ungranted_ids db tenant_id user_id permission))

unfoldable pub get_document : Db → ℕ → Option Document
get_document db document_id = find? (λ (d : Document). d.id == document_id) db.documents

-- The branches of `can_access_document` after the document was loaded.
unfoldable pub may_access : Db → ℕ → ℕ → Permission → Document → Bool
may_access db tenant_id user_id permission d =
    d.owner_user_id == user_id
    || (is_visibility permission && is_rep_visible d.visibility)
    || any
        (λ (a : DocumentAccessControl).
          (a.tenant_id == tenant_id && a.document_id == d.id)
          && grant_matches a user_id (user_group_ids db tenant_id user_id) permission)
        db.access_controls

unfoldable pub can_access_document : Db → ℕ → ℕ → UserRole → ℕ → Permission → Bool
unfolding get_document
can_access_document db tenant_id user_id role document_id permission =
    if is_privileged role then true else elim (get_document db document_id) [
      | none ↦ false
      | some d ↦ if is_live tenant_id d then may_access db tenant_id user_id permission d else false
    ]

-- Ids of the documents tagged with a segment.
unfoldable pub segment_document_ids : Db → ℕ → ℕ → List ℕ
segment_document_ids db tenant_id segment_id =
    map (λ t. t.document_id)
      (filter (λ t. t.tenant_id == tenant_id && t.segment_id == segment_id) db.document_segments)

abbrev pub permission_value : Permission → String
permission_value Permission.view = "view"
permission_value Permission.query = "query"
permission_value Permission.delete = "delete"
permission_value Permission.review = "review"
permission_value Permission.manage = "manage"

-- The audit row of a refusal.
abbrev pub denial : ℕ → ℕ → ℕ → Permission → Option Text → AuditLog
denial tenant_id user_id document_id permission ip_address =
    record (event tenant_id AuditAction.access_denied) {
      actor_user_id = some user_id;
      resource_type = some "document";
      resource_id = some document_id;
      event_metadata = ("permission", Json.word (permission_value permission)) ∷ [];
      ip_address = ip_address;
      outcome = some "deny";
    }

unfoldable pub assert_can : ℕ → ℕ → UserRole → ℕ → Permission → Option Text → Exec (Unit {0})
assert_can tenant_id user_id role document_id permission ip_address s =
    if can_access_document s.db tenant_id user_id role document_id permission
    then pure tt s
    else (do
      write_event (denial tenant_id user_id document_id permission ip_address)
      raise Error.authorization)
        s
