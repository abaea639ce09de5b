-- ===== src/Documents.antt =====
-- backend/app/api/v1/documents.py: deletion and the management of grants. The removal of the
-- encrypted blob from the object storage is best effort in the code, and is not modelled.
pub mod Deletion
pub mod Refusal
pub mod Grants
use Prim.Native.String.{String}
use enterprise_document_inte.Base.{
  ℕ, Bool, true, false, not, ◌&&◌, ◌||◌, Option, none, some, List, [], ◌∷◌, ◌++◌, Text, filter,
  find?, update, is_some, length, map, ◌==◌, if◌then◌else◌,
}
use enterprise_document_inte.Errors.{Error}
use enterprise_document_inte.Models.{
  UserRole, PrincipalType, Permission, Document, DocumentAccessControl, DocumentChunk, User, Group,
  Db, Json, event, AuditAction,
}
use enterprise_document_inte.Session.{
  Exec, Session, ok, err, gets, pure, raise, raise_if, or_raise, modify, new_id, ◌>>=◌, ◌>>◌,
}
use enterprise_document_inte.Audit.{write_event}
use enterprise_document_inte.Authz.{
  get_document, is_live, can_access_document, assert_can, permission_value,
}

-- `CurrentUser` of backend/app/core/deps.py, with the client's address.
pub record CurrentUser : Type 0 where
  pub id : ℕ
  pub tenant_id : ℕ
  pub role : UserRole
  pub ip : Option Text

-- `document is None or document.tenant_id != ... or document.deleted_at is not None`
abbrev pub live_document : Db → ℕ → ℕ → Option Document
live_document db tenant_id document_id = elim (get_document db document_id) [
  | none ↦ none
  | some d ↦ if is_live tenant_id d then some d else none
]

-- The checks at the head of every handler of one document: 404 unless the caller may VIEW it, then
-- 403 unless the caller holds the permission.
unfoldable pub load_document : CurrentUser → ℕ → Permission → Exec Document
load_document current document_id permission = do
  found ← gets (λ s. live_document s.db current.tenant_id document_id)
  document ← or_raise found Error.not_found
  visible ← gets (λ s.
      can_access_document s.db current.tenant_id current.id current.role document.id
        Permission.view)
  raise_if (not visible) Error.not_found
  assert_can current.tenant_id current.id current.role document.id permission current.ip
  pure document

-- `_manageable_document`
unfoldable pub manageable_document : CurrentUser → ℕ → Exec Document
unfolding load_document
manageable_document current document_id = load_document current document_id Permission.manage

-- The rows as `delete_document` leaves them.
abbrev pub mark_deleted : ℕ → Document → Document
mark_deleted now d = record d { deleted_at = some now; chunk_count = 0 }

abbrev pub is_chunk_of : ℕ → ℕ → DocumentChunk → Bool
is_chunk_of tenant_id document_id c = c.tenant_id == tenant_id && c.document_id == document_id

unfoldable pub purge : ℕ → ℕ → ℕ → Db → Db
purge now tenant_id document_id db = record db {
  documents = update (λ (d : Document). d.id == document_id) (mark_deleted now) db.documents;
  chunks = filter (λ c. not (is_chunk_of tenant_id document_id c)) db.chunks;
}

unfoldable pub delete_document : CurrentUser → ℕ → Exec (Unit {0})
unfolding load_document purge
delete_document current document_id = do
  document ← load_document current document_id Permission.delete
  now ← gets (λ s. s.now)
  modify (purge now current.tenant_id document.id)
  write_event (record (event current.tenant_id AuditAction.document_deleted) {
    actor_user_id = some current.id;
    resource_type = some "document";
    resource_id = some document.id;
    ip_address = current.ip;
    outcome = some "allow";
  })

abbrev pub user_in_tenant : ℕ → Option User → Bool
user_in_tenant tenant_id none = false
user_in_tenant tenant_id (some u) = u.tenant_id == tenant_id && not (is_some u.deleted_at)

abbrev pub group_in_tenant : ℕ → Option Group → Bool
group_in_tenant tenant_id none = false
group_in_tenant tenant_id (some g) = g.tenant_id == tenant_id

-- `_validate_principal`
unfoldable pub principal_in_tenant : Db → ℕ → PrincipalType → ℕ → Bool
principal_in_tenant db tenant_id PrincipalType.user principal_id =
    user_in_tenant tenant_id (find? (λ (u : User). u.id == principal_id) db.users)
principal_in_tenant db tenant_id PrincipalType.group principal_id =
    group_in_tenant tenant_id (find? (λ (g : Group). g.id == principal_id) db.groups)

abbrev principal_type_value : PrincipalType → String
principal_type_value PrincipalType.user = "user"
principal_type_value PrincipalType.group = "group"

unfoldable pub grants_of : Db → ℕ → ℕ → List DocumentAccessControl
grants_of db tenant_id document_id =
    filter (λ (a : DocumentAccessControl). a.tenant_id == tenant_id && a.document_id == document_id)
      db.access_controls

unfoldable pub list_document_acl : CurrentUser → ℕ → Exec (List DocumentAccessControl)
unfolding manageable_document grants_of
list_document_acl current document_id = do
  document ← manageable_document current document_id
  grants ← gets (λ s. grants_of s.db current.tenant_id document.id)
  write_event (record (event current.tenant_id AuditAction.document_acl_viewed) {
    actor_user_id = some current.id;
    resource_type = some "document";
    resource_id = some document.id;
    event_metadata = ("returned", Json.num (length grants)) ∷ [];
    ip_address = current.ip;
  })
  pure grants

unfoldable pub grant_document_acl :
    CurrentUser → ℕ → PrincipalType → ℕ → List Permission → Exec DocumentAccessControl
unfolding manageable_document
grant_document_acl current document_id principal_type principal_id permissions = do
  document ← manageable_document current document_id
  known ← gets (λ s. principal_in_tenant s.db current.tenant_id principal_type principal_id)
  raise_if (not known) Error.not_found
  id ← new_id
  let grant : DocumentAccessControl = record {
    id = id;
    tenant_id = current.tenant_id;
    document_id = document.id;
    principal_type = principal_type;
    principal_id = principal_id;
    permissions = permissions;
    granted_by_user_id = current.id;
  }
  modify (λ db. record db { access_controls = db.access_controls ++ grant ∷ [] })
  write_event (record (event current.tenant_id AuditAction.permission_granted) {
    actor_user_id = some current.id;
    resource_type = some "document";
    resource_id = some document.id;
    event_metadata =
        ("principal_type", Json.word (principal_type_value principal_type))
        ∷ ("principal_id", Json.num principal_id)
        ∷ ("permissions", Json.words (map permission_value permissions))
        ∷ [];
    ip_address = current.ip;
    outcome = some "allow";
  })
  pure grant

-- `grant is None or grant.tenant_id != ... or grant.document_id != document.id`
abbrev pub is_grant_on : ℕ → ℕ → Option DocumentAccessControl → Bool
is_grant_on tenant_id document_id none = false
is_grant_on tenant_id document_id (some a) =
    a.tenant_id == tenant_id && a.document_id == document_id

unfoldable pub revoke_document_acl : CurrentUser → ℕ → ℕ → Exec (Unit {0})
unfolding manageable_document
revoke_document_acl current document_id acl_id = do
  document ← manageable_document current document_id
  found ← gets (λ s. find? (λ (a : DocumentAccessControl). a.id == acl_id) s.access_controls)
  raise_if (not (is_grant_on current.tenant_id document.id found)) Error.not_found
  modify (λ db. record db {
    access_controls =
        filter (λ (a : DocumentAccessControl). not (a.id == acl_id)) db.access_controls;
  })
  write_event (record (event current.tenant_id AuditAction.permission_revoked) {
    actor_user_id = some current.id;
    resource_type = some "document";
    resource_id = some document.id;
    event_metadata = ("acl_id", Json.num acl_id) ∷ [];
    ip_address = current.ip;
    outcome = some "allow";
  })
