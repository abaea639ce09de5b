-- ===== src/ApiKeys.antt =====
-- backend/app/services/api_key_service.py, the key handlers of backend/app/api/v1/admin.py, and the
-- document tools of backend/app/services/mcp_tools.py. The random parts of a key are arguments.
pub mod Access
use Prim.Native.String.{String}
use enterprise_document_inte.Base.{
  ℕ, Bool, true, false, not, ◌&&◌, ◌||◌, Option, none, some, List, [], ◌∷◌, ◌++◌, Text, codes,
  text_eq, filter, find?, update, is_some, length, ltb, ◌==◌, if◌then◌else◌,
}
use mathlib.Core.List.{reverse}
use enterprise_document_inte.Errors.{Error}
use enterprise_document_inte.Models.{
  Db, User, Document, ApiKey, Permission, event, AuditAction, AuditLog, Json,
}
use enterprise_document_inte.Session.{Exec, gets, pure, or_raise, modify, new_id, ◌>>=◌, ◌>>◌}
use enterprise_document_inte.Audit.{write_event}
use enterprise_document_inte.Security.{PasswordContext}
use enterprise_document_inte.Authz.{can_access_document}
use enterprise_document_inte.Documents.{CurrentUser, live_document}
use enterprise_document_inte.Members.{admin_only, load_tenant_user}
use enterprise_document_inte.Passwords.{is_empty, before_dot, after_dot}
use enterprise_document_inte.Uploads.{visible_documents}

-- `_generate`: the prefix and the full key, from `API_KEY_PREFIX` and the random parts.
abbrev pub key_prefix : Text → Text → Text
key_prefix api_key_prefix token_hex = api_key_prefix ++ b'_' ∷ token_hex

abbrev pub full_key : Text → Text → Text
full_key prefix secret = prefix ++ b'.' ∷ secret

-- The random parts of a key: `token_hex(4)`, `token_urlsafe(32)`, and the salt of its hash.
pub record FreshKey : Type 0 where
  pub token_hex : Text
  pub secret : Text
  pub salt : ℕ

abbrev pub has_prefix : Text → ApiKey → Bool
has_prefix prefix k = text_eq k.prefix prefix

abbrev pub has_expired : ℕ → Option ℕ → Bool
has_expired now none = false
has_expired now (some t) = ltb t now

-- The key may be used: it is not revoked, it is not expired, and the secret is its own.
abbrev pub is_usable : PasswordContext → ℕ → Text → ApiKey → Bool
is_usable pw now secret k =
    not (is_some k.revoked_at)
    && (not (has_expired now k.expires_at) && pw.verify secret k.key_hash)

abbrev pub usable_key : PasswordContext → ℕ → Text → Option ApiKey → Option ApiKey
usable_key pw now secret none = none
usable_key pw now secret (some k) = if is_usable pw now secret k then some k else none

abbrev pub live_principal : Option User → Option User
live_principal none = none
live_principal (some u) = if is_some u.deleted_at || not u.is_active then none else some u

abbrev pub principal : User → CurrentUser
principal u = record { id = u.id; tenant_id = u.tenant_id; role = u.role; ip = none }

abbrev stamped : ℕ → ApiKey → ApiKey
stamped now k = record k { last_used_at = some now }

abbrev stamp : ApiKey → Option User → Exec (Option CurrentUser)
stamp k none = pure none
stamp k (some u) = do
  now ← gets (λ s. s.now)
  modify (λ db. record db {
    api_keys = update (λ (r : ApiKey). r.id == k.id) (stamped now) db.api_keys;
  })
  pure (some (principal u))

-- The end of `authenticate`: the user of the key, and the time of its use.
abbrev pub resolve_user : Option ApiKey → Exec (Option CurrentUser)
resolve_user none = pure none
resolve_user (some k) = do
  found ← gets (λ s. live_principal (find? (λ (u : User). u.id == k.user_id) s.users))
  stamp k found

module _ (pw : PasswordContext) where
  unfoldable pub issue_key :
      Text → FreshKey → ℕ → ℕ → Text → List String → Option ℕ → Exec (ApiKey × Text)
  issue_key api_key_prefix fresh tenant_id user_id name scopes expires_at = do
    id ← new_id
    let prefix = key_prefix api_key_prefix fresh.token_hex
    let api_key : ApiKey = record {
      id = id;
      tenant_id = tenant_id;
      user_id = user_id;
      name = name;
      prefix = prefix;
      key_hash = pw.hash fresh.salt fresh.secret;
      scopes = scopes;
      last_used_at = none;
      expires_at = expires_at;
      revoked_at = none;
    }
    modify (λ db. record db { api_keys = db.api_keys ++ api_key ∷ [] })
    pure (api_key, full_key prefix fresh.secret)

  unfoldable pub authenticate_key : Text → Exec (Option CurrentUser)
  authenticate_key presented =
      if is_empty (before_dot presented) || is_empty (after_dot presented) then pure none else (do
        key ← gets (λ s.
            usable_key pw s.now (after_dot presented)
              (find? (has_prefix (before_dot presented)) s.api_keys))
        resolve_user key)

  abbrev key_event : CurrentUser → AuditAction → ℕ → List (String × Json) → AuditLog
  key_event current action id extra = record (event current.tenant_id action) {
    actor_user_id = some current.id;
    resource_type = some "api_key";
    resource_id = some id;
    event_metadata = extra;
    ip_address = current.ip;
    outcome = some "allow";
  }

  -- Newest first.
  unfoldable pub list_api_keys : CurrentUser → Exec (List ApiKey)
  list_api_keys current = do
    admin_only current
    gets (λ s. reverse (filter (λ (k : ApiKey). k.tenant_id == current.tenant_id) s.api_keys))

  abbrev user_or : ℕ → Option ℕ → ℕ
  user_or id none = id
  user_or id (some user_id) = user_id

  -- The user that the key acts as is the caller or a user of the tenant.
  abbrev check_user : CurrentUser → ℕ → Exec (Unit {0})
  check_user current acts_as s =
      if acts_as == current.id
      then pure tt s
      else (or_raise (load_tenant_user s.db current.tenant_id acts_as) Error.not_found >>= λ u.
            pure tt)
          s

  unfoldable pub create_api_key :
      Text
      → FreshKey
      → CurrentUser
      → Option ℕ
      → Text
      → List String
      → Option ℕ
      → Exec (ApiKey × Text)
  create_api_key api_key_prefix fresh current user_id name scopes expires_at = do
    admin_only current
    check_user current (user_or current.id user_id)
    issued ←
        issue_key api_key_prefix fresh current.tenant_id (user_or current.id user_id) name scopes
          expires_at
    write_event (
        key_event current AuditAction.api_key_created issued.0.id (
          ("name", Json.text name)
          ∷ ("acts_as", Json.num (user_or current.id user_id))
          ∷ ("scopes", Json.words scopes)
          ∷ []))
    pure issued

  abbrev pub own_key : ℕ → Option ApiKey → Option ApiKey
  own_key tenant_id none = none
  own_key tenant_id (some k) = if k.tenant_id == tenant_id then some k else none

  abbrev pub revoke_at : ℕ → ApiKey → ApiKey
  revoke_at now k = if is_some k.revoked_at then k else record k { revoked_at = some now }

  unfoldable pub revoke_api_key : CurrentUser → ℕ → Exec (Unit {0})
  revoke_api_key current api_key_id = do
    admin_only current
    found ←
        gets
          (λ s. own_key current.tenant_id (find? (λ (k : ApiKey). k.id == api_key_id) s.api_keys))
    key ← or_raise found Error.not_found
    now ← gets (λ s. s.now)
    modify (λ db. record db {
      api_keys = update (λ (r : ApiKey). r.id == key.id) (revoke_at now) db.api_keys;
    })
    write_event (key_event current AuditAction.api_key_revoked key.id [])

-- `_audit_tool`
abbrev pub audit_tool : CurrentUser → String → List (String × Json) → Exec (Unit {0})
audit_tool current tool meta =
    write_event (record (event current.tenant_id AuditAction.mcp_tool_called) {
      actor_user_id = some current.id;
      resource_type = some "mcp";
      event_metadata = ("tool", Json.word tool) ∷ meta;
      outcome = some "allow";
    })

-- `list_documents` and `get_document` of the tools.
unfoldable pub tool_list_documents : CurrentUser → Exec (List Document)
tool_list_documents current = do
  docs ← gets (λ s. visible_documents current s.db)
  audit_tool current "list_documents" (("returned", Json.num (length docs)) ∷ [])
  pure docs

abbrev pub shown_if : Bool → Document → Option Document
shown_if allowed document = if allowed then some document else none

abbrev pub tool_document : CurrentUser → ℕ → Option Document → Exec (Option Document)
tool_document current document_id none = do
  audit_tool current "get_document"
      (("document_id", Json.num document_id) ∷ ("found", Json.flag false) ∷ [])
  pure none
tool_document current document_id (some document) = do
  allowed ← gets (λ s.
      can_access_document s.db current.tenant_id current.id current.role document.id
        Permission.view)
  audit_tool current "get_document"
      (("document_id", Json.num document_id) ∷ ("found", Json.flag allowed) ∷ [])
  pure (shown_if allowed document)

unfoldable pub tool_get_document : CurrentUser → ℕ → Exec (Option Document)
tool_get_document current document_id = do
  found ← gets (λ s. live_document s.db current.tenant_id document_id)
  tool_document current document_id found
