-- ===== src/Passwords.antt =====
-- backend/app/services/password_reset_service.py. The random secret and the salts are arguments. The
-- mail is the result of a request: `none` where the source returns without sending one. A row that
-- the code adds and then completes is added complete.
pub mod Reset
use enterprise_document_inte.Base.{
  ℕ, ◌+◌, ◌*◌, ◌≡◌, Bool, true, false, not, ◌&&◌, ◌||◌, Option, none, some, List, [], ◌∷◌, ◌++◌,
  Text, text_eq, lower, contains, find?, update, is_some, ◌==◌, ltb, if◌then◌else◌,
}
use enterprise_document_inte.Errors.{Error}
use enterprise_document_inte.Models.{Db, User, Tenant, PasswordResetToken, event, AuditAction}
use enterprise_document_inte.Session.{
  Exec, Session, gets, pure, raise_if, or_raise, modify, new_id, ◌>>=◌, ◌>>◌,
}
use enterprise_document_inte.Audit.{write_event}
use enterprise_document_inte.Security.{PasswordContext}

abbrev pub is_empty : Text → Bool
is_empty [] = true
is_empty (c ∷ text) = false

-- `uuid.UUID`: the text of an id is not empty, holds no full stop, and is read back.
pub record Uuid : Type 0 where
  pub hex : ℕ → Text
  pub of_hex : Text → Option ℕ
  pub of_hex-hex : (n : ℕ) → of_hex (hex n) ≡ some n
  pub no_dot : (n : ℕ) → contains b'.' (hex n) ≡ false
  pub not_empty : (n : ℕ) → is_empty (hex n) ≡ false

-- `raw_token.partition(".")`: what stands before the first full stop, and what stands after it.
unfoldable pub before_dot : Text → Text
before_dot [] = []
before_dot (c ∷ text) = let rest = before_dot text in if c == b'.' then [] else c ∷ rest

unfoldable pub after_dot : Text → Text
after_dot [] = []
after_dot (c ∷ text) = let rest = after_dot text in if c == b'.' then text else rest

abbrev pub is_reset_user : ℕ → Text → User → Bool
is_reset_user tenant_id email u =
    u.tenant_id == tenant_id && text_eq u.email email && (not (is_some u.deleted_at) && u.is_active)

-- The account of an active user, from the tenant's slug and the email.
abbrev account_in : Db → Text → Option Tenant → Option User
account_in db email none = none
account_in db email (some t) = find? (is_reset_user t.id (lower email)) db.users

unfoldable pub account : Db → Text → Text → Option User
account db tenant_slug email =
    account_in db email (find? (λ (t : Tenant). text_eq t.slug tenant_slug) db.tenants)

-- `row.used_at is not None or _is_expired(row.expires_at) or not verify_password(...)`
abbrev usable_token :
    PasswordContext → ℕ → Text → Option PasswordResetToken → Option PasswordResetToken
usable_token pw now secret none = none
usable_token pw now secret (some row) =
    if is_some row.used_at || ltb row.expires_at now || not (pw.verify secret row.token_hash)
    then none
    else some row

abbrev undeleted : Option User → Option User
undeleted none = none
undeleted (some u) = if is_some u.deleted_at then none else some u

abbrev pub with_password : Text → User → User
with_password hashed u = record u { hashed_password = hashed }

abbrev pub used : ℕ → PasswordResetToken → PasswordResetToken
used now row = record row { used_at = some now }

module _ (uuid : Uuid) (pw : PasswordContext) where
  -- The rest of a request, where there is an account: the address and the token of the mail.
  abbrev issue : Text → ℕ → Option Text → Option User → Exec (Option (Text × Text))
  issue secret salt ip none = pure none
  issue secret salt ip (some user) = do
    id ← new_id
    expires_at ← gets (λ s. s.now + s.settings.reset_token_ttl_hours * 3600)
    let row : PasswordResetToken = record {
      id = id;
      tenant_id = user.tenant_id;
      user_id = user.id;
      token_hash = pw.hash salt secret;
      expires_at = expires_at;
      used_at = none;
    }
    modify (λ db. record db { reset_tokens = db.reset_tokens ++ row ∷ [] })
    write_event (record (event user.tenant_id AuditAction.password_reset_requested) {
      actor_user_id = some user.id;
      resource_type = some "user";
      resource_id = some user.id;
      ip_address = ip;
    })
    pure (some (user.email, uuid.hex id ++ (b'.' ∷ secret)))

  unfoldable pub request_reset : Text → Text → Text → ℕ → Option Text → Exec (Option (Text × Text))
  request_reset tenant_slug email secret salt ip = do
    found ← gets (λ s. account s.db tenant_slug email)
    issue secret salt ip found

  unfoldable pub complete_reset : Text → Text → ℕ → Option Text → Exec (Unit {0})
  complete_reset raw_token new_password salt ip = do
    let secret = after_dot raw_token
    raise_if (is_empty (before_dot raw_token) || is_empty secret) Error.invalid_reset_token
    token_id ← or_raise (uuid.of_hex (before_dot raw_token)) Error.invalid_reset_token
    candidate ← gets (λ s.
        usable_token pw s.now secret
          (find? (λ (r : PasswordResetToken). r.id == token_id) s.reset_tokens))
    row ← or_raise candidate Error.invalid_reset_token
    found ← gets (λ s. undeleted (find? (λ (u : User). u.id == row.user_id) s.users))
    user ← or_raise found Error.invalid_reset_token
    now ← gets (λ s. s.now)
    modify (λ db. record db {
      users =
          update (λ (u : User). u.id == user.id) (with_password (pw.hash salt new_password))
            db.users;
      reset_tokens = update (λ (r : PasswordResetToken). r.id == row.id) (used now) db.reset_tokens;
    })
    write_event (record (event row.tenant_id AuditAction.password_reset_completed) {
      actor_user_id = some user.id;
      resource_type = some "user";
      resource_id = some user.id;
      ip_address = ip;
    })
