-- ===== src/ApiKeys/Access.antt =====
-- What a key opens, and what closes it.
use Prim.Native.String.{String}
use enterprise_document_inte.Base.{
  ℕ, ◌≡◌, inl, inr, true, false, none, some, Text, arith, find?, find?-update, update, is_some,
  ◌==◌, Bool-cases,
}
use enterprise_document_inte.Models.{User, ApiKey}
use enterprise_document_inte.Session.{Session, ok}
use enterprise_document_inte.Audit.{write_event}
use enterprise_document_inte.Security.{PasswordContext}
use enterprise_document_inte.Authz.{is_privileged}
use enterprise_document_inte.Documents.{CurrentUser}
use enterprise_document_inte.Passwords.{before_dot, after_dot}
use enterprise_document_inte.ApiKeys.{
  has_prefix, has_expired, principal, authenticate_key, revoke_at, revoke_api_key,
}

module _ (pw : PasswordContext) where
  -- Who a key speaks for: the key is not revoked and not expired, the secret is its own, and its user is
  -- active.
  pub record Opened (presented : Text) (s : Session) (current : CurrentUser) : Type 0 where
    pub key : ApiKey
    pub user : User
    pub by_prefix : find? (has_prefix (before_dot presented)) s.api_keys ≡ some key
    pub not_revoked : is_some key.revoked_at ≡ false
    pub not_expired : has_expired s.now key.expires_at ≡ false
    pub secret : pw.verify (after_dot presented) key.key_hash ≡ true
    pub user_row : find? (λ (u : User). u.id == key.user_id) s.users ≡ some user
    pub not_deleted : is_some user.deleted_at ≡ false
    pub active : user.is_active ≡ true
    pub same : current ≡ principal user

  -- Once a manager has revoked a key, whatever is presented under its prefix is refused.
  pub authenticate_key_after_revoke :
      (current : CurrentUser) (api_key_id : ℕ) (s : Session) (k : ApiKey) (presented : Text)
      → (revoke_api_key pw current api_key_id s).0 ≡ ok tt
      → find? (λ (r : ApiKey). r.id == api_key_id) s.api_keys ≡ some k
      → find? (has_prefix (before_dot presented)) s.api_keys ≡ some k
      → (authenticate_key pw presented (revoke_api_key pw current api_key_id s).1).0 ≡ ok none
  unfolding revoke_api_key authenticate_key write_event
  authenticate_key_after_revoke current api_key_id s k presented h found by_prefix =
      elim (Bool-cases (is_privileged current.role)) [
        | inr other ↦ absurd (ground arith)
        | inl manager ↦ elim (Bool-cases (k.tenant_id == current.tenant_id)) [
          | inr other ↦ absurd (ground arith)
          | inl own ↦
              let kept : find? (has_prefix (before_dot presented))
                    (update (λ (r : ApiKey). r.id == k.id) (revoke_at pw s.now) s.api_keys)
                  ≡ some (revoke_at pw s.now k) =
                find?-update (has_prefix (before_dot presented)) (λ (r : ApiKey). r.id == k.id)
                  (revoke_at pw s.now) s.api_keys (λ r. ground arith) k by_prefix (ground arith) in
              ground (arith, kept)
        ]
      ]
