-- ===== src/Auth/Login.antt =====
-- Who can log in, and what a refused login leaves.
use enterprise_document_inte.Base.{
  ℕ, ◌+◌, ◌≡◌, refl, ap, ◌∙◌, true, false, Option, none, some, List, [], ◌∷◌, ◌++◌, Text, arith,
  text_eq, lower, text_eq_refl, any, find?, find?-append_none, ◌==◌,
}
use enterprise_document_inte.Models.{Db, User, UserRole, Tenant}
use enterprise_document_inte.Session.{Session, Result, ok, err, is_ok}
use enterprise_document_inte.Audit.{build, write_event}
use enterprise_document_inte.Security.{PasswordContext, Jwt, TokenPair, issue_tokens}
use enterprise_document_inte.Billing.{ensure_subscription}
use enterprise_document_inte.Invitations.{is_user_of}
use enterprise_document_inte.Auth.{
  find_tenant, find_login, login_failed, checked, refuse_or_issue, authenticate,
  register_tenant_and_owner,
}

-- The user whom the credentials name, who is active and whose password this is.
abbrev pub MayLogIn : PasswordContext → Db → Text → Text → Text → User → Type 0
MayLogIn pw db slug email password u =
    (t : Tenant) × (find_tenant db slug ≡ some t)
    × (find? (is_user_of t.id (lower email)) db.users ≡ some u)
    × (u.is_active ≡ true)
    × (pw.verify password u.hashed_password ≡ true)

-- A result without its tokens.
abbrev pub who : Result (User × TokenPair) → Result User
who (ok (u, tokens)) = ok u
who (err e) = err e

module _ (pw : PasswordContext) (jwt : Jwt) (slug email password : Text) (ip : Option Text)
    (s : Session) where
  abbrev pub failure : Session
  failure = record s {
    committed =
        s.committed
        ++ build s.trace_id (
            login_failed (find_tenant s.db slug) (find_login s.db (find_tenant s.db slug) email)
              slug email ip)
          ∷ [];
  }

  -- The user that a registration adds.
  abbrev pub new_owner : ℕ → User
  new_owner salt = record {
    id = s.next_id + 1;
    tenant_id = s.next_id;
    email = lower email;
    hashed_password = pw.hash salt password;
    role = UserRole.owner;
    is_active = true;
    deleted_at = none;
  }

  register_state :
      (name : Text) (salt : ℕ)
      → is_ok (register_tenant_and_owner pw jwt name slug email password salt ip s).0 ≡ true
      → let s' = (register_tenant_and_owner pw jwt name slug email password salt ip s).1 in
        (find_tenant s.db slug ≡ none)
        × (s'.tenants
            ≡ s.tenants
              ++ record { id = s.next_id; name = name; slug = slug; is_active = true } ∷ [])
        × (s'.users ≡ s.users ++ new_owner salt ∷ [])
  unfolding register_tenant_and_owner write_event issue_tokens ensure_subscription
  register_state name salt h = (ground arith, ground arith, ground arith)

none_in_tenant :
    (t : ℕ) (email : Text) (us : List User)
    → any (λ (u : User). u.tenant_id == t) us ≡ false
    → find? (is_user_of t email) us ≡ none
none_in_tenant t email [] h = refl
none_in_tenant t email (u ∷ us) h = ground (arith, none_in_tenant t email us)

module _ (pw : PasswordContext) (jwt : Jwt) (name slug email password : Text) (salt : ℕ)
    (ip ip' : Option Text) (s : Session) where
  -- Who has registered an organization can log in to it with the same email and password, as its owner.
  -- The id drawn for the tenant must be one that no user has.
  pub authenticate-register_tenant_and_owner :
      is_ok (register_tenant_and_owner pw jwt name slug email password salt ip s).0 ≡ true
      → any (λ (u : User). u.tenant_id == s.next_id) s.users ≡ false
      → let s' = (register_tenant_and_owner pw jwt name slug email password salt ip s).1 in
        who (authenticate pw jwt slug email password ip' s').0
        ≡ ok (new_owner pw jwt slug email password ip s salt)
  unfolding authenticate issue_tokens write_event
  authenticate-register_tenant_and_owner done fresh =
      let s' = (register_tenant_and_owner pw jwt name slug email password salt ip s).1 in
      let owner = new_owner pw jwt slug email password ip s salt in
      let tenant : Tenant = record { id = s.next_id; name = name; slug = slug; is_active = true } in
      let (unknown, tenants, users) =
        register_state pw jwt slug email password ip s name salt done in
      let found : find_tenant s'.db slug ≡ some tenant =
        ap (find? (λ (t : Tenant). text_eq t.slug slug)) tenants
        ∙ find?-append_none (λ (t : Tenant). text_eq t.slug slug) s.tenants (tenant ∷ []) unknown
        ∙ ground (arith, text_eq_refl slug) in
      let here : find? (is_user_of s.next_id (lower email)) s'.users ≡ some owner =
        ap (find? (is_user_of s.next_id (lower email))) users
        ∙ find?-append_none (is_user_of s.next_id (lower email)) s.users (owner ∷ [])
            (none_in_tenant s.next_id (lower email) s.users fresh)
        ∙ ground (arith, text_eq_refl (lower email)) in
      let named : find_login s'.db (find_tenant s'.db slug) email ≡ some owner =
        ap (λ o. find_login s'.db o email) found ∙ here in
      let right : checked pw jwt password (some owner) ≡ some owner =
        ground (arith, pw.verify-hash salt password) in
      ap
        (λ o.
          who
            (refuse_or_issue pw jwt
              (login_failed (find_tenant s'.db slug)
                (find_login s'.db (find_tenant s'.db slug) email) slug email ip')
              ip' o s').0)
        (ap (checked pw jwt password) named ∙ right)
