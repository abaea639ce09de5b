-- ===== src/Invitations/Lifecycle.antt =====
-- What each operation on invitations does to the tables, and which invitations can be accepted.
use mathlib.Core.Path.{ap₂}
use mathlib.Core.Bool.{false≢true}
use mathlib.Core.Option.{some-injective}
use enterprise_document_inte.Base.{
  ℕ, ◌≡◌, ap, sym, ◌∙◌, inl, inr, true, false, none, some, [], ◌∷◌, ◌++◌, Text, arith, lower,
  text_eq, any, find?, find?-holds, update, eq_of_text_eq, text_eq_refl, any-append, ◌==◌,
  Bool-cases, Option-cases,
}
use enterprise_document_inte.Models.{Db, User, Tenant, Invitation, is_pending}
use enterprise_document_inte.Session.{Session, is_ok}
use enterprise_document_inte.Audit.{write_event}
use enterprise_document_inte.Security.{PasswordContext, Jwt, issue_tokens}
use enterprise_document_inte.Invitations.{
  has_email, accept, accept_invitation, pending_invite, is_invite_of, is_expired, normalize_key,
}

-- The user that an acceptance adds.
abbrev pub new_member : PasswordContext → Text → ℕ → Session → Tenant → Invitation → User
new_member pw password salt s t i = record {
  id = s.next_id;
  tenant_id = t.id;
  email = i.email;
  hashed_password = pw.hash salt password;
  role = i.role;
  is_active = true;
  deleted_at = none;
}

module _ (pw : PasswordContext) (jwt : Jwt) (slug email key password : Text) (salt : ℕ)
    (s : Session) where
  -- An invitation that is accepted was pending, of that tenant and email, not expired, and the key
  -- matches its hash; and no user of the tenant, deleted or not, had its email.
  pub accept_invitation_lem :
      is_ok (accept_invitation pw jwt slug email key password salt s).0 ≡ true
      → (t : Tenant) × (i : Invitation) × (find?
            (λ (x : Tenant). text_eq x.slug (lower slug))
            s.tenants
          ≡ some t)
        × (pending_invite s.db t.id (lower email) ≡ some i)
        × (is_expired s.now i.expires_at ≡ false)
        × (pw.verify (normalize_key key) i.token_hash ≡ true)
        × (any (has_email t.id i.email) s.users ≡ false)
  unfolding accept_invitation
  accept_invitation_lem h =
      elim (Option-cases (find? (λ (x : Tenant). text_eq x.slug (lower slug)) s.tenants)) [
        | inl missing ↦ absurd (ground arith)
        | inr (t, found) ↦ elim (Option-cases (pending_invite s.db t.id (lower email))) [
          | inl absent ↦ absurd (ground arith)
          | inr (i, pending) ↦ (t, i, found, pending, ground arith, ground arith, ground arith)
        ]
      ]

  -- What a successful acceptance leaves.
  pub accept_invitation_state :
      (t : Tenant) (i : Invitation)
      → find? (λ (x : Tenant). text_eq x.slug (lower slug)) s.tenants ≡ some t
      → pending_invite s.db t.id (lower email) ≡ some i
      → is_ok (accept_invitation pw jwt slug email key password salt s).0 ≡ true
      → let s' = (accept_invitation pw jwt slug email key password salt s).1 in
        (s'.users ≡ s.users ++ new_member pw password salt s t i ∷ [])
        × (s'.invitations ≡ update (λ (x : Invitation). x.id == i.id) (accept s.now) s.invitations)
        × (s'.subscriptions ≡ s.subscriptions)
        × (s'.settings ≡ s.settings)
        × (s'.tenants ≡ s.tenants)
  unfolding accept_invitation issue_tokens write_event
  accept_invitation_state t i found pending h =
      (ground arith, ground arith, ground arith, ground arith, ground arith)

-- The email of a pending invitation is the one that was asked for.
pub email-pending_invite :
    (db : Db) (t : ℕ) (email : Text) (i : Invitation)
    → pending_invite db t email ≡ some i
    → (i.tenant_id ≡ t) × (i.email ≡ email) × (is_pending i.status ≡ true)
unfolding pending_invite
email-pending_invite db t email i h =
    let holds = find?-holds (is_invite_of t email) db.invitations i h in
    (
      ground (arith, holds),
      eq_of_text_eq i.email email (ground (arith, holds)),
      ground (arith, holds),
    )

module _ (pw : PasswordContext) (jwt : Jwt) (slug email key password : Text) (salt : ℕ)
    (s : Session) where
  -- Where any user of the tenant, deleted or not, has the email, no invitation of it is accepted: the
  -- table's constraint refuses the new user.
  pub accept_invitation_taken :
      (t : Tenant)
      → find? (λ (x : Tenant). text_eq x.slug (lower slug)) s.tenants ≡ some t
      → any (has_email t.id (lower email)) s.users ≡ true
      → is_ok (accept_invitation pw jwt slug email key password salt s).0 ≡ false
  accept_invitation_taken t found taken =
      elim (Bool-cases (is_ok (accept_invitation pw jwt slug email key password salt s).0)) [
        | inl accepted ↦
            let (t', i, found', pending, fresh, verified, free) =
              accept_invitation_lem pw jwt slug email key password salt s accepted in
            let same : t' ≡ t = some-injective t' t (sym found' ∙ found) in
            let mail = (email-pending_invite s.db t'.id (lower email) i pending).1 in
            absurd (
              false≢true (
                sym free
                ∙ ap₂ (λ (x : Tenant) m. any (has_email x.id m) s.users) same mail
                ∙ taken))
        | inr refused ↦ refused
      ]

module _ (pw : PasswordContext) (jwt : Jwt) (slug email key password : Text) (salt : ℕ)
    (s : Session) where
  -- An invitation is good for one acceptance: after it, no key or password gets another account
  -- for that email in that workspace.
  pub accept_invitation_once :
      (key' password' : Text) (salt' : ℕ)
      → is_ok (accept_invitation pw jwt slug email key password salt s).0 ≡ true
      → let s' = (accept_invitation pw jwt slug email key password salt s).1 in
        is_ok (accept_invitation pw jwt slug email key' password' salt' s').0 ≡ false
  accept_invitation_once key' password' salt' accepted =
      let (t, i, found, pending, fresh, verified, free) =
        accept_invitation_lem pw jwt slug email key password salt s accepted in
      let (users, invitations, subscriptions, settings, tenants) =
        accept_invitation_state pw jwt slug email key password salt s t i found pending accepted in
      let mail = (email-pending_invite s.db t.id (lower email) i pending).1 in
      let own : has_email t.id (lower email) (new_member pw password salt s t i) ≡ true =
        rw mail (ground (arith, text_eq_refl (lower email))) in
      accept_invitation_taken pw jwt slug email key' password' salt'
        (accept_invitation pw jwt slug email key password salt s).1 t
        (ap (find? (λ (x : Tenant). text_eq x.slug (lower slug))) tenants ∙ found)
        (ap (any (has_email t.id (lower email))) users
          ∙ any-append (has_email t.id (lower email)) s.users
              (new_member pw password salt s t i ∷ [])
          ∙ ground (arith, own))
