-- ===== src/Members/Seats.antt =====
-- The seats of a tenant: active users and pending invitations, against the limit of the plan.
pub mod Invariant
use enterprise_document_inte.Base.{
  ℕ, ◌+◌, ◌*◌, ◌≡◌, ◌≢◌, ◌≤◌, ◌<◌, refl, ap, sym, ◌∙◌, ◌⊎◌, inl, inr, Bool, true, false, not, ◌&&◌,
  ◌||◌, Option, none, some, List, [], ◌∷◌, ◌++◌, Text, arith, lower, any, find?, find?-holds,
  update, count, count-append, count-update_lt, count-update_le, is_some, ◌==◌, if◌then◌else◌,
  Bool-cases, Option-cases,
}
use enterprise_document_inte.Models.{
  Db, User, UserRole, Tenant, Invitation, InvitationStatus, is_pending,
}
use enterprise_document_inte.Session.{Session, Result, ok, err, is_ok, Exec}
use enterprise_document_inte.Audit.{write_event}
use enterprise_document_inte.Security.{PasswordContext, Jwt}
use enterprise_document_inte.Billing.{
  enforce_quota, Resource, subscription_for, plan_for, limit_for, current_count, count_active_users,
  count_pending_invites, is_active_user, is_pending_invite,
}
use enterprise_document_inte.Billing.Quota.{HasRoom, limit_in, used_in, enforce_quota_exact}
use enterprise_document_inte.Documents.{CurrentUser}
use enterprise_document_inte.Invitations.{
  create_invitation, accept_invitation, revoke, accept, new_invite_key, get_invitation,
}
use enterprise_document_inte.Members.{
  create_user, update_user, deactivate_user, deactivated, load_tenant_user,
}

-- The seats in use do not pass the limit, if there is one.
abbrev pub AtMost : Option ℕ → ℕ → Type 0
AtMost none used = Unit
AtMost (some limit) used = used ≤ limit

abbrev pub seats : Session → ℕ → ℕ
seats s t = count (is_active_user t) s.users + count (is_pending_invite t) s.invitations

abbrev pub seat_limit : Session → ℕ → Option ℕ
seat_limit s t = limit_in s t Resource.seats

abbrev pub WithinSeats : ℕ → Session → Type 0
WithinSeats t s = AtMost (seat_limit s t) (seats s t)

quota_gives_room :
    (t : ℕ) (s : Session)
    → is_ok (enforce_quota t Resource.seats s).0 ≡ true
    → (enforce_quota t Resource.seats s ≡ (ok tt, s)) × HasRoom (seat_limit s t) (seats s t)
unfolding current_count count_active_users count_pending_invites
quota_gives_room t s h = ground (arith, enforce_quota_exact t Resource.seats s)

-- What a session leaves alone: what decides the limit of every tenant.
abbrev pub SamePlans : Session → Session → Type 0
SamePlans s s' = (s'.settings ≡ s.settings) × (s'.subscriptions ≡ s.subscriptions)

-- The row that `create_invitation` adds.
abbrev pub new_invitation :
    PasswordContext → ℕ → ℕ → Text → UserRole → Text → ℕ → Session → Invitation
new_invitation pw t inviter email role raw salt s = record {
  id = s.next_id;
  tenant_id = t;
  email = lower email;
  role = role;
  token_hash = pw.hash salt (new_invite_key raw).1;
  expires_at = s.now + s.settings.invite_token_ttl_hours * 3600;
  status = InvitationStatus.pending;
  invited_by_user_id = inviter;
  accepted_at = none;
}

pub create_invitation_state :
    (pw : PasswordContext) (t inviter : ℕ) (email : Text) (role : UserRole) (raw : Text) (salt : ℕ)
    (s : Session)
    → is_ok (create_invitation pw t inviter email role raw salt s).0 ≡ true
    → let s' = (create_invitation pw t inviter email role raw salt s).1 in
      HasRoom (seat_limit s t) (seats s t)
      × (s'.users ≡ s.users)
      × (s'.invitations ≡ s.invitations ++ new_invitation pw t inviter email role raw salt s ∷ [])
      × SamePlans s s'
unfolding create_invitation
create_invitation_state pw t inviter email role raw salt s h =
    elim (Bool-cases (is_ok (enforce_quota t Resource.seats s).0)) [
      | inl passes ↦
          let (same, room) = quota_gives_room t s passes in
          (room, ground arith, ground arith, ground arith)
      | inr refused ↦ absurd (ground arith)
    ]

-- The row that `create_user` adds.
abbrev pub new_user : PasswordContext → CurrentUser → Text → Text → UserRole → ℕ → Session → User
new_user pw current email password role salt s = record {
  id = s.next_id;
  tenant_id = current.tenant_id;
  email = lower email;
  hashed_password = pw.hash salt password;
  role = role;
  is_active = true;
  deleted_at = none;
}

pub create_user_state :
    (pw : PasswordContext) (current : CurrentUser) (email password : Text) (role : UserRole)
    (salt : ℕ) (s : Session)
    → is_ok (create_user pw current email password role salt s).0 ≡ true
    → let s' = (create_user pw current email password role salt s).1 in
      HasRoom (seat_limit s current.tenant_id) (seats s current.tenant_id)
      × (s'.users ≡ s.users ++ new_user pw current email password role salt s ∷ [])
      × (s'.invitations ≡ s.invitations)
      × SamePlans s s'
unfolding create_user write_event
create_user_state pw current email password role salt s h =
    elim (Bool-cases (is_ok (enforce_quota current.tenant_id Resource.seats s).0)) [
      | inl passes ↦
          let (same, room) = quota_gives_room current.tenant_id s passes in
          (room, ground arith, ground arith, ground arith)
      | inr refused ↦ absurd (ground arith)
    ]

pub revoke_state :
    (t k : ℕ) (s : Session)
    → is_ok (revoke t k s).0 ≡ true
    → let s' = (revoke t k s).1 in
      (id : ℕ) × (s'.users ≡ s.users)
      × (s'.invitations
          ≡ update
              (λ (i : Invitation). i.id == id)
              (λ i. record i { status = InvitationStatus.revoked })
              s.invitations)
      × SamePlans s s'
unfolding revoke
revoke_state t k s h = elim (Option-cases (get_invitation s.db k)) [
  | inl missing ↦ absurd (ground arith)
  | inr (i, found) ↦ (i.id, ground arith, ground arith, ground arith)
]

pub deactivate_user_state :
    (current : CurrentUser) (k : ℕ) (s : Session)
    → is_ok (deactivate_user current k s).0 ≡ true
    → let s' = (deactivate_user current k s).1 in
      (id : ℕ) × (s'.users ≡ update (λ (u : User). u.id == id) (deactivated s.now) s.users)
      × (s'.invitations ≡ s.invitations)
      × SamePlans s s'
unfolding deactivate_user write_event
deactivate_user_state current k s h =
    elim (Option-cases (load_tenant_user s.db current.tenant_id k)) [
      | inl missing ↦ absurd (ground arith)
      | inr (u, found) ↦ (u.id, ground arith, ground arith, ground arith)
    ]
