-- ===== src/Members/Seats/Invariant.antt =====
-- Every operation that the quota guards keeps the tenants within their seats.
use mathlib.Core.Path.{subst}
use enterprise_document_inte.Base.{
  ℕ, ◌+◌, ◌≡◌, ◌≤◌, sym, inl, inr, true, false, Option, none, some, [], ◌∷◌, Text, arith, update,
  count, count-append, count-update_lt, count-update_le, any_of_find?, ◌&&◌, if◌then◌else◌, ◌==◌,
  Bool-cases, lower,
}
use enterprise_document_inte.Models.{Db, User, UserRole, Invitation, InvitationStatus}
use enterprise_document_inte.Session.{Session, is_ok}
use enterprise_document_inte.Security.{PasswordContext, Jwt}
use enterprise_document_inte.Billing.{subscription_for, is_active_user, is_pending_invite}
use enterprise_document_inte.Billing.Quota.{HasRoom}
use enterprise_document_inte.Documents.{CurrentUser}
use enterprise_document_inte.Invitations.{
  create_invitation, accept_invitation, revoke, accept, pending_invite, is_invite_of,
}
use enterprise_document_inte.Invitations.Lifecycle.{
  email-pending_invite, accept_invitation_lem, accept_invitation_state, new_member,
}
use enterprise_document_inte.Members.{create_user, deactivate_user, deactivated}
use enterprise_document_inte.Members.Seats.{
  AtMost, seats, seat_limit, WithinSeats, SamePlans, create_invitation_state, create_user_state,
  revoke_state, deactivate_user_state, new_invitation, new_user,
}

same_limit : (t : ℕ) (s s' : Session) → SamePlans s s' → seat_limit s' t ≡ seat_limit s t
unfolding subscription_for
same_limit t s s' h = rw (h.0, h.1)

AtMost-mono : (l : Option ℕ) (a b : ℕ) → a ≤ b → AtMost l b → AtMost l a
AtMost-mono none a b h k = tt
AtMost-mono (some l) a b h k = omega arith

AtMost-room : (l : Option ℕ) (a b : ℕ) → a ≤ b + 1 → HasRoom l b → AtMost l a
AtMost-room none a b h k = tt
AtMost-room (some l) a b h k = omega arith

module _ (t : ℕ) (s s' : Session) (plans : SamePlans s s') where
  keeps : seats s' t ≤ seats s t → WithinSeats t s → WithinSeats t s'
  keeps fewer h = rw (same_limit t s s' plans) (AtMost-mono (seat_limit s t) _ _ fewer h)

  grows : seats s' t ≤ seats s t + 1 → HasRoom (seat_limit s t) (seats s t) → WithinSeats t s'
  grows more room = rw (same_limit t s s' plans) (AtMost-room (seat_limit s t) _ _ more room)

-- One more user or invitation of a tenant with room keeps every tenant within its seats.
one_more :
    (c t : ℕ) (s s' : Session)
    → SamePlans s s'
    → HasRoom (seat_limit s c) (seats s c)
    → ((t ≡ c) → seats s' t ≤ seats s t + 1)
    → ((t == c) ≡ false → seats s' t ≤ seats s t)
    → WithinSeats t s
    → WithinSeats t s'
one_more c t s s' plans room own other h = elim (Bool-cases (t == c)) [
  | inl same ↦
      let e : t ≡ c = ground arith in
      grows t s s' plans (own e) (subst (λ x. HasRoom (seat_limit s x) (seats s x)) (sym e) room)
  | inr differ ↦ keeps t s s' plans (other differ) h
]

-- An acceptance takes a pending invitation of its tenant away, and of no tenant adds one.
accept_frees_seat :
    (db : Db) (t tenant_id now : ℕ) (email : Text) (i : Invitation)
    → pending_invite db tenant_id email ≡ some i
    → (if tenant_id == t then 1 else 0)
        + count
            (is_pending_invite t)
            (update (λ (x : Invitation). x.id == i.id) (accept now) db.invitations)
      ≤ count (is_pending_invite t) db.invitations
unfolding pending_invite
accept_frees_seat db t tenant_id now email i pending =
    let own = λ (x : Invitation). x.id == i.id in
    let (tenant, mail, status) = email-pending_invite db tenant_id email i pending in
    elim (Bool-cases (tenant_id == t)) [
      | inl same ↦
          let there =
            any_of_find? (is_invite_of tenant_id email) (λ x. is_pending_invite t x && own x)
              db.invitations i pending (ground arith) in
          let fewer =
            count-update_lt (is_pending_invite t) own (accept now) db.invitations
              (λ x e. ground arith) there in
          rw same (omega (arith, fewer))
      | inr differ ↦
          let no_more =
            count-update_le (is_pending_invite t) own (accept now) db.invitations
              (λ x e k. ground arith) in
          rw differ (omega (arith, no_more))
    ]

module _ (t : ℕ) (s : Session) (h : WithinSeats t s) where
  create_invitation-WithinSeats :
      (pw : PasswordContext) (c inviter : ℕ) (email : Text) (role : UserRole) (raw : Text)
      (salt : ℕ)
      → is_ok (create_invitation pw c inviter email role raw salt s).0 ≡ true
      → WithinSeats t (create_invitation pw c inviter email role raw salt s).1
  create_invitation-WithinSeats pw c inviter email role raw salt done =
      let (room, users, invitations, plans) =
        create_invitation_state pw c inviter email role raw salt s done in
      let row = new_invitation pw c inviter email role raw salt s in
      let counted = count-append (is_pending_invite t) s.invitations (row ∷ []) in
      one_more c t s (create_invitation pw c inviter email role raw salt s).1 plans room
        (λ e. rw (users, invitations, counted) (ground arith))
        (λ e. rw (users, invitations, counted) (ground arith)) h

  create_user-WithinSeats :
      (pw : PasswordContext) (current : CurrentUser) (email password : Text) (role : UserRole)
      (salt : ℕ)
      → is_ok (create_user pw current email password role salt s).0 ≡ true
      → WithinSeats t (create_user pw current email password role salt s).1
  create_user-WithinSeats pw current email password role salt done =
      let (room, users, invitations, plans) =
        create_user_state pw current email password role salt s done in
      let row = new_user pw current email password role salt s in
      let counted = count-append (is_active_user t) s.users (row ∷ []) in
      one_more current.tenant_id t s (create_user pw current email password role salt s).1 plans
        room (λ e. rw (users, invitations, counted) (ground arith))
        (λ e. rw (users, invitations, counted) (ground arith)) h

  revoke-WithinSeats : (c k : ℕ) → is_ok (revoke c k s).0 ≡ true → WithinSeats t (revoke c k s).1
  revoke-WithinSeats c k done =
      let (id, users, invitations, plans) = revoke_state c k s done in
      let fewer =
        count-update_le (is_pending_invite t) (λ (i : Invitation). i.id == id)
          (λ i. record i { status = InvitationStatus.revoked }) s.invitations
          (λ i own pending. ground arith) in
      keeps t s (revoke c k s).1 plans (rw (users, invitations) (omega (arith, fewer))) h

  deactivate_user-WithinSeats :
      (current : CurrentUser) (k : ℕ)
      → is_ok (deactivate_user current k s).0 ≡ true
      → WithinSeats t (deactivate_user current k s).1
  deactivate_user-WithinSeats current k done =
      let (id, users, invitations, plans) = deactivate_user_state current k s done in
      let fewer =
        count-update_le (is_active_user t) (λ (u : User). u.id == id) (deactivated s.now) s.users
          (λ u own active. ground arith) in
      keeps t s (deactivate_user current k s).1 plans
        (rw (users, invitations) (omega (arith, fewer))) h

  accept_invitation-WithinSeats :
      (pw : PasswordContext) (jwt : Jwt) (slug email key password : Text) (salt : ℕ)
      → is_ok (accept_invitation pw jwt slug email key password salt s).0 ≡ true
      → WithinSeats t (accept_invitation pw jwt slug email key password salt s).1
  accept_invitation-WithinSeats pw jwt slug email key password salt done =
      let (tenant, i, found, pending, fresh, verified, free) =
        accept_invitation_lem pw jwt slug email key password salt s done in
      let (users, invitations, subscriptions, settings, tenants) =
        accept_invitation_state pw jwt slug email key password salt s tenant i found pending done in
      let row = new_member pw password salt s tenant i in
      let added = count-append (is_active_user t) s.users (row ∷ []) in
      keeps t s (accept_invitation pw jwt slug email key password salt s).1
        (settings, subscriptions)
        (rw (users, invitations, added)
          (ground (arith, accept_frees_seat s.db t tenant.id s.now (lower email) i pending)))
        h

-- One request that returns, the passage of time, or a request that raised and was rolled back, which
-- leaves the session as it was.
pub data Request (pw : PasswordContext) (jwt : Jwt) : Session → Session → Type 0 where
  invite :
      (s : Session) (c inviter : ℕ) (email : Text) (role : UserRole) (raw : Text) (salt : ℕ)
      → is_ok (create_invitation pw c inviter email role raw salt s).0 ≡ true
      → Request pw jwt s (create_invitation pw c inviter email role raw salt s).1
  join :
      (s : Session) (slug email key password : Text) (salt : ℕ)
      → is_ok (accept_invitation pw jwt slug email key password salt s).0 ≡ true
      → Request pw jwt s (accept_invitation pw jwt slug email key password salt s).1
  withdraw :
      (s : Session) (c k : ℕ) → is_ok (revoke c k s).0 ≡ true → Request pw jwt s (revoke c k s).1
  add :
      (s : Session) (current : CurrentUser) (email password : Text) (role : UserRole) (salt : ℕ)
      → is_ok (create_user pw current email password role salt s).0 ≡ true
      → Request pw jwt s (create_user pw current email password role salt s).1
  remove :
      (s : Session) (current : CurrentUser) (k : ℕ)
      → is_ok (deactivate_user current k s).0 ≡ true
      → Request pw jwt s (deactivate_user current k s).1
  wait : (s : Session) (now : ℕ) → Request pw jwt s (record s { now = now })

pub data Requests (pw : PasswordContext) (jwt : Jwt) (s : Session) : Session → Type 0 where
  none_yet : Requests pw jwt s s
  then_one : {a b : Session} → Requests pw jwt s a → Request pw jwt a b → Requests pw jwt s b

Request-WithinSeats :
    (t : ℕ) {pw : PasswordContext} {jwt : Jwt} {a b : Session}
    → Request pw jwt a b
    → WithinSeats t a
    → WithinSeats t b
Request-WithinSeats t {pw} (invite s c inviter email role raw salt done) h =
    create_invitation-WithinSeats t s h pw c inviter email role raw salt done
Request-WithinSeats t {pw} {jwt} (join s slug email key password salt done) h =
    accept_invitation-WithinSeats t s h pw jwt slug email key password salt done
Request-WithinSeats t (withdraw s c k done) h = revoke-WithinSeats t s h c k done
Request-WithinSeats t {pw} (add s current email password role salt done) h =
    create_user-WithinSeats t s h pw current email password role salt done
Request-WithinSeats t (remove s current k done) h = deactivate_user-WithinSeats t s h current k done
Request-WithinSeats t (wait s now) h = h

-- From a session where a tenant is within its seats, no sequence of invitations, acceptances,
-- revocations, creations and deactivations of users, of whatever tenants, takes it over them.
pub Requests-WithinSeats :
    (t : ℕ) {pw : PasswordContext} {jwt : Jwt} {a b : Session}
    → Requests pw jwt a b
    → WithinSeats t a
    → WithinSeats t b
Requests-WithinSeats t none_yet h = h
Requests-WithinSeats t (then_one rs r) h = Request-WithinSeats t r (Requests-WithinSeats t rs h)
