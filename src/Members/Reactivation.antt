-- ===== src/Members/Reactivation.antt =====
-- `update_user` sets `is_active` with no look at the quota.
use enterprise_document_inte.Base.{
  ℕ, ◌+◌, ◌≡◌, ◌≤◌, inl, inr, true, false, not, ◌&&◌, none, some, arith, any, any_of_find?, find?,
  update, count-update_gt, ◌==◌, Option-cases,
}
use enterprise_document_inte.Models.{User}
use enterprise_document_inte.Session.{Session, is_ok}
use enterprise_document_inte.Audit.{write_event}
use enterprise_document_inte.Authz.{is_privileged}
use enterprise_document_inte.Billing.{is_active_user}
use enterprise_document_inte.Documents.{CurrentUser}
use enterprise_document_inte.Members.{update_user, load_tenant_user, changed}
use enterprise_document_inte.Members.Seats.{seats, seat_limit}

update_user_state :
    (current : CurrentUser) (k : ℕ) (s : Session) (u : User)
    → is_privileged current.role ≡ true
    → load_tenant_user s.db current.tenant_id k ≡ some u
    → let (r, s') = update_user current k none (some true) s in
      (is_ok r ≡ true)
      × (s'.users ≡ update (λ (x : User). x.id == u.id) (changed none (some true)) s.users)
      × (s'.invitations ≡ s.invitations)
unfolding update_user write_event
update_user_state current k s u admin found = (ground arith, ground arith, ground arith)

-- An inactive user whom an update reactivates.
reactivated :
    (current : CurrentUser) (k : ℕ) (s : Session) (u : User)
    → load_tenant_user s.db current.tenant_id k ≡ some u
    → u.is_active ≡ false
    → any
        (λ (x : User).
          x.id == u.id
          && (not (is_active_user current.tenant_id x)
              && is_active_user current.tenant_id (changed none (some true) x)))
        s.users
      ≡ true
reactivated current k s u found inactive =
    elim (Option-cases (find? (λ (x : User). x.id == k) s.users)) [
      | inl missing ↦ absurd (ground arith)
      | inr (x, here) ↦ any_of_find? (λ (x : User). x.id == k) _ s.users x here (ground arith)
    ]

-- In a tenant whose seats are all in use, the reactivation of an inactive user by an owner or an admin
-- succeeds, and the seats in use then pass the limit of the plan.
pub update_user_passes_limit :
    (current : CurrentUser) (k limit : ℕ) (s : Session) (u : User)
    → is_privileged current.role ≡ true
    → load_tenant_user s.db current.tenant_id k ≡ some u
    → u.is_active ≡ false
    → seat_limit s current.tenant_id ≡ some limit
    → limit ≤ seats s current.tenant_id
    → let (r, s') = update_user current k none (some true) s in
      (is_ok r ≡ true) × (limit + 1 ≤ seats s' current.tenant_id)
update_user_passes_limit current k limit s u admin found inactive limited full =
    let (done, users, invitations) = update_user_state current k s u admin found in
    let more =
      count-update_gt (is_active_user current.tenant_id) (λ (x : User). x.id == u.id)
        (changed none (some true)) s.users (λ x own active. ground arith)
        (reactivated current k s u found inactive) in
    (done, rw (users, invitations) (omega (arith, more)))
