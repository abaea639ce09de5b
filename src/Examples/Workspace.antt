-- ===== src/Examples/Workspace.antt =====
-- Plans, invitations and members at concrete inputs.
use enterprise_document_inte.Base.{
  Text, ◌++◌, ◌≡◌, ◌≤◌, ◌+◌, refl, true, false, none, some, arith, codes, lower, upper,
}
use enterprise_document_inte.Models.{User, UserRole, SubscriptionStatus}
use enterprise_document_inte.Session.{Session, is_ok}
use enterprise_document_inte.Audit.{write_event}
use enterprise_document_inte.Security.{
  create_token, create_access_token, create_refresh_token, issue_tokens,
}
use enterprise_document_inte.Authz.{is_privileged}
use enterprise_document_inte.Billing.{
  subscription_for, plan_for, limit_for, current_count, get_plan, find_plan, default_plan,
  count_active_users, count_pending_invites, BillingEvent,
}
use enterprise_document_inte.Invitations.{
  normalize_key, in_alphabet, new_invite_key, accept_invitation, pending_invite, is_expired,
  insert_user, existing_user,
}
use enterprise_document_inte.Invitations.RoundTrip.{normalize_key-new_invite_key}
use enterprise_document_inte.Invitations.Lifecycle.{accept_invitation_once, accept_invitation_taken}
use enterprise_document_inte.Members.{update_user, deactivate_user}
use enterprise_document_inte.Members.Seats.{seats, WithinSeats}
use enterprise_document_inte.Members.Seats.Invariant.{Request, Requests, Requests-WithinSeats}
use enterprise_document_inte.Members.Reactivation.{update_user_passes_limit}
use enterprise_document_inte.Passwords.{
  before_dot, after_dot, account, request_reset, complete_reset,
}
use enterprise_document_inte.Passwords.Reset.{complete_reset_once}
use enterprise_document_inte.Fixtures.{unary, session, owner, plain, claims, acme}

abbrev upgrade : BillingEvent
upgrade = record {
  tenant_id = 1;
  plan_key = "business";
  status = SubscriptionStatus.active;
  stripe_customer_id = none;
  stripe_subscription_id = none;
  current_period_end = none;
}

normalize_key-new_invite_key_example :
    (normalize_key (new_invite_key (codes "ABCDEFGH")).0 ≡ (new_invite_key (codes "ABCDEFGH")).1)
    × (normalize_key (lower (new_invite_key (codes "ABCDEFGH")).0)
        ≡ (new_invite_key (codes "ABCDEFGH")).1)
unfolding in_alphabet
normalize_key-new_invite_key_example =
    normalize_key-new_invite_key (codes "ABCDEFGH")
      (refl, (refl, (refl, (refl, (refl, (refl, (refl, (refl, tt)))))))) (omega arith)

accept_invitation_once_example :
    let s' =
      (accept_invitation plain claims
        (codes "acme")
        (codes "new@acme.io")
        (codes "ab-cde")
        (codes "pw")
        3
        session).1 in
    is_ok
      (accept_invitation plain claims
        (codes "acme")
        (codes "new@acme.io")
        (codes "ABCDE")
        (codes "pw")
        4
        s').0
    ≡ false
unfolding accept_invitation pending_invite is_expired insert_user issue_tokens create_token
    create_access_token create_refresh_token write_event normalize_key in_alphabet upper lower
    existing_user
accept_invitation_once_example =
    accept_invitation_once plain claims (codes "acme") (codes "new@acme.io") (codes "ab-cde")
      (codes "pw") 3 session (codes "ABCDE") (codes "pw") 4 refl

accept_invitation_taken_example :
    is_ok
      (accept_invitation plain claims
        (codes "acme")
        (codes "member@acme.io")
        (codes "ABCDE")
        (codes "pw")
        3
        session).0
    ≡ false
unfolding lower
accept_invitation_taken_example =
    accept_invitation_taken plain claims (codes "acme") (codes "member@acme.io") (codes "ABCDE")
      (codes "pw") 3 session acme refl refl

abbrev joined : Session
joined =
    (accept_invitation plain claims (codes "acme") (codes "new@acme.io") (codes "ab-cde")
      (codes "pw") 3 session).1

-- The invited user joins, and later the member is deactivated.
Requests-WithinSeats_example :
    WithinSeats 1 (deactivate_user owner 11 (record joined { now = 2000 })).1
unfolding accept_invitation pending_invite is_expired insert_user issue_tokens create_token
    create_access_token create_refresh_token write_event normalize_key in_alphabet upper lower
    existing_user deactivate_user is_privileged subscription_for plan_for default_plan get_plan
    find_plan limit_for current_count count_active_users count_pending_invites
Requests-WithinSeats_example =
    Requests-WithinSeats 1 {pw = plain} {jwt = claims}
      (Requests.then_one
        (Requests.then_one
          (Requests.then_one Requests.none_yet (
            Request.join session (codes "acme") (codes "new@acme.io") (codes "ab-cde") (codes "pw")
              3 refl))
          (Request.wait joined 2000))
        (Request.remove (record joined { now = 2000 }) owner 11 refl))
      (omega arith)

abbrev former : User
former = record {
  id = 12;
  tenant_id = 1;
  email = codes "former@acme.io";
  hashed_password = codes "secret";
  role = UserRole.member;
  is_active = false;
  deleted_at = none;
}

update_user_passes_limit_example :
    let (r, s') = update_user owner 12 none (some true) session in
    (is_ok r ≡ true) × (3 + 1 ≤ seats s' 1)
unfolding is_privileged subscription_for plan_for default_plan get_plan find_plan limit_for
    current_count count_active_users count_pending_invites
update_user_passes_limit_example =
    update_user_passes_limit owner 12 3 session former refl refl refl refl (omega arith)

abbrev member : User
member = record {
  id = 11;
  tenant_id = 1;
  email = codes "member@acme.io";
  hashed_password = codes "secret";
  role = UserRole.member;
  is_active = true;
  deleted_at = none;
}

-- The text of a new id, a full stop, and the secret `s`.
abbrev mailed : Text
mailed = unary.hex 100 ++ codes ".s"

abbrev asked : Session
asked =
    (request_reset unary plain (codes "acme") (codes "Member@acme.io") (codes "s") 1 none session).1

complete_reset_once_example :
    is_ok
      (complete_reset unary plain mailed
        (codes "again")
        4
        none
        (record (complete_reset unary plain mailed (codes "new") 2 none asked).1 { now = 1500 })).0
    ≡ false
unfolding request_reset complete_reset account lower before_dot after_dot write_event
complete_reset_once_example =
    complete_reset_once unary plain mailed (codes "new") 2 none asked mailed (codes "again") 4 none
      1500 refl refl
