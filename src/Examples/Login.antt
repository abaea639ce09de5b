-- ===== src/Examples/Login.antt =====
-- Registration, login and tokens at concrete inputs.
use enterprise_document_inte.Base.{◌≡◌, refl, true, false, none, some, codes, lower, ◌==◌}
use enterprise_document_inte.Models.{User, UserRole}
use enterprise_document_inte.Session.{ok}
use enterprise_document_inte.Audit.{write_event}
use enterprise_document_inte.Authz.{is_privileged}
use enterprise_document_inte.Security.{
  TokenType, token_type_eq, issue_tokens, create_token, create_access_token, create_refresh_token,
  decode_token,
}
use enterprise_document_inte.Billing.{ensure_subscription, subscription_for}
use enterprise_document_inte.Invitations.{insert_user}
use enterprise_document_inte.Members.{deactivate_user}
use enterprise_document_inte.Auth.{authenticate, register_tenant_and_owner, get_current_user}
use enterprise_document_inte.Auth.Login.{who, new_owner, authenticate-register_tenant_and_owner}
use enterprise_document_inte.Auth.Bearer.{claims_of, get_current_user_after_deactivate}
use enterprise_document_inte.Fixtures.{session, owner, plain, claims}

authenticate-register_tenant_and_owner_example :
    let s' =
      (register_tenant_and_owner plain claims
        (codes "New")
        (codes "new")
        (codes "Ann@new.io")
        (codes "pw")
        1
        none
        session).1 in
    who (authenticate plain claims (codes "new") (codes "Ann@new.io") (codes "pw") none s').0
    ≡ ok (new_owner plain claims (codes "new") (codes "Ann@new.io") (codes "pw") none session 1)
unfolding register_tenant_and_owner insert_user write_event ensure_subscription issue_tokens
    create_token create_access_token create_refresh_token lower subscription_for
authenticate-register_tenant_and_owner_example =
    authenticate-register_tenant_and_owner plain claims (codes "New") (codes "new")
      (codes "Ann@new.io") (codes "pw") 1 none none session refl refl

abbrev ann : User
ann = record {
  id = 10;
  tenant_id = 1;
  email = codes "owner@acme.io";
  hashed_password = codes "secret";
  role = UserRole.owner;
  is_active = true;
  deleted_at = none;
}

-- The owner's token is good after the member has been deactivated.
get_current_user_after_deactivate_example : (10 == 11) ≡ false
unfolding deactivate_user is_privileged write_event get_current_user decode_token token_type_eq
get_current_user_after_deactivate_example =
    get_current_user_after_deactivate plain claims owner 11 session
      (some (claims.encode (claims_of claims ann session TokenType.access 100 1800))) none 1200
      owner refl refl

abbrev bob : User
bob = record ann { id = 11; role = UserRole.member }
