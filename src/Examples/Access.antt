-- ===== src/Examples/Access.antt =====
-- Access, documents and the model router at concrete inputs.
use enterprise_document_inte.Base.{
  codes, ◌≡◌, ◌⊎◌, refl, true, false, none, some, [], ◌∷◌, any, ◌==◌, ℕ,
}
use enterprise_document_inte.Errors.{Error}
use enterprise_document_inte.Models.{
  GroupType, UserRole, Permission, DocumentAccessControl, AuditLog, permission_eq,
}
use enterprise_document_inte.Session.{Session, ok, err, transaction}
use enterprise_document_inte.Audit.{write_event}
use enterprise_document_inte.Authz.{
  is_privileged, is_visibility, user_group_ids, principal_matches, grant_matches,
  accessible_document_ids, get_document, may_access, can_access_document, assert_can,
}
use enterprise_document_inte.Authz.Agreement.{allows, can_access-allows}
use enterprise_document_inte.Documents.Refusal.{IsDenial, delete_document_denied}
use enterprise_document_inte.Documents.{
  load_document, manageable_document, revoke_document_acl, delete_document,
}
use enterprise_document_inte.Documents.Grants.{revoke_document_acl_narrows}
use enterprise_document_inte.Router.{Node, Profile, resolve, cloud_model, settings_or_default}
use enterprise_document_inte.Router.FailClosed.{MustStayPrivate, resolve_fails_closed}
use enterprise_document_inte.Groups.{delete_group, is_member_of, load_tenant_group}
use enterprise_document_inte.Groups.Narrowing.{delete_group_narrows}
use enterprise_document_inte.Fixtures.{db, session, settings, owner, member}

can_access-allows_example :
    can_access_document db 1 11 UserRole.member 21 Permission.view
    ≡ allows (accessible_document_ids db 1 11 UserRole.member Permission.view) 21
unfolding get_document
can_access-allows_example =
    can_access-allows db 1 11 UserRole.member Permission.view 21 (refl, (refl, tt)) refl refl

delete_document_denied_example :
    (can_access_document db 1 11 UserRole.member 21 Permission.view ≡ true)
    × (can_access_document db 1 11 UserRole.member 21 Permission.delete ≡ false)
    × ((log : AuditLog) × IsDenial member 21 log
        × ((delete_document member 21 session).1
            ≡ record session { db = record db { audit_logs = log ∷ [] } }))
    × ((transaction (delete_document member 21) session).1 ≡ db)
unfolding delete_document load_document assert_can can_access_document may_access is_privileged
    get_document grant_matches principal_matches permission_eq user_group_ids is_visibility
    write_event
delete_document_denied_example = delete_document_denied member 21 session refl

revoke_document_acl_narrows_example :
    let s' = (revoke_document_acl owner 21 40 session).1 in
    (any (λ (a : DocumentAccessControl). a.id == 40) s'.access_controls ≡ false)
    × ((t user_id document_id : ℕ) (role : UserRole) (p : Permission)
        → can_access_document s'.db t user_id role document_id p ≡ true
        → can_access_document db t user_id role document_id p ≡ true)
unfolding revoke_document_acl load_document manageable_document assert_can write_event
    can_access_document may_access is_privileged get_document
revoke_document_acl_narrows_example = revoke_document_acl_narrows owner 21 40 session refl

abbrev Private : Type 0
Private = MustStayPrivate "air_gapped" (settings_or_default none) none

resolve_fails_closed_example :
    (Private
      × (resolve ℕ settings
            (record { cloud_client = 7; self_hosted_client = none })
            Node.planner
            none
            none
            (some "air_gapped")
          ≡ err Error.llm_routing))
    ⊎ ((¬ Private)
        × (resolve ℕ settings
              (record { cloud_client = 7; self_hosted_client = none })
              Node.planner
              none
              none
              (some "air_gapped")
            ≡ ok (record { client = 7; model = "small"; profile = Profile.cloud })))
unfolding cloud_model
resolve_fails_closed_example =
    resolve_fails_closed settings (record { cloud_client = 7; self_hosted_client = none })
      Node.planner none none (some "air_gapped")

-- The member is in a group that may see the managers' document.
abbrev grouped_session : Session
grouped_session = record session {
  db = record db {
    groups =
        (record {
          id = 90;
          tenant_id = 1;
          name = codes "Deal desk";
          group_type = GroupType.team;
          description = none;
        })
        ∷ [];
    memberships = (record { tenant_id = 1; group_id = 90; user_id = 11 }) ∷ [];
  };
}

delete_group_narrows_example :
    (any (is_member_of 90) (delete_group owner 90 grouped_session).1.memberships ≡ false)
    × ((t user_id document_id : ℕ) (role : UserRole) (p : Permission)
        → can_access_document
            (delete_group owner 90 grouped_session).1.db
            t
            user_id
            role
            document_id
            p
          ≡ true
        → can_access_document grouped_session.db t user_id role document_id p ≡ true)
unfolding delete_group load_tenant_group write_event is_privileged
delete_group_narrows_example = delete_group_narrows owner 90 grouped_session refl
