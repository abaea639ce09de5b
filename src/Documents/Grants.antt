-- ===== src/Documents/Grants.antt =====
-- Granting and revoking a permission on a document.
use enterprise_document_inte.Base.{
  ℕ, ◌≡◌, refl, ap, ◌∙◌, inl, inr, Bool, true, false, not, ◌&&◌, ◌||◌, Option, none, some, List, [],
  ◌∷◌, ◌++◌, arith, any, any-append, filter, ◌==◌, Option-cases,
}
use enterprise_document_inte.Errors.{Error}
use enterprise_document_inte.Models.{
  UserRole, PrincipalType, Permission, permission_eq, Document, DocumentAccessControl, Db,
}
use enterprise_document_inte.Session.{Session, Result, err, ok}
use enterprise_document_inte.Audit.{write_event}
use enterprise_document_inte.Authz.{
  get_document, can_access_document, may_access, assert_can, is_privileged, grant_matches,
  user_group_ids,
}
use enterprise_document_inte.Documents.{
  CurrentUser, live_document, principal_in_tenant, grant_document_acl, revoke_document_acl,
}
use enterprise_document_inte.Documents.Deletion.{forget, id-live_document}

-- The status that a grant is owed: as for a deletion, and 404 for a principal of another tenant.
abbrev pub grant_verdict : Option Document → Bool → Bool → Bool → Result (Unit {0})
grant_verdict none may_view may_manage known = err Error.not_found
grant_verdict (some d) false may_manage known = err Error.not_found
grant_verdict (some d) true false known = err Error.authorization
grant_verdict (some d) true true false = err Error.not_found
grant_verdict (some d) true true true = ok tt

module _ (current : CurrentUser) (k : ℕ) (type : PrincipalType) (principal : ℕ)
    (ps : List Permission) (s : Session) where
  abbrev may : Permission → Bool
  may p = can_access_document s.db current.tenant_id current.id current.role k p

  -- The answer on every branch.
  pub grant_document_acl_verdict :
      forget (grant_document_acl current k type principal ps s).0
      ≡ grant_verdict
          (live_document s.db current.tenant_id k)
          (may Permission.view)
          (may Permission.manage)
          (principal_in_tenant s.db current.tenant_id type principal)
  unfolding grant_document_acl assert_can write_event
  grant_document_acl_verdict = elim (Option-cases (live_document s.db current.tenant_id k)) [
    | inl missing ↦ ground arith
    | inr (d, found) ↦ ground (arith, id-live_document current k s found)
  ]

  -- What a successful grant leaves in the tables that decide on access.
  grant_document_acl_state :
      forget (grant_document_acl current k type principal ps s).0 ≡ ok tt
      → (d : Document) × (live_document s.db current.tenant_id k ≡ some d)
        × ((grant_document_acl current k type principal ps s).1.documents ≡ s.documents)
        × ((grant_document_acl current k type principal ps s).1.memberships ≡ s.memberships)
        × ((grant_document_acl current k type principal ps s).1.access_controls
            ≡ s.access_controls
              ++ record {
                id = s.next_id;
                tenant_id = current.tenant_id;
                document_id = d.id;
                principal_type = type;
                principal_id = principal;
                permissions = ps;
                granted_by_user_id = current.id;
              }
                ∷ [])
  unfolding grant_document_acl assert_can write_event
  grant_document_acl_state h = elim (Option-cases (live_document s.db current.tenant_id k)) [
    | inl missing ↦ absurd (ground arith)
    | inr (d, found) ↦ (d, found, ground arith, ground arith, ground arith)
  ]

same_live :
    (db db' : Db) (t k : ℕ)
    → db'.documents ≡ db.documents
    → live_document db' t k ≡ live_document db t k
unfolding get_document
same_live db db' t k e = rw e

-- A member with a row of their own that names the permission may act on the live document.
access_by_row :
    (db : Db) (t user_id k : ℕ) (p : Permission) (acls : List DocumentAccessControl)
    (row : DocumentAccessControl) {d : Document}
    → live_document db t k ≡ some d
    → db.access_controls ≡ acls ++ row ∷ []
    → (row.tenant_id == t && row.document_id == d.id) ≡ true
    → grant_matches row user_id (user_group_ids db t user_id) p ≡ true
    → can_access_document db t user_id UserRole.member k p ≡ true
unfolding can_access_document may_access is_privileged
access_by_row db t user_id k p acls row {d} live rows own matches =
    elim (Option-cases (get_document db k)) [
      | inl missing ↦ ground arith
      | inr (e, found) ↦
          let test = λ (a : DocumentAccessControl).
            (a.tenant_id == t && a.document_id == e.id)
            && grant_matches a user_id (user_group_ids db t user_id) p in
          let split : any test db.access_controls ≡ (any test acls || any test (row ∷ [])) =
            ap (any test) rows ∙ any-append test acls (row ∷ []) in
          ground (arith, split)
    ]

-- A successful grant to a user of a permission lets that user act, as a member, on the document.
pub grant_document_acl_grants :
    (current : CurrentUser) (k user_id : ℕ) (p : Permission) (ps : List Permission) (s : Session)
    → forget (grant_document_acl current k PrincipalType.user user_id ps s).0 ≡ ok tt
    → any (λ q. permission_eq q p) ps ≡ true
    → can_access_document
        (grant_document_acl current k PrincipalType.user user_id ps s).1.db
        current.tenant_id
        user_id
        UserRole.member
        k
        p
      ≡ true
unfolding grant_matches
grant_document_acl_grants current k user_id p ps s h named =
    let (d, live, documents, memberships, rows) =
      grant_document_acl_state current k PrincipalType.user user_id ps s h in
    let s' = (grant_document_acl current k PrincipalType.user user_id ps s).1 in
    access_by_row s'.db current.tenant_id user_id k p s.access_controls _ {d = d}
      (same_live s.db s'.db current.tenant_id k documents ∙ live) rows (ground arith)
      (ground (arith, named))

-- Fewer grants never give more access.
any-filter_le :
    (q p : DocumentAccessControl → Bool) (acls : List DocumentAccessControl)
    → any q (filter p acls) ≡ true
    → any q acls ≡ true
any-filter_le q p [] h = h
any-filter_le q p (a ∷ acls) h = ground (arith, any-filter_le q p acls)

any_id-filter :
    (id : ℕ) (acls : List DocumentAccessControl)
    → any
        (λ (a : DocumentAccessControl). a.id == id)
        (filter (λ (a : DocumentAccessControl). not (a.id == id)) acls)
      ≡ false
any_id-filter id [] = refl
any_id-filter id (a ∷ acls) = ground (arith, any_id-filter id acls)

revoke_document_acl_state :
    (current : CurrentUser) (k acl_id : ℕ) (s : Session)
    → (revoke_document_acl current k acl_id s).0 ≡ ok tt
    → ((revoke_document_acl current k acl_id s).1.documents ≡ s.documents)
      × ((revoke_document_acl current k acl_id s).1.memberships ≡ s.memberships)
      × ((revoke_document_acl current k acl_id s).1.access_controls
          ≡ filter (λ (a : DocumentAccessControl). not (a.id == acl_id)) s.access_controls)
unfolding revoke_document_acl assert_can write_event
revoke_document_acl_state current k acl_id s h =
    elim (Option-cases (live_document s.db current.tenant_id k)) [
      | inl missing ↦ absurd (ground arith)
      | inr (d, found) ↦ (ground arith, ground arith, ground arith)
    ]

may_access_le :
    (db db' : Db) (t user_id : ℕ) (p : Permission) (q : DocumentAccessControl → Bool) (d : Document)
    → db'.memberships ≡ db.memberships
    → db'.access_controls ≡ filter q db.access_controls
    → may_access db' t user_id p d ≡ true
    → may_access db t user_id p d ≡ true
unfolding may_access user_group_ids
may_access_le db db' t user_id p q d same_members fewer h =
    let test = λ (a : DocumentAccessControl).
      (a.tenant_id == t && a.document_id == d.id)
      && grant_matches a user_id (user_group_ids db t user_id) p in
    let h' = rw (same_members, fewer) at h in
    ground (arith, any-filter_le test q db.access_controls, h')

access_by_subset :
    (db db' : Db) (t user_id k : ℕ) (role : UserRole) (p : Permission)
    (q : DocumentAccessControl → Bool)
    → db'.documents ≡ db.documents
    → db'.memberships ≡ db.memberships
    → db'.access_controls ≡ filter q db.access_controls
    → can_access_document db' t user_id role k p ≡ true
    → can_access_document db t user_id role k p ≡ true
unfolding can_access_document
access_by_subset db db' t user_id k role p q same_docs same_members fewer h =
    let h' = rw same_docs at h in
    elim (Option-cases (get_document db k)) [
      | inl missing ↦ ground (arith, h')
      | inr (d, found) ↦ ground (arith, h', may_access_le db db' t user_id p q d same_members fewer)
    ]

-- A revocation that succeeds leaves no row of that id, and gives nobody an access that they did not
-- have before.
pub revoke_document_acl_narrows :
    (current : CurrentUser) (k acl_id : ℕ) (s : Session)
    → (revoke_document_acl current k acl_id s).0 ≡ ok tt
    → let s' = (revoke_document_acl current k acl_id s).1 in
      (any (λ (a : DocumentAccessControl). a.id == acl_id) s'.access_controls ≡ false)
      × ((t user_id document_id : ℕ) (role : UserRole) (p : Permission)
          → can_access_document s'.db t user_id role document_id p ≡ true
          → can_access_document s.db t user_id role document_id p ≡ true)
revoke_document_acl_narrows current k acl_id s h =
    let (documents, memberships, rows) = revoke_document_acl_state current k acl_id s h in
    (
      ap (any (λ (a : DocumentAccessControl). a.id == acl_id)) rows
          ∙ any_id-filter acl_id s.access_controls,
      λ t user_id document_id role p allowed.
          access_by_subset s.db (revoke_document_acl current k acl_id s).1.db t user_id document_id
            role p (λ (a : DocumentAccessControl). not (a.id == acl_id)) documents memberships rows
            allowed,
    )
