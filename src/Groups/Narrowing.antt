-- ===== src/Groups/Narrowing.antt =====
-- Who leaves a group loses what it gave, and nobody gains.
use enterprise_document_inte.Base.{
  ℕ, ◌≡◌, refl, ap, ◌∙◌, inl, inr, Bool, true, false, not, ◌&&◌, List, [], ◌∷◌, map, arith, filter,
  find?, find?-holds, ==_iff, any, contains, ◌==◌, Option-cases,
}
use enterprise_document_inte.Models.{
  Db, UserRole, Permission, PrincipalType, Document, DocumentAccessControl, Group, GroupMembership,
}
use enterprise_document_inte.Session.{Session, ok}
use enterprise_document_inte.Audit.{write_event}
use enterprise_document_inte.Authz.{
  get_document, grant_matches, principal_matches, user_group_ids, may_access, can_access_document,
}
use enterprise_document_inte.Documents.{CurrentUser}
use enterprise_document_inte.Groups.{is_member_of, delete_group, load_tenant_group}

-- What a list of rows with fewer rows holds.
group_ids_le :
    (t user_id id : ℕ) (q : GroupMembership → Bool) (ms : List GroupMembership)
    → contains id (
        map
          (λ (m : GroupMembership). m.group_id)
          (filter (λ m. m.tenant_id == t && m.user_id == user_id) (filter q ms)))
      ≡ true
    → contains id (
        map
          (λ (m : GroupMembership). m.group_id)
          (filter (λ m. m.tenant_id == t && m.user_id == user_id) ms))
      ≡ true
group_ids_le t user_id id q [] h = h
group_ids_le t user_id id q (m ∷ ms) h = ground (arith, group_ids_le t user_id id q ms)

principal_le :
    (type : PrincipalType) (id user_id : ℕ) (some_ids ids : List ℕ)
    → ((id : ℕ) → contains id some_ids ≡ true → contains id ids ≡ true)
    → principal_matches type id user_id some_ids ≡ true
    → principal_matches type id user_id ids ≡ true
unfolding principal_matches
principal_le PrincipalType.user id user_id some_ids ids le h = h
principal_le PrincipalType.group id user_id some_ids ids le h = le id h

any_grant_le :
    (t document_id user_id : ℕ) (some_ids ids : List ℕ) (p : Permission)
    (acls : List DocumentAccessControl)
    → ((id : ℕ) → contains id some_ids ≡ true → contains id ids ≡ true)
    → any
        (λ (a : DocumentAccessControl).
          (a.tenant_id == t && a.document_id == document_id) && grant_matches a user_id some_ids p)
        acls
      ≡ true
    → any
        (λ (a : DocumentAccessControl).
          (a.tenant_id == t && a.document_id == document_id) && grant_matches a user_id ids p)
        acls
      ≡ true
unfolding grant_matches
any_grant_le t document_id user_id some_ids ids p [] le h = h
any_grant_le t document_id user_id some_ids ids p (a ∷ acls) le h = ground (
  arith,
  principal_le a.principal_type a.principal_id user_id some_ids ids le,
  any_grant_le t document_id user_id some_ids ids p acls le,
)

may_access_le :
    (db db' : Db) (q : GroupMembership → Bool)
    → db'.access_controls ≡ db.access_controls
    → db'.memberships ≡ filter q db.memberships
    → (t user_id : ℕ) (p : Permission) (d : Document) → may_access db' t user_id p d ≡ true
    → may_access db t user_id p d ≡ true
unfolding may_access user_group_ids
may_access_le db db' q same_rows fewer t user_id p d h =
    let mine = λ (m : GroupMembership). m.tenant_id == t && m.user_id == user_id in
    let group_of = λ (m : GroupMembership). m.group_id in
    let h' = rw (same_rows, fewer) at h in
    ground (
      arith,
      h',
      any_grant_le t d.id user_id (map group_of (filter mine (filter q db.memberships)))
          (map group_of (filter mine db.memberships)) p db.access_controls
          (λ id. group_ids_le t user_id id q db.memberships),
    )

-- Fewer memberships never give more access.
access_by_members :
    (db db' : Db) (q : GroupMembership → Bool)
    → db'.documents ≡ db.documents
    → db'.access_controls ≡ db.access_controls
    → db'.memberships ≡ filter q db.memberships
    → (t user_id k : ℕ) (role : UserRole) (p : Permission)
    → can_access_document db' t user_id role k p ≡ true
    → can_access_document db t user_id role k p ≡ true
unfolding can_access_document
access_by_members db db' q same_docs same_rows fewer t user_id k role p h =
    let h' = rw same_docs at h in
    elim (Option-cases (get_document db k)) [
      | inl missing ↦ ground (arith, h')
      | inr (d, found) ↦ ground (arith, h', may_access_le db db' q same_rows fewer t user_id p d)
    ]

none_left : {A : Type 0} (q : A → Bool) (xs : List A) → any q (filter (λ x. not (q x)) xs) ≡ false
none_left q [] = refl
none_left q (x ∷ xs) = ground (arith, none_left q xs)

-- What both removals do to the tables that decide on access.
abbrev Shrunk : (GroupMembership → Bool) → Session → Session → Type 0
Shrunk gone s s' =
    (s'.documents ≡ s.documents)
    × (s'.access_controls ≡ s.access_controls)
    × (s'.memberships ≡ filter (λ m. not (gone m)) s.memberships)

delete_group_state :
    (current : CurrentUser) (group_id : ℕ) (s : Session)
    → (delete_group current group_id s).0 ≡ ok tt
    → Shrunk (is_member_of group_id) s (delete_group current group_id s).1
unfolding delete_group load_tenant_group write_event
delete_group_state current group_id s h =
    elim (Option-cases (find? (λ (g : Group). g.id == group_id) s.groups)) [
      | inl missing ↦ absurd (ground arith)
      | inr (g, found) ↦
          let same : g.id ≡ group_id =
            (==_iff g.id group_id).0
              (find?-holds (λ (g : Group). g.id == group_id) s.groups g found) in
          (ground arith, ground arith, ground (arith, same))
    ]

-- The end of a membership, or of a group, takes access away and gives none: after a deletion that
-- succeeds no membership of the group is left, and whoever may act on a document, in any tenant and
-- role, might have done so before.
pub delete_group_narrows :
    (current : CurrentUser) (group_id : ℕ) (s : Session)
    → (delete_group current group_id s).0 ≡ ok tt
    → let s' = (delete_group current group_id s).1 in
      (any (is_member_of group_id) s'.memberships ≡ false)
      × ((t user_id document_id : ℕ) (role : UserRole) (p : Permission)
          → can_access_document s'.db t user_id role document_id p ≡ true
          → can_access_document s.db t user_id role document_id p ≡ true)
delete_group_narrows current group_id s h =
    let (documents, rows, members) = delete_group_state current group_id s h in
    (
      ap (any (is_member_of group_id)) members ∙ none_left (is_member_of group_id) s.memberships,
      λ t user_id document_id role p allowed.
          access_by_members s.db (delete_group current group_id s).1.db
            (λ m. not (is_member_of group_id m)) documents rows members t user_id document_id role p
            allowed,
    )
