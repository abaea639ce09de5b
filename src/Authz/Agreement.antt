-- ===== src/Authz/Agreement.antt =====
-- The two ways in which authz.py decides, one document at a time and as a set, agree.
use mathlib.Core.Path.{subst}
use enterprise_document_inte.Base.{
  ==_iff, ℕ, ◌≡◌, refl, ◌∙◌, sym, inl, inr, Bool, true, false, ◌&&◌, ◌||◌, Option, none, some, List,
  [], ◌∷◌, arith, any, any-append, filter, find?, find?-holds, contains, ◌==◌, Bool-cases,
}
use enterprise_document_inte.Models.{
  UserRole, Permission, Document, DocumentAccessControl, Db, is_rep_visible,
}
use enterprise_document_inte.Authz.{
  is_privileged, is_visibility, grant_matches, is_live, document_ids, add_granted, user_group_ids,
  accessible_document_ids, ungranted_ids, get_document, may_access, can_access_document,
}

-- A primary key: no id stands in two rows.
abbrev pub HasUniqueIds : List Document → Type 0
HasUniqueIds [] = Unit
HasUniqueIds (d ∷ ds) = (any (λ (e : Document). e.id == d.id) ds ≡ false) × HasUniqueIds ds

-- `document_id in allowed`, where `None` is no restriction.
abbrev pub allows : Option (List ℕ) → ℕ → Bool
allows none document_id = true
allows (some ids) document_id = contains document_id ids

-- A query by a test of the row finds an id just when the row of that id passes the test.
contains-filter_none :
    (q : Document → Bool) (k : ℕ) (ds : List Document)
    → any (λ (e : Document). e.id == k) ds ≡ false
    → contains k (document_ids (filter q ds)) ≡ false
contains-filter_none q k [] h = refl
contains-filter_none q k (e ∷ ds) h = ground (arith, contains-filter_none q k ds)

contains-filter :
    (q : Document → Bool) (k : ℕ) (ds : List Document) (d : Document)
    → HasUniqueIds ds
    → find? (λ (e : Document). e.id == k) ds ≡ some d
    → contains k (document_ids (filter q ds)) ≡ q d
contains-filter q k [] d u h = ground arith
contains-filter q k (e ∷ ds) d u h = elim (Bool-cases (e.id == k)) [
  | inl same ↦
      let id_eq : e.id ≡ k = (==_iff e.id k).0 same in
      let fresh = subst (λ n. any (λ (x : Document). x.id == n) ds ≡ false) id_eq u.0 in
      ground (arith, contains-filter_none q k ds fresh)
  | inr other ↦ ground (arith, contains-filter q k ds d u.1)
]

-- The loop adds the documents of the grants that match.
contains-add_granted :
    (acls : List DocumentAccessControl) (user_id : ℕ) (group_ids : List ℕ) (p : Permission)
    (allowed : List ℕ) (k : ℕ)
    → contains k (add_granted acls user_id group_ids p allowed) ≡ (
        contains k allowed
        || any
            (λ (a : DocumentAccessControl).
              a.document_id == k && grant_matches a user_id group_ids p)
            acls)
unfolding add_granted
contains-add_granted [] user_id group_ids p allowed k = ground arith
contains-add_granted (a ∷ acls) user_id group_ids p allowed k =
    elim (Bool-cases (grant_matches a user_id group_ids p)) [
      | inl yes' ↦
          rw yes' (
            contains-add_granted acls user_id group_ids p (a.document_id ∷ allowed) k
            ∙ ground arith)
      | inr no' ↦ rw no' (contains-add_granted acls user_id group_ids p allowed k ∙ ground arith)
    ]

any-grants :
    (t : ℕ) (d : Document) (user_id : ℕ) (group_ids : List ℕ) (p : Permission)
    (acls : List DocumentAccessControl)
    → any
        (λ (a : DocumentAccessControl).
          a.document_id == d.id && grant_matches a user_id group_ids p)
        (filter (λ (a : DocumentAccessControl). a.tenant_id == t) acls)
      ≡ any
          (λ (a : DocumentAccessControl).
            (a.tenant_id == t && a.document_id == d.id) && grant_matches a user_id group_ids p)
          acls
any-grants t d user_id group_ids p [] = refl
any-grants t d user_id group_ids p (a ∷ acls) =
    ground (arith, any-grants t d user_id group_ids p acls)

pub id-get_document : (db : Db) (k : ℕ) (d : Document) → get_document db k ≡ some d → k ≡ d.id
unfolding get_document
id-get_document db k d g =
    sym ((==_iff d.id k).0 (find?-holds (λ (e : Document). e.id == k) db.documents d g))

module _ (db : Db) (t user_id : ℕ) (p : Permission) (d : Document) where
  contains-ungranted_ids :
      HasUniqueIds db.documents
      → get_document db d.id ≡ some d
      → is_live t d ≡ true
      → contains d.id (ungranted_ids db t user_id p)
        ≡ (d.owner_user_id == user_id || (is_visibility p && is_rep_visible d.visibility))
  unfolding get_document ungranted_ids
  contains-ungranted_ids u g live =
      let owned = λ (e : Document). is_live t e && e.owner_user_id == user_id in
      let shown = λ (e : Document). is_live t e && is_rep_visible e.visibility in
      let by_owner = contains-filter owned d.id db.documents d u g in
      let by_visibility = contains-filter shown d.id db.documents d u g in
      let both =
        any-append (λ x. x == d.id) (document_ids (filter owned db.documents))
          (document_ids (filter shown db.documents)) in
      elim (Bool-cases (is_visibility p)) [
        | inl v ↦ rw v (both ∙ rw (by_owner, by_visibility, live))
        | inr v ↦ rw v (by_owner ∙ rw live (ground arith))
      ]

  agree_at_own_id :
      (role : UserRole)
      → HasUniqueIds db.documents
      → get_document db d.id ≡ some d
      → is_live t d ≡ true
      → can_access_document db t user_id role d.id p
        ≡ allows (accessible_document_ids db t user_id role p) d.id
  unfolding can_access_document may_access accessible_document_ids
  agree_at_own_id role u g live =
      let groups = user_group_ids db t user_id in
      let acls = filter (λ (a : DocumentAccessControl). a.tenant_id == t) db.access_controls in
      let added = contains-add_granted acls user_id groups p (ungranted_ids db t user_id p) d.id in
      elim (Bool-cases (is_privileged role)) [
        | inl privileged ↦ rw privileged
        | inr other ↦
            rw
              (
                other,
                g,
                live,
                added,
                contains-ungranted_ids u g live,
                any-grants t d user_id groups p db.access_controls,
              )
              (ground arith)
      ]

-- Where no two documents have one id, the set of documents that a user may act on holds a live
-- document of the tenant exactly when the test of that one document passes, for every role and
-- permission.
pub can_access-allows :
    (db : Db) (t user_id : ℕ) (role : UserRole) (p : Permission) (document_id : ℕ) {d : Document}
    → HasUniqueIds db.documents
    → get_document db document_id ≡ some d
    → is_live t d ≡ true
    → can_access_document db t user_id role document_id p
      ≡ allows (accessible_document_ids db t user_id role p) document_id
can_access-allows db t user_id role p k {d} u g live =
    let same : k ≡ d.id = id-get_document db k d g in
    subst
      (λ n.
        get_document db n ≡ some d
        → can_access_document db t user_id role n p
          ≡ allows (accessible_document_ids db t user_id role p) n)
      (sym same) (λ g'. agree_at_own_id db t user_id p d role u g' live) g
