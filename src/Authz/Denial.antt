-- ===== src/Authz/Denial.antt =====
-- Why a member is let through.
use enterprise_document_inte.Base.{
  ℕ, ◌≡◌, ◌⊎◌, true, ◌&&◌, Option, some, Text, arith, any, ◌==◌, Option-cases, inl, inr,
}
use enterprise_document_inte.Models.{
  UserRole, Permission, Document, DocumentAccessControl, Db, is_rep_visible,
}
use enterprise_document_inte.Session.{Session, ok}
use enterprise_document_inte.Authz.{
  is_visibility, grant_matches, is_live, user_group_ids, get_document, can_access_document,
  may_access, assert_can, is_privileged,
}

-- A member is let through only to a live document of the tenant, and only as its owner, by
-- visibility (to view or to query), or by a grant of the tenant on that document.
pub can_access_reasons :
    (db : Db) (t user_id document_id : ℕ) (p : Permission)
    → can_access_document db t user_id UserRole.member document_id p ≡ true
    → (d : Document) × (get_document db document_id ≡ some d)
      × (is_live t d ≡ true)
      × ((d.owner_user_id ≡ user_id)
          ⊎ ((is_visibility p ≡ true) × (is_rep_visible d.visibility ≡ true))
          ⊎ (any
                (λ (a : DocumentAccessControl).
                  (a.tenant_id == t && a.document_id == d.id)
                  && grant_matches a user_id (user_group_ids db t user_id) p)
                db.access_controls
              ≡ true))
unfolding can_access_document may_access is_privileged
can_access_reasons db t user_id k p h = elim (Option-cases (get_document db k)) [
  | inl missing ↦ ground arith
  | inr (d, found) ↦ (d, found, ground arith, ground arith)
]

-- An allowed call changes nothing.
pub assert_can_allowed :
    (t user_id : ℕ) (role : UserRole) (document_id : ℕ) (p : Permission) (ip : Option Text)
    (s : Session)
    → can_access_document s.db t user_id role document_id p ≡ true
    → assert_can t user_id role document_id p ip s ≡ (ok tt, s)
unfolding assert_can
assert_can_allowed t user_id role k p ip s h = rw h
