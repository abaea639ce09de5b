-- ===== src/Documents/Deletion.antt =====
-- What the deletion of a document answers, and what it leaves.
use mathlib.Core.Path.{subst}
use enterprise_document_inte.Base.{
  ℕ, ◌≡◌, refl, ap, ◌∙◌, inl, inr, Bool, true, false, not, Option, none, some, List, [], ◌∷◌, arith,
  any, filter, find?, update, ◌==◌, Option-cases, Bool-cases,
}
use enterprise_document_inte.Errors.{Error}
use enterprise_document_inte.Models.{UserRole, Permission, Document, DocumentChunk, Db}
use enterprise_document_inte.Session.{Session, Result, err, ok}
use enterprise_document_inte.Audit.{write_event}
use enterprise_document_inte.Authz.{get_document, can_access_document, assert_can, is_privileged}
use enterprise_document_inte.Authz.Agreement.{id-get_document}
use enterprise_document_inte.Documents.{
  CurrentUser, live_document, load_document, mark_deleted, is_chunk_of, purge, delete_document,
}

-- The status that the caller is owed, from the document and the two permissions.
abbrev pub verdict : Option Document → Bool → Bool → Result (Unit {0})
verdict none may_view may_act = err Error.not_found
verdict (some d) false may_act = err Error.not_found
verdict (some d) true false = err Error.authorization
verdict (some d) true true = ok tt

abbrev pub forget : {A : Type 0} → Result A → Result (Unit {0})
forget (ok a) = ok tt
forget (err e) = err e

module _ (current : CurrentUser) (k : ℕ) (s : Session) where
  abbrev may : Permission → Bool
  may p = can_access_document s.db current.tenant_id current.id current.role k p

  pub id-live_document : {d : Document} → live_document s.db current.tenant_id k ≡ some d → d.id ≡ k
  id-live_document {d} h = elim (Option-cases (get_document s.db k)) [
    | inl missing ↦ ground arith
    | inr (e, found) ↦ ground (arith, id-get_document s.db k e found)
  ]

  -- The answer on every branch: 404 where the document is absent, foreign, deleted or not visible to
  -- the caller, 403 where it is visible and may not be deleted, and success otherwise.
  pub delete_document-verdict :
      (delete_document current k s).0
      ≡ verdict
          (live_document s.db current.tenant_id k)
          (may Permission.view)
          (may Permission.delete)
  unfolding delete_document load_document assert_can write_event
  delete_document-verdict = elim (Option-cases (live_document s.db current.tenant_id k)) [
    | inl missing ↦ ground arith
    | inr (d, found) ↦ ground (arith, id-live_document found)
  ]

  pub delete_document_state :
      (delete_document current k s).0 ≡ ok tt
      → ((delete_document current k s).1.documents
          ≡ (purge s.now current.tenant_id k s.db).documents)
        × ((delete_document current k s).1.chunks ≡ (purge s.now current.tenant_id k s.db).chunks)
  unfolding delete_document load_document assert_can write_event
  delete_document_state h = elim (Option-cases (live_document s.db current.tenant_id k)) [
    | inl missing ↦ ground arith
    | inr (d, found) ↦ ground (arith, id-live_document found)
  ]

any-filter_rest :
    (p : DocumentChunk → Bool) (cs : List DocumentChunk)
    → any p (filter (λ c. not (p c)) cs) ≡ false
any-filter_rest p [] = refl
any-filter_rest p (c ∷ cs) = ground (arith, any-filter_rest p cs)

find?-mark_deleted :
    (now k : ℕ) (ds : List Document) {d : Document}
    → find?
        (λ (e : Document). e.id == k)
        (update (λ (e : Document). e.id == k) (mark_deleted now) ds)
      ≡ some d
    → d.deleted_at ≡ some now
find?-mark_deleted now k [] h = ground arith
find?-mark_deleted now k (e ∷ ds) {d} h = elim (Bool-cases (e.id == k)) [
  | inl same ↦ ground arith
  | inr other ↦ find?-mark_deleted now k ds {d = d} (ground arith)
]

-- In tables where the document is marked as deleted, a member has no permission on it.
no_access_after_purge :
    (db : Db) (now t' t user_id k : ℕ) (p : Permission) (old : Db)
    → db.documents ≡ (purge now t' k old).documents
    → can_access_document db t user_id UserRole.member k p ≡ false
unfolding can_access_document is_privileged purge
no_access_after_purge db now t' t user_id k p old same = elim (Option-cases (get_document db k)) [
  | inl missing ↦ rw missing
  | inr (d, found) ↦
      let gone : d.deleted_at ≡ some now =
        find?-mark_deleted now k old.documents
          (subst (λ ds. find? (λ (e : Document). e.id == k) ds ≡ some d) same found) in
      rw (found, gone) (ground arith)
]

-- After a deletion that succeeds no chunk of the document is left in the tenant, and no member has
-- any permission on the document.
pub delete_document_hides :
    (current : CurrentUser) (k : ℕ) (s : Session)
    → (delete_document current k s).0 ≡ ok tt
    → let s' = (delete_document current k s).1 in
      (any (is_chunk_of current.tenant_id k) s'.chunks ≡ false)
      × ((t user_id : ℕ) (p : Permission)
          → can_access_document s'.db t user_id UserRole.member k p ≡ false)
unfolding purge
delete_document_hides current k s h =
    let (documents, chunks) = delete_document_state current k s h in
    let own = is_chunk_of current.tenant_id k in
    (
      ap (any own) chunks ∙ any-filter_rest own s.chunks,
      λ t user_id p.
          no_access_after_purge (delete_document current k s).1.db s.now current.tenant_id t user_id
            k p s.db documents,
    )
