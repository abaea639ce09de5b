-- ===== src/Documents/Refusal.antt =====
-- What a refused deletion leaves behind.
use enterprise_document_inte.Base.{
  ◌≡◌, ℕ, refl, inl, inr, true, false, some, [], ◌∷◌, ◌++◌, arith, Option-cases, Bool-cases,
}
use enterprise_document_inte.Errors.{Error}
use enterprise_document_inte.Models.{Permission, AuditLog, AuditAction, Json}
use enterprise_document_inte.Session.{Session, err, transaction}
use enterprise_document_inte.Audit.{write_event, build}
use enterprise_document_inte.Authz.{can_access_document, assert_can, denial}
use enterprise_document_inte.Documents.{CurrentUser, live_document, load_document, delete_document}
use enterprise_document_inte.Documents.Deletion.{id-live_document}

-- The audit row of a refused deletion.
pub record IsDenial (current : CurrentUser) (document_id : ℕ) (log : AuditLog) : Type 0 where
  pub tenant : log.tenant_id ≡ current.tenant_id
  pub action : log.action ≡ AuditAction.access_denied
  pub actor : log.actor_user_id ≡ some current.id
  pub type : log.resource_type ≡ some "document"
  pub document : log.resource_id ≡ some document_id
  pub metadata : log.event_metadata ≡ ("permission", Json.word "delete") ∷ []
  pub outcome : log.outcome ≡ some "deny"

denial-IsDenial :
    (current : CurrentUser) (k : ℕ) (s : Session)
    → IsDenial current k
        (build s.trace_id (denial current.tenant_id current.id k Permission.delete current.ip))
unfolding build
denial-IsDenial current k s = record {
  tenant = refl;
  action = refl;
  actor = refl;
  type = refl;
  document = refl;
  metadata = refl;
  outcome = refl;
}

-- A deletion that is answered with 403 was asked by a caller who may view the document and may not
-- delete it. The session then holds one more audit row, of the caller, the document and the permission,
-- and is otherwise as it was; but the request's transaction, which rolls back, commits no such row: the
-- tables are as they were before the request, with only the audit rows that had been committed apart.
pub delete_document_denied :
    (current : CurrentUser) (k : ℕ) (s : Session)
    → (delete_document current k s).0 ≡ err Error.authorization
    → (can_access_document s.db current.tenant_id current.id current.role k Permission.view ≡ true)
      × (can_access_document s.db current.tenant_id current.id current.role k Permission.delete
          ≡ false)
      × ((log : AuditLog) × IsDenial current k log
          × ((delete_document current k s).1
              ≡ record s { db = record s.db { audit_logs = s.audit_logs ++ log ∷ [] } }))
      × ((transaction (delete_document current k) s).1
          ≡ record s.db { audit_logs = s.audit_logs ++ s.committed })
unfolding delete_document load_document assert_can write_event transaction
delete_document_denied current k s h =
    elim (Option-cases (live_document s.db current.tenant_id k)) [
      | inl missing ↦ absurd (ground arith)
      | inr (d, found) ↦
          let same = id-live_document current k s found in
          elim (Bool-cases (
            can_access_document s.db current.tenant_id current.id current.role k Permission.view)) [
              | inr hidden ↦ absurd (ground (arith, same))
              | inl visible ↦
                  elim (Bool-cases (
                    can_access_document s.db current.tenant_id current.id current.role k
                      Permission.delete)) [
                        | inl may ↦ absurd (ground (arith, same))
                        | inr refused ↦ (
                          visible,
                          refused,
                          (
                            build s.trace_id (
                                denial current.tenant_id current.id k Permission.delete current.ip),
                            denial-IsDenial current k s,
                            ground (arith, same),
                          ),
                          ground (arith, same),
                        )
                      ]
            ]
    ]
