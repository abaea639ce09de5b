-- ===== src/Audit.antt =====
-- backend/app/services/audit_service.py: audit rows are only ever appended.
use enterprise_document_inte.Base.{Option, none, some, [], ◌∷◌, ◌++◌, Text}
use enterprise_document_inte.Models.{AuditLog}
use enterprise_document_inte.Session.{Exec, ok}

-- `trace_id if trace_id is not None else get_trace_id()`
abbrev or_current : Option Text → Option Text → Option Text
or_current (some t) current = some t
or_current none current = current

unfoldable pub build : Option Text → AuditLog → AuditLog
build current e = record e { trace_id = or_current e.trace_id current }

-- Within the caller's transaction.
unfoldable pub write_event : AuditLog → Exec (Unit {0})
unfolding build
write_event e s =
    (ok tt, record s { db = record s.db { audit_logs = s.audit_logs ++ build s.trace_id e ∷ [] } })

-- In a transaction of its own.
unfoldable pub record_event_committed : AuditLog → Exec (Unit {0})
unfolding build
record_event_committed e s =
    (ok tt, record s { committed = s.committed ++ build s.trace_id e ∷ [] })
