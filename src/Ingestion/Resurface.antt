-- ===== src/Ingestion/Resurface.antt =====
-- What the queued ingestion of a document does once the document has been deleted.
use enterprise_document_inte.Session.{Session}
