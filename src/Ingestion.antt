-- ===== src/Ingestion.antt =====
-- backend/app/services/ingestion.py. The object storage, the embedder and the parsers are parameters.
-- The function works on database sessions of its own: a step here is what it has committed. An
-- exception is its message.
pub mod Extraction
pub mod Ends
pub mod Resurface
use Prim.Native.String.{String}
use enterprise_document_inte.Base.{
  ℕ, ◌+◌, Bool, true, false, Option, none, some, List, [], ◌∷◌, ◌++◌, map, Text, codes, find?,
  update, take, length, ◌==◌,
}
use enterprise_document_inte.Models.{
  Db, Document, DocumentChunk, IngestionStatus, event, AuditAction, AuditLog, Json, number_or_null,
}
use enterprise_document_inte.Session.{Session, Exec, ◌>>◌}
use enterprise_document_inte.Audit.{write_event}
use enterprise_document_inte.Authz.{get_document}
use enterprise_document_inte.Workflow.{Reply, returned, raised}
use enterprise_document_inte.Ingestion.Extraction.{
  Parsers, ExtractedDoc, Chunk, extract_text, split,
}

-- `get_storage().get`, the decryption of a stored token, `embed_texts` and `encrypt_str`.
pub record Services : Type 1 where
  pub parsers : Parsers
  pub get : Text → Reply Text
  pub decrypt : Text → Reply Text
  pub Embedding : Type 0
  pub embed_texts : List Text → Reply (List Embedding)
  pub encrypt_str : Text → Text

-- Raises, and otherwise goes on.
abbrev pub and_then : {A B : Type 0} → Reply A → (A → Reply B) → Reply B
and_then (raised message) k = raised message
and_then (returned a) k = k a

abbrev pub some_chunks : List Chunk → Reply (List Chunk)
some_chunks [] = raised (codes "No chunks produced from document text.")
some_chunks (c ∷ chunks) = returned (c ∷ chunks)

abbrev pub status_of : IngestionStatus → Document → Document
status_of status d = record d { status = status }

abbrev pub completed_doc : Option ℕ → ℕ → Document → Document
completed_doc page_count chunk_count d = record d {
  status = IngestionStatus.completed;
  error_message = none;
  page_count = page_count;
  chunk_count = chunk_count;
}

abbrev pub failed_doc : Text → Document → Document
failed_doc message d = record d {
  status = IngestionStatus.failed;
  error_message = some (take 2000 message);
}

abbrev pub with_document : ℕ → (Document → Document) → Db → Db
with_document id f db = record db {
  documents = update (λ (d : Document). d.id == id) f db.documents;
}

abbrev document_event : Document → Option Text → AuditAction → AuditLog
document_event document trace_id action = record (event document.tenant_id action) {
  actor_user_id = some document.owner_user_id;
  resource_type = some "document";
  resource_id = some document.id;
  trace_id = trace_id;
}

module _ (services : Services) where
  open services use {parsers, get, decrypt, Embedding, embed_texts, encrypt_str}

  -- `zip(chunks, embeddings, strict=True)`: the rows that are added, with ids from a number on.
  unfoldable pub zip_rows : ℕ → Document → List Chunk → List Embedding → Reply (List DocumentChunk)
  zip_rows id document [] [] = returned []
  zip_rows id document [] (e ∷ embeddings) =
      raised (codes "zip() argument 2 is longer than argument 1")
  zip_rows id document (c ∷ chunks) [] =
      raised (codes "zip() argument 2 is shorter than argument 1")
  zip_rows id document (c ∷ chunks) (e ∷ embeddings) =
      and_then (zip_rows (id + 1) document chunks embeddings) (λ rows. returned (
        (record {
          id = id;
          tenant_id = document.tenant_id;
          document_id = document.id;
          chunk_index = c.chunk_index;
          content_encrypted = encrypt_str c.text;
        })
        ∷ rows))

  -- `_run_pipeline`: the page count and the rows, of which the document's chunk count is the number.
  unfoldable pub run_pipeline : ℕ → Document → Reply (Option ℕ × List DocumentChunk)
  run_pipeline next_id document = and_then (get document.storage_key) (λ encrypted.
      and_then (decrypt encrypted) (λ plaintext.
        and_then (extract_text parsers plaintext document.mime_type document.filename) (λ extracted.
          and_then (some_chunks (split parsers extracted.text)) (λ chunks.
            and_then (embed_texts (map (λ (c : Chunk). c.text) chunks)) (λ embeddings.
              and_then (zip_rows next_id document chunks embeddings)
                (λ rows. returned (extracted.page_count, rows)))))))

  abbrev log_to : AuditLog → Session → Session
  log_to log s = (write_event log s).1

  unfoldable pub mark_failed : ℕ → Text → Option Text → Option Document → Session → Session
  mark_failed document_id message trace_id none s = s
  mark_failed document_id message trace_id (some document) s =
      log_to
        (record (document_event document trace_id AuditAction.document_ingestion_failed) {
          event_metadata = ("error", Json.text (take 500 message)) ∷ [];
        })
        (record s { db = with_document document_id (failed_doc message) s.db })

  -- What follows the pipeline: its work is committed, or rolled back.
  abbrev pub finish :
      ℕ → Option Text → Document → Reply (Option ℕ × List DocumentChunk) → Session → Session
  finish document_id trace_id document (raised message) s =
      mark_failed document_id message trace_id (get_document s.db document_id) s
  finish document_id trace_id document (returned (page_count, rows)) s =
      log_to
        (record (document_event document trace_id AuditAction.document_ingested) {
          event_metadata =
              ("chunk_count", Json.num (length rows))
              ∷ ("page_count", number_or_null page_count)
              ∷ [];
        })
        (record s {
          next_id = s.next_id + length rows;
          db = record (with_document document_id (completed_doc page_count (length rows)) s.db) {
            chunks = s.chunks ++ rows;
          };
        })

  abbrev pub process_found : ℕ → Option Text → Option Document → Session → Session
  process_found document_id trace_id none s = s
  process_found document_id trace_id (some document) s =
      finish document_id trace_id document (run_pipeline s.next_id document)
        (record s { db = with_document document_id (status_of IngestionStatus.processing) s.db })

  unfoldable pub process_document : ℕ → Option Text → Session → Session
  process_document document_id trace_id s =
      process_found document_id trace_id (get_document s.db document_id) s

  -- The tasks of a response run after it, one by one.
  unfoldable pub run_tasks : Option Text → List ℕ → Session → Session
  run_tasks trace_id [] s = s
  run_tasks trace_id (id ∷ tasks) s = run_tasks trace_id tasks (process_document id trace_id s)
