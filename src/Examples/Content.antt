-- ===== src/Examples/Content.antt =====
-- Uploads, their tags and their ingestion at concrete inputs.
use enterprise_document_inte.Base.{ℕ, ◌≡◌, refl, none, some, [], ◌∷◌, Text, codes, length}
use enterprise_document_inte.Models.{Document, SalesContentType, ContentVisibility, IngestionStatus}
use enterprise_document_inte.Session.{Session, transaction}
use enterprise_document_inte.Session.Post.{Post}
use enterprise_document_inte.Authz.{get_document}
use enterprise_document_inte.Workflow.{Reply}
use enterprise_document_inte.Segments.Tags.{Retagged, replace_document_segments_lem}
use enterprise_document_inte.Ingestion.{Services, process_document, run_tasks}
use enterprise_document_inte.Ingestion.Extraction.{Parsers}
use enterprise_document_inte.Ingestion.Ends.{
  Processed, IsEnded, process_document-Processed, run_tasks-IsEnded,
}
use enterprise_document_inte.Uploads.{Source, upload_document, upload_documents_batch}
use enterprise_document_inte.Uploads.Intake.{Uploaded, upload_document-Uploaded}
use enterprise_document_inte.Uploads.Batch.{Added, upload_documents_batch-Added}
use enterprise_document_inte.Templates.{smb_focused, apply_found}
use enterprise_document_inte.Templates.Again.{CreatesNothing, apply_found_again}
use enterprise_document_inte.Fixtures.{db, session, owner}

replace_document_segments_lem_example : Retagged 1 20 (80 ∷ 80 ∷ []) session
replace_document_segments_lem_example = replace_document_segments_lem 1 20 (80 ∷ 80 ∷ []) session

-- Every page is its own text, and a chunk is a text.
abbrev parsers : Parsers
parsers = record {
  pdf_pages = λ t. Reply.returned (t ∷ []);
  docx_paragraphs = λ t. Reply.raised (codes "bad zip");
  soup_text = λ t. Reply.returned t;
  decode_utf8 = λ t. some t;
  repr = λ t. t;
  split_text = λ t. t ∷ [];
  count_tokens = length;
}

abbrev services : Services
services = record {
  parsers = parsers;
  get = λ key. Reply.returned (codes "net 30");
  decrypt = Reply.returned;
  Embedding = ℕ;
  embed_texts = λ texts. Reply.returned (1 ∷ []);
  encrypt_str = λ t. t;
}

abbrev queued : Document
queued = record {
  id = 20;
  tenant_id = 1;
  owner_user_id = 10;
  filename = codes "a.pdf";
  mime_type = codes "pdf";
  size_bytes = 3;
  content_type = SalesContentType.product;
  created_at = 20;
  storage_key = [];
  visibility = ContentVisibility.rep_visible;
  status = IngestionStatus.pending;
  error_message = none;
  page_count = none;
  chunk_count = 0;
  deleted_at = none;
}

abbrev queued_session : Session
queued_session = record session { db = record db { documents = queued ∷ [] } }

process_document-Processed_example :
    Processed services queued queued_session (process_document services 20 none queued_session)
unfolding get_document
process_document-Processed_example =
    process_document-Processed services 20 none queued_session queued refl

run_tasks-IsEnded_example :
    IsEnded services (run_tasks services none (7 ∷ 20 ∷ []) queued_session) 20
unfolding get_document
run_tasks-IsEnded_example =
    run_tasks-IsEnded services none (7 ∷ 20 ∷ []) queued_session 20 queued refl refl

abbrev str : ℕ → Text
str n = n ∷ []

abbrev file : Source
file = record {
  filename = codes "Pricing.pdf";
  mime_type = codes "application/pdf";
  content = codes "net 30";
  content_type = SalesContentType.pricing;
  visibility = ContentVisibility.rep_visible;
  segment_ids = [];
  source = "upload";
}

upload_document-Uploaded_example :
    Uploaded str owner file session
      (transaction (upload_document str owner file) session).0
      (transaction (upload_document str owner file) session).1
upload_document-Uploaded_example = upload_document-Uploaded str owner file session

upload_documents_batch-Added_example :
    Post
      (upload_documents_batch str owner (file ∷ file ∷ []) session)
      (λ results s'. (length results ≡ 2) × Added owner session results s')
upload_documents_batch-Added_example =
    upload_documents_batch-Added str owner (file ∷ file ∷ []) session

apply_found_again_example : Post (apply_found 1 smb_focused session) (CreatesNothing 1 smb_focused)
apply_found_again_example = apply_found_again 1 smb_focused session

-- The row that the task leaves, of the document that was deleted before it ran.
abbrev brought_back : Document
brought_back = record queued {
  status = IngestionStatus.completed;
  page_count = some 1;
  chunk_count = 1;
  deleted_at = some session.now;
}
