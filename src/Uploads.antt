-- ===== src/Uploads.antt =====
-- backend/app/services/ingestion_intake.py, malware_scan.py, and the upload, list and read handlers of
-- backend/app/api/v1/documents.py. `str` is the text of an id. The write of the encrypted bytes to the
-- object storage is not modelled, nor is the hash.
pub mod Intake
pub mod Batch
use Prim.Native.String.{String}
use enterprise_document_inte.Base.{
  ℕ, ◌+◌, Bool, true, false, not, ◌&&◌, ◌||◌, Option, none, some, List, [], ◌∷◌, ◌++◌, map, Text,
  codes, text_eq, has_part, filter, any, take, drop, length, ltb, ◌==◌, if◌then◌else◌,
}
use enterprise_document_inte.Errors.{Error, IntakeReason}
use enterprise_document_inte.Models.{
  Db, Document, SalesContentType, ContentVisibility, IngestionStatus, Permission, event,
  AuditAction, AuditLog, Json,
}
use enterprise_document_inte.Session.{
  Exec, Session, gets, pure, raise, raise_if, or_raise, modify, new_id, catch, add_task, ◌>>=◌,
  ◌>>◌,
}
use enterprise_document_inte.Audit.{write_event, record_event_committed}
use enterprise_document_inte.Authz.{is_live, can_access_document, accessible_document_ids}
use enterprise_document_inte.Billing.{enforce_quota, Resource}
use enterprise_document_inte.Documents.{CurrentUser, live_document}
use enterprise_document_inte.Members.{admin_only}
use enterprise_document_inte.Retrieval.{sort_by, admits}
use enterprise_document_inte.Segments.{replace_document_segments, segments_for_documents}
use enterprise_document_inte.Ingestion.Extraction.{ext}
use enterprise_document_inte.Workflow.{Reply, returned, raised}

abbrev eicar : Text
eicar = codes "X5O!P%@AP[4\\PZX54(P^)7CC)7}$EICAR-STANDARD-ANTIVIRUS-TEST-FILE!$H+H*"

abbrev signature : Text
signature = codes "EICAR-Test-File"

-- `scan(data).clean`
unfoldable pub is_clean : Text → Bool
is_clean content = not (has_part eicar content)

abbrev content_type_value : SalesContentType → String
content_type_value SalesContentType.product = "product"
content_type_value SalesContentType.pricing = "pricing"
content_type_value SalesContentType.objections = "objections"
content_type_value SalesContentType.battlecard = "battlecard"
content_type_value SalesContentType.case_study = "case_study"
content_type_value SalesContentType.script = "script"

abbrev visibility_value : ContentVisibility → String
visibility_value ContentVisibility.rep_visible = "rep_visible"
visibility_value ContentVisibility.manager_only = "manager_only"

-- What a source hands in: the name, the bytes, and how they are to be filed.
pub record Source : Type 0 where
  pub filename : Text
  pub mime_type : Text
  pub content : Text
  pub content_type : SalesContentType
  pub visibility : ContentVisibility
  pub segment_ids : List ℕ
  pub source : String

abbrev pub is_nothing : Text → Bool
is_nothing [] = true
is_nothing (c ∷ content) = false

-- `if segment_ids:`
abbrev pub tag_if : ℕ → ℕ → List ℕ → Exec (Unit {0})
tag_if tenant_id document_id [] = pure tt
tag_if tenant_id document_id (id ∷ ids) =
    replace_document_segments tenant_id document_id (id ∷ ids) >>= λ valid. pure tt

abbrev pub uploaded_event : CurrentUser → AuditLog
uploaded_event current = record (event current.tenant_id AuditAction.document_uploaded) {
  actor_user_id = some current.id;
  resource_type = some "document";
  ip_address = current.ip;
}

-- `scan` and the checks in front of it.
abbrev pub check_content : Text → Exec (Unit {0})
check_content content = do
  raise_if (is_nothing content) (Error.intake_failed IntakeReason.empty)
  raise_if (not (is_clean content)) (Error.intake_failed IntakeReason.malware)

-- `_extension(filename) not in settings.allowed_upload_extensions`
abbrev pub is_allowed : Session → Text → Bool
is_allowed s filename = any (λ e. text_eq e (ext filename)) s.settings.allowed_upload_extensions

-- `await file.read(settings.max_upload_bytes + 1)`
abbrev pub read_file : Session → Text → Text
read_file s file = take (s.settings.max_upload_bytes + 1) file

abbrev pub is_too_large : Session → Text → Bool
is_too_large s content = ltb s.settings.max_upload_bytes (length content)

-- What `upload_document` makes of an `IntakeError`; other errors pass.
abbrev pub on_intake_error : CurrentUser → Text → Error → Exec Document
on_intake_error current filename (Error.intake_failed IntakeReason.malware) = do
  record_event_committed (record (uploaded_event current) {
    event_metadata =
        ("rejected", Json.word "malware")
        ∷ ("signature", Json.text signature)
        ∷ ("filename", Json.text filename)
        ∷ [];
  })
  raise Error.malware_detected
on_intake_error current filename (Error.intake_failed IntakeReason.empty) = raise Error.empty_file
on_intake_error current filename e = raise e

pub data BatchItemResult : Type 0 where
  accepted : Text → ℕ → BatchItemResult
  rejected : Text → String → BatchItemResult

abbrev pub reason_value : IntakeReason → String
reason_value IntakeReason.empty = "empty"
reason_value IntakeReason.malware = "malware"

-- `except IntakeError as exc`
abbrev pub reason_of : Error → Option IntakeReason
reason_of (Error.intake_failed reason) = some reason
reason_of e = none

abbrev pub reject_or_raise : Text → Error → Option IntakeReason → Exec BatchItemResult
reject_or_raise filename e none = raise e
reject_or_raise filename e (some reason) =
    pure (BatchItemResult.rejected filename (reason_value reason))

abbrev pub on_item_error : Text → Error → Exec BatchItemResult
on_item_error filename e = reject_or_raise filename e (reason_of e)

module _ (str : ℕ → Text) where
  abbrev pub document_storage_key : ℕ → ℕ → Text
  document_storage_key tenant_id document_id =
      codes "tenants/" ++ str tenant_id ++ codes "/documents/" ++ str document_id

  abbrev pub new_document : CurrentUser → Source → Session → Document
  new_document current source s = record {
    id = s.next_id;
    tenant_id = current.tenant_id;
    owner_user_id = current.id;
    filename = source.filename;
    mime_type = source.mime_type;
    size_bytes = length source.content;
    storage_key = document_storage_key current.tenant_id s.next_id;
    content_type = source.content_type;
    visibility = source.visibility;
    status = IngestionStatus.pending;
    error_message = none;
    page_count = none;
    chunk_count = 0;
    created_at = s.now;
    deleted_at = none;
  }

  -- The audit row and the task.
  abbrev pub announce : CurrentUser → Source → Document → Exec Document
  announce current source document = do
    write_event (record (uploaded_event current) {
      resource_id = some document.id;
      event_metadata =
          ("filename", Json.text source.filename)
          ∷ ("size_bytes", Json.num (length source.content))
          ∷ ("content_type", Json.word (content_type_value source.content_type))
          ∷ ("visibility", Json.word (visibility_value source.visibility))
          ∷ ("source", Json.word source.source)
          ∷ [];
    })
    add_task document.id
    pure document

  -- The row and its tags.
  unfoldable pub store : CurrentUser → Source → Exec Document
  store current source = do
    document ← gets (new_document current source)
    id ← new_id
    modify (λ db. record db { documents = db.documents ++ document ∷ [] })
    tag_if current.tenant_id document.id source.segment_ids
    announce current source document

  unfoldable pub intake_document : CurrentUser → Source → Exec Document
  unfolding is_clean
  intake_document current source = do
    check_content source.content
    enforce_quota current.tenant_id Resource.documents
    store current source

  -- The name is "upload" and the type "application/octet-stream" where the request has none.
  unfoldable pub upload_document : CurrentUser → Source → Exec Document
  upload_document current file = do
    admin_only current
    allowed ← gets (λ s. is_allowed s file.filename)
    raise_if (not allowed) Error.unsupported_media_type
    content ← gets (λ s. read_file s file.content)
    large ← gets (λ s. is_too_large s content)
    raise_if large Error.payload_too_large
    raise_if (is_nothing content) Error.empty_file
    catch (intake_document current (record file { content = content; source = "upload" }))
        (on_intake_error current file.filename)

  abbrev pub take_in : CurrentUser → Source → Exec BatchItemResult
  take_in current file = intake_document current file >>= λ document.
      pure (BatchItemResult.accepted file.filename document.id)

  -- One turn of the loop.
  abbrev pub upload_item : CurrentUser → Source → Exec BatchItemResult
  upload_item current file s =
      if not (is_allowed s file.filename)
      then pure (BatchItemResult.rejected file.filename "unsupported_type") s
      else if is_too_large s (read_file s file.content)
      then pure (BatchItemResult.rejected file.filename "too_large") s
      else catch
          (take_in current
            (record file { content = read_file s file.content; source = "bulk_upload" }))
          (on_item_error file.filename) s

  unfoldable pub upload_items : CurrentUser → List Source → Exec (List BatchItemResult)
  upload_items current [] = pure []
  upload_items current (file ∷ files) = do
    result ← upload_item current file
    results ← upload_items current files
    pure (result ∷ results)

  unfoldable pub upload_documents_batch : CurrentUser → List Source → Exec (List BatchItemResult)
  upload_documents_batch current files = do admin_only current; upload_items current files

  -- `import_url`: the page is fetched, under a name made of its address, by code that is a parameter
  -- here. An `IntakeError` is not caught.
  unfoldable pub import_url : CurrentUser → Reply Source → Exec Document
  import_url current (raised message) = do
    admin_only current
    enabled ← gets (λ s. s.settings.enable_connectors)
    raise_if (not enabled) Error.not_found
    raise Error.url_import
  import_url current (returned page) = do
    admin_only current
    enabled ← gets (λ s. s.settings.enable_connectors)
    raise_if (not enabled) Error.not_found
    intake_document current (record page { mime_type = codes "text/html"; source = "url_import" })

-- A document with its tags.
abbrev pub tagged : Db → ℕ → List ℕ → Document → Document × List ℕ
tagged db tenant_id ids d = (d, segments_for_documents db tenant_id ids d.id)

-- The documents that a list is a page of, newest first.
unfoldable pub visible_documents : CurrentUser → Db → List Document
visible_documents current db =
    let allowed =
      accessible_document_ids db current.tenant_id current.id current.role Permission.view in
    sort_by (λ (a b : Document). ltb a.created_at b.created_at)
      (filter (λ d. is_live current.tenant_id d && admits allowed d.id) db.documents)

unfoldable pub list_documents : CurrentUser → ℕ → ℕ → Exec (List (Document × List ℕ))
unfolding visible_documents
list_documents current limit offset = do
  documents ← gets (λ s. take limit (drop offset (visible_documents current s.db)))
  rows ←
      gets (λ s.
        map (tagged s.db current.tenant_id (map (λ (d : Document). d.id) documents)) documents)
  write_event (record (event current.tenant_id AuditAction.document_listed) {
    actor_user_id = some current.id;
    resource_type = some "document";
    event_metadata =
        ("returned", Json.num (length documents))
        ∷ ("limit", Json.num limit)
        ∷ ("offset", Json.num offset)
        ∷ [];
    ip_address = current.ip;
  })
  pure rows

-- `get_document` of the router.
unfoldable pub show_document : CurrentUser → ℕ → Exec (Document × List ℕ)
show_document current document_id = do
  found ← gets (λ s. live_document s.db current.tenant_id document_id)
  document ← or_raise found Error.not_found
  visible ← gets (λ s.
      can_access_document s.db current.tenant_id current.id current.role document.id
        Permission.view)
  raise_if (not visible) Error.not_found
  row ← gets (λ s. tagged s.db current.tenant_id (document.id ∷ []) document)
  write_event (record (event current.tenant_id AuditAction.document_viewed) {
    actor_user_id = some current.id;
    resource_type = some "document";
    resource_id = some document.id;
    ip_address = current.ip;
  })
  pure row

unfoldable pub set_document_segments : CurrentUser → ℕ → List ℕ → Exec (Document × List ℕ)
set_document_segments current document_id segment_ids = do
  admin_only current
  found ← gets (λ s. live_document s.db current.tenant_id document_id)
  document ← or_raise found Error.not_found
  applied ← replace_document_segments current.tenant_id document.id segment_ids
  write_event (record (event current.tenant_id AuditAction.document_segments_updated) {
    actor_user_id = some current.id;
    resource_type = some "document";
    resource_id = some document.id;
    event_metadata = ("segment_ids", Json.nums applied) ∷ [];
    ip_address = current.ip;
    outcome = some "allow";
  })
  pure (document, applied)
