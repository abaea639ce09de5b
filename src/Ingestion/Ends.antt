-- ===== src/Ingestion/Ends.antt =====
-- Every ingestion ends, completed or failed.
use enterprise_document_inte.Base.{
  ℕ, ◌+◌, ◌≡◌, ◌⊎◌, ◌≤◌, refl, ap, sym, ◌∙◌, inl, inr, true, false, Option, none, some, List, [],
  ◌∷◌, ◌++◌, map, Text, arith, find?, find?-update, find?-holds, ==_iff, update, take, length, All,
  ◌==◌, Option-cases, Bool-cases, contains,
}
use mathlib.Core.Path.{subst}
use mathlib.Core.Bool.{false≢true}
use enterprise_document_inte.Models.{Db, Document, DocumentChunk, IngestionStatus}
use enterprise_document_inte.Session.{Session}
use enterprise_document_inte.Audit.{write_event}
use enterprise_document_inte.Authz.{get_document}
use enterprise_document_inte.Workflow.{Reply, returned, raised}
use enterprise_document_inte.Ingestion.Extraction.{Chunk, extract_text, split}
use enterprise_document_inte.Ingestion.{
  Services, and_then, run_tasks, with_document, some_chunks, status_of, completed_doc, failed_doc,
  zip_rows, run_pipeline, mark_failed, finish, process_document,
}

get_after :
    (id : ℕ) (f : Document → Document) (db : Db) (d : Document)
    → get_document db id ≡ some d
    → ((d : Document) → (f d).id ≡ d.id)
    → get_document (with_document id f db) id ≡ some (f d)
unfolding get_document
get_after id f db d found keep =
    find?-update (λ (x : Document). x.id == id) (λ (x : Document). x.id == id) f db.documents
      (λ x. ap (λ n. n == id) (keep x)) d found
      (find?-holds (λ (x : Document). x.id == id) db.documents d found)

-- The documents are found whatever the chunks are.
get_after_chunks :
    (id : ℕ) (f : Document → Document) (db : Db) (d : Document)
    → get_document db id ≡ some d
    → ((d : Document) → (f d).id ≡ d.id)
    → (chunks : List DocumentChunk)
    → get_document (record (with_document id f db) { chunks = chunks }) id ≡ some (f d)
unfolding get_document
get_after_chunks id f db d found keep chunks = get_after id f db d found keep

found_id : (id : ℕ) (db : Db) (d : Document) → get_document db id ≡ some d → (d.id == id) ≡ true
unfolding get_document
found_id id db d found = find?-holds (λ (x : Document). x.id == id) db.documents d found

module _ (services : Services) where
  open services use {parsers, get, decrypt, Embedding, embed_texts, encrypt_str}

  and_then-returned :
      {P A B : Type 0} (r : Reply A) (k : A → Reply B) (b : B)
      → and_then r k ≡ returned b
      → ((a : A) → r ≡ returned a → k a ≡ returned b → P)
      → P
  and_then-returned (raised message) k b h f = absurd (ground arith)
  and_then-returned (returned a) k b h f = f a refl h

  abbrev pub IsRowOf : Document → DocumentChunk → Type 0
  IsRowOf document row = (row.document_id ≡ document.id) × (row.tenant_id ≡ document.tenant_id)

  zip_rows_lem :
      (id : ℕ) (document : Document) (chunks : List Chunk) (embeddings : List Embedding)
      (rows : List DocumentChunk)
      → zip_rows services id document chunks embeddings ≡ returned rows
      → (length rows ≡ length chunks) × All (IsRowOf document) rows
  unfolding zip_rows
  zip_rows_lem id document [] [] rows h = ground arith
  zip_rows_lem id document [] (e ∷ embeddings) rows h = absurd (ground arith)
  zip_rows_lem id document (c ∷ chunks) [] rows h = absurd (ground arith)
  zip_rows_lem id document (c ∷ chunks) (e ∷ embeddings) rows h =
      and_then-returned (zip_rows services (id + 1) document chunks embeddings) _ rows h
        (λ rest made same.
          let ih = zip_rows_lem (id + 1) document chunks embeddings rest made in ground (arith, ih))

  some_chunks_lem :
      (chunks chunks' : List Chunk) → some_chunks chunks ≡ returned chunks' → 1 ≤ length chunks'
  some_chunks_lem [] chunks' h = absurd (ground arith)
  some_chunks_lem (c ∷ chunks) chunks' h = ground arith

  -- A pipeline that returns has at least one row, and all are rows of the document.
  run_pipeline_lem :
      (id : ℕ) (document : Document) (page_count : Option ℕ) (rows : List DocumentChunk)
      → run_pipeline services id document ≡ returned (page_count, rows)
      → (1 ≤ length rows) × All (IsRowOf document) rows
  unfolding run_pipeline
  run_pipeline_lem id document page_count rows h =
      and_then-returned (get document.storage_key) _ (page_count, rows) h
        (λ encrypted h1 k1.
          and_then-returned (decrypt encrypted) _ (page_count, rows) k1
            (λ plaintext h2 k2.
              and_then-returned
                (extract_text parsers plaintext document.mime_type document.filename) _
                (page_count, rows) k2
                (λ extracted h3 k3.
                  and_then-returned (some_chunks (split parsers extracted.text)) _
                    (page_count, rows) k3
                    (λ chunks h4 k4.
                      and_then-returned (embed_texts (map (λ (c : Chunk). c.text) chunks)) _
                        (page_count, rows) k4
                        (λ embeddings h5 k5.
                          and_then-returned (zip_rows services id document chunks embeddings) _
                            (page_count, rows) k5
                            (λ made h6 k6.
                              let zipped = zip_rows_lem id document chunks embeddings made h6 in
                              ground (
                                arith,
                                zipped,
                                some_chunks_lem (split parsers extracted.text) chunks h4,
                              )))))))

  -- How the ingestion of a document has ended.
  pub data Processed (document : Document) (s s' : Session) : Type 0 where
    ingested :
        (d : Document) (rows : List DocumentChunk)
        → get_document s'.db document.id ≡ some d
        → d.status ≡ IngestionStatus.completed
        → d.error_message ≡ none
        → d.chunk_count ≡ length rows
        → 1 ≤ length rows
        → All (IsRowOf document) rows
        → s'.chunks ≡ s.chunks ++ rows
        → Processed document s s'
    failed :
        (d : Document) (message : Text)
        → get_document s'.db document.id ≡ some d
        → d.status ≡ IngestionStatus.failed
        → d.error_message ≡ some (take 2000 message)
        → d.chunk_count ≡ document.chunk_count
        → s'.chunks ≡ s.chunks
        → Processed document s s'

  at_result :
      (document : Document) (trace_id : Option Text) (s : Session)
      (r : Reply (Option ℕ × List DocumentChunk))
      → get_document s.db document.id ≡ some document
      → run_pipeline services s.next_id document ≡ r
      → Processed document s (
          finish services document.id trace_id document r (record s {
            db = with_document document.id (status_of IngestionStatus.processing) s.db;
          }))
  unfolding mark_failed write_event get_document
  at_result document trace_id s (raised message) found e =
      let started = status_of IngestionStatus.processing document in
      let row =
        get_after document.id (status_of IngestionStatus.processing) s.db document found
          (λ d. refl) in
      let row' =
        get_after document.id (failed_doc message)
          (with_document document.id (status_of IngestionStatus.processing) s.db) started row
          (λ d. refl) in
      failed (failed_doc message started) message (rw row row') refl refl refl (rw row refl)
  at_result document trace_id s (returned (page_count, rows)) found e =
      let made = run_pipeline_lem s.next_id document page_count rows e in
      let started = status_of IngestionStatus.processing document in
      let row =
        get_after document.id (status_of IngestionStatus.processing) s.db document found
          (λ d. refl) in
      ingested (completed_doc page_count (length rows) started) rows
        (get_after_chunks document.id (completed_doc page_count (length rows))
          (with_document document.id (status_of IngestionStatus.processing) s.db) started row
          (λ d. refl) (s.chunks ++ rows))
        refl refl refl made.0 made.1 refl

  -- The ingestion of a document always ends: completed, with at least one chunk, all of them the
  -- document's and counted on its row; or failed, with the message, cut to 2000 characters, and with no
  -- chunk added. It raises in neither case.
  pub process_document-Processed :
      (document_id : ℕ) (trace_id : Option Text) (s : Session) (document : Document)
      → get_document s.db document_id ≡ some document
      → Processed document s (process_document services document_id trace_id s)
  unfolding process_document
  process_document-Processed document_id trace_id s document found =
      let same : document.id ≡ document_id =
        (==_iff document.id document_id).0 (found_id document_id s.db document found) in
      subst
        (λ n.
          get_document s.db n ≡ some document
          → Processed document s (process_document services n trace_id s))
        same
        (λ f.
          rw f (at_result document trace_id s (run_pipeline services s.next_id document) f refl))
        found

  -- An ingestion that has ended.
  abbrev pub IsEnded : Session → ℕ → Type 0
  IsEnded s id =
      (d : Document) × (get_document s.db id ≡ some d)
      × ((d.status ≡ IngestionStatus.completed) ⊎ (d.status ≡ IngestionStatus.failed))

  IsEnded-of :
      (document : Document) (s s' : Session) → Processed document s s' → IsEnded s' document.id
  IsEnded-of document s s' (ingested d rows found status a b c e f) = (d, found, inl status)
  IsEnded-of document s s' (failed d message found status a b c) = (d, found, inr status)

  find_other :
      (id other : ℕ) (f : Document → Document) (ds : List Document)
      → ((d : Document) → (f d).id ≡ d.id)
      → (other == id) ≡ false
      → find? (λ (x : Document). x.id == other) (update (λ (x : Document). x.id == id) f ds)
        ≡ find? (λ (x : Document). x.id == other) ds
  find_other id other f [] keep ne = refl
  find_other id other f (d ∷ ds) keep ne = ground (arith, keep d, find_other id other f ds keep ne)

  finish_other :
      (id other : ℕ) (trace_id : Option Text) (document : Document) (s : Session)
      (r : Reply (Option ℕ × List DocumentChunk))
      → (other == id) ≡ false
      → get_document (finish services id trace_id document r s).db other ≡ get_document s.db other
  unfolding get_document mark_failed write_event
  finish_other id other trace_id document s (raised message) ne =
      elim (Option-cases (get_document s.db id)) [
        | inl absent ↦ rw absent refl
        | inr (d, found) ↦
            rw found (find_other id other (failed_doc message) s.documents (λ d. refl) ne)
      ]
  finish_other id other trace_id document s (returned (page_count, rows)) ne =
      find_other id other (completed_doc page_count (length rows)) s.documents (λ d. refl) ne

  process_other :
      (id other : ℕ) (trace_id : Option Text) (s : Session)
      → (other == id) ≡ false
      → get_document (process_document services id trace_id s).db other ≡ get_document s.db other
  unfolding process_document get_document
  process_other id other trace_id s ne = elim (Option-cases (get_document s.db id)) [
    | inl absent ↦ rw absent refl
    | inr (d, found) ↦ rw found (
        finish_other id other trace_id d _ (run_pipeline services s.next_id d) ne
        ∙ find_other id other (status_of IngestionStatus.processing) s.documents (λ d. refl) ne)
  ]

  process_ends :
      (id : ℕ) (trace_id : Option Text) (s : Session) (d : Document)
      → get_document s.db id ≡ some d
      → IsEnded (process_document services id trace_id s) id
  process_ends id trace_id s d found =
      subst (IsEnded (process_document services id trace_id s))
        ((==_iff d.id id).0 (found_id id s.db d found))
        (IsEnded-of d s (process_document services id trace_id s)
          (process_document-Processed id trace_id s d found))

  -- What another task does to a document: nothing, or it is that document's own, and it ends.
  step_cases :
      (id other : ℕ) (trace_id : Option Text) (s : Session) (d : Document)
      → get_document s.db other ≡ some d
      → IsEnded (process_document services id trace_id s) other
        ⊎ (get_document (process_document services id trace_id s).db other ≡ some d)
  step_cases id other trace_id s d found = elim (Bool-cases (other == id)) [
    | inl own ↦ inl (
        subst (λ n. IsEnded (process_document services n trace_id s) other)
          ((==_iff other id).0 own) (process_ends other trace_id s d found))
    | inr ne ↦ inr (process_other id other trace_id s ne ∙ found)
  ]

  stays-IsEnded :
      (id other : ℕ) (trace_id : Option Text) (s : Session)
      → IsEnded s other
      → IsEnded (process_document services id trace_id s) other
  stays-IsEnded id other trace_id s (d, found, status) =
      elim (step_cases id other trace_id s d found) [
        | inl again ↦ again
        | inr kept ↦ (d, kept, status)
      ]

  tasks_stay :
      (trace_id : Option Text) (tasks : List ℕ) (other : ℕ) (s : Session)
      → IsEnded s other
      → IsEnded (run_tasks services trace_id tasks s) other
  unfolding run_tasks
  tasks_stay trace_id [] other s h = h
  tasks_stay trace_id (id ∷ tasks) other s h =
      tasks_stay trace_id tasks other (process_document services id trace_id s)
        (stays-IsEnded id other trace_id s h)

  -- No document stays pending or processing: once the queued tasks have run, in any order and with any
  -- repetition, each document that was queued is completed or failed, whatever the storage, the parsers
  -- and the embedder answer or raise.
  pub run_tasks-IsEnded :
      (trace_id : Option Text) (tasks : List ℕ) (s : Session) (id : ℕ) (d : Document)
      → contains id tasks ≡ true
      → get_document s.db id ≡ some d
      → IsEnded (run_tasks services trace_id tasks s) id
  unfolding run_tasks
  run_tasks-IsEnded trace_id [] s id d queued found = absurd (false≢true queued)
  run_tasks-IsEnded trace_id (t ∷ tasks) s id d queued found = elim (Bool-cases (t == id)) [
    | inl own ↦ tasks_stay trace_id tasks id (process_document services t trace_id s) (
        subst (λ n. IsEnded (process_document services n trace_id s) id) (sym ((==_iff t id).0 own))
          (process_ends id trace_id s d found))
    | inr other ↦ elim (step_cases t id trace_id s d found) [
      | inl ended ↦ tasks_stay trace_id tasks id (process_document services t trace_id s) ended
      | inr kept ↦
          run_tasks-IsEnded trace_id tasks (process_document services t trace_id s) id d
            (ground (arith, other)) kept
    ]
  ]
