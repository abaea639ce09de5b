-- ===== src/Uploads/Batch.antt =====
-- What a batch of uploads adds.
use mathlib.Core.Path.{subst}
use mathlib.Core.List.{append_assoc, append-nil, map-append}
use Prim.Native.String.{String}
use enterprise_document_inte.Base.{
  ℕ, ◌≡◌, refl, ap, sym, ◌∙◌, inl, inr, List, [], ◌∷◌, ◌++◌, map, Text, arith, length, All,
  All-append, Bool-cases, Option-cases,
}
use enterprise_document_inte.Errors.{Error}
use enterprise_document_inte.Models.{Document, IngestionStatus}
use enterprise_document_inte.Session.{Session, Result, ok, err, catch, pure, ◌>>=◌}
use enterprise_document_inte.Session.Post.{Post, Post-bind, Post_at, Post-catch}
use enterprise_document_inte.Authz.{is_privileged}
use enterprise_document_inte.Documents.{CurrentUser}
use enterprise_document_inte.Uploads.{
  Source, BatchItemResult, intake_document, is_allowed, read_file, is_too_large, reason_of,
  reason_value, reject_or_raise, on_item_error, take_in, upload_item, upload_items,
  upload_documents_batch,
}
use enterprise_document_inte.Uploads.Intake.{intake_document-TakenIn, intake_raises}

-- The ids of the accepted files.
abbrev pub accepted_ids : List BatchItemResult → List ℕ
accepted_ids [] = []
accepted_ids (BatchItemResult.accepted filename id ∷ results) = id ∷ accepted_ids results
accepted_ids (BatchItemResult.rejected filename reason ∷ results) = accepted_ids results

accepted_ids-append :
    (r : BatchItemResult) (results : List BatchItemResult)
    → accepted_ids (r ∷ results) ≡ accepted_ids (r ∷ []) ++ accepted_ids results
accepted_ids-append (BatchItemResult.accepted filename id) results = refl
accepted_ids-append (BatchItemResult.rejected filename reason) results = refl

abbrev pub document_ids : List Document → List ℕ
document_ids ds = map (λ (d : Document). d.id) ds

-- A new row: pending, and the caller's.
abbrev pub IsPendingOf : CurrentUser → Document → Type 0
IsPendingOf current d =
    (d.status ≡ IngestionStatus.pending)
    × (d.tenant_id ≡ current.tenant_id)
    × (d.owner_user_id ≡ current.id)

-- What accepted files add.
pub record Added (current : CurrentUser) (s : Session) (results : List BatchItemResult)
    (s' : Session) : Type 0 where
  pub rows : List Document
  pub pending : All (IsPendingOf current) rows
  pub documents : s'.documents ≡ s.documents ++ rows
  pub tasks : s'.tasks ≡ s.tasks ++ document_ids rows
  pub accepted : accepted_ids results ≡ document_ids rows

nothing-Added :
    (current : CurrentUser) (s : Session) (filename : Text) (reason : String)
    → Added current s (BatchItemResult.rejected filename reason ∷ []) s
nothing-Added current s filename reason = record {
  rows = [];
  pending = tt;
  documents = sym (append-nil s.documents);
  tasks = sym (append-nil s.tasks);
  accepted = refl;
}

Added-trans :
    (current : CurrentUser) (a b c : Session) (r : BatchItemResult) (results : List BatchItemResult)
    → Added current a (r ∷ []) b
    → Added current b results c
    → Added current a (r ∷ results) c
Added-trans current a b c r results p q = record {
  rows = p.rows ++ q.rows;
  pending = All-append (IsPendingOf current) p.rows q.rows p.pending q.pending;
  documents =
      q.documents ∙ ap (λ l. l ++ q.rows) p.documents ∙ append_assoc a.documents p.rows q.rows;
  tasks =
      q.tasks
      ∙ ap (λ l. l ++ document_ids q.rows) p.tasks
      ∙ append_assoc a.tasks (document_ids p.rows) (document_ids q.rows)
      ∙ ap (λ l. a.tasks ++ l) (sym (map-append (λ (d : Document). d.id) p.rows q.rows));
  accepted =
      accepted_ids-append r results
      ∙ (λ i. p.accepted i ++ q.accepted i)
      ∙ sym (map-append (λ (d : Document). d.id) p.rows q.rows);
}

abbrev error_or : {A : Type 0} → Error → Result A → Error
error_or e (ok a) = e
error_or e (err e') = e'

module _ (str : ℕ → Text) where
  abbrev ItemAdded : CurrentUser → Session → BatchItemResult → Session → Type 0
  ItemAdded current s r s' = Added current s (r ∷ []) s'

  take_in-Added :
      (current : CurrentUser) (file : Source) (s : Session)
      → Post (take_in str current file s) (ItemAdded current s)
  take_in-Added current file s =
      Post-bind (ItemAdded current s) (intake_document str current file)
        (λ document. pure (BatchItemResult.accepted file.filename document.id)) s
        (intake_document-TakenIn str current file s)
        (λ document s' taken. record {
          rows = document ∷ [];
          pending = (
            (
              ap (λ (d : Document). d.status) taken.stored.row,
              ap (λ (d : Document). d.tenant_id) taken.stored.row,
              ap (λ (d : Document). d.owner_user_id) taken.stored.row,
            ),
            tt,
          );
          documents = taken.stored.documents;
          tasks = taken.stored.tasks;
          accepted = refl;
        })

  intake_of :
      (current : CurrentUser) (file : Source) (s s' : Session) (e : Error)
      → take_in str current file s ≡ (err e, s')
      → intake_document str current file s ≡ (err e, s')
  intake_of current file s s' e h = at_pair (intake_document str current file s) h
    where
      at_pair :
          (x : Result Document × Session)
          → ((λ (s0 : Session). x) >>= λ document.
                pure (BatchItemResult.accepted file.filename document.id))
              s
            ≡ (err e, s')
          → x ≡ (err e, s')
      at_pair (ok d, s1) h =
          let same : ok (BatchItemResult.accepted file.filename d.id) ≡ err e = ap (λ x. x.0) h in
          absurd (ground arith)
      at_pair (err e1, s1) h = λ i. (err (error_or e (h i).0), (h i).1)

  -- The file was taken in, or refused before anything was written, or the whole batch fails.
  handled :
      (current : CurrentUser) (file : Source) (s s' : Session) (e : Error)
      → take_in str current file s ≡ (err e, s')
      → Post (on_item_error file.filename e s') (ItemAdded current s)
  handled current file s s' e h = elim (Option-cases (reason_of e)) [
    | inl other ↦
        Post_at (ItemAdded current s) (on_item_error file.filename e s') (err e, s')
          (ap (λ o. reject_or_raise file.filename e o s') other) tt
    | inr (reason, why) ↦
        let same : s' ≡ s =
          intake_raises str current file s s' e reason (intake_of current file s s' e h) why in
        Post_at (ItemAdded current s) (on_item_error file.filename e s')
          (ok (BatchItemResult.rejected file.filename (reason_value reason)), s')
          (ap (λ o. reject_or_raise file.filename e o s') why)
          (subst
            (λ x.
              Added current s (BatchItemResult.rejected file.filename (reason_value reason) ∷ []) x)
            (sym same) (nothing-Added current s file.filename (reason_value reason)))
  ]

  upload_item-Added :
      (current : CurrentUser) (file : Source) (s : Session)
      → Post (upload_item str current file s) (ItemAdded current s)
  upload_item-Added current file s =
      let Q = ItemAdded current s in
      let source : Source = record file {
        content = read_file s file.content;
        source = "bulk_upload";
      } in
      elim (Bool-cases (is_allowed s file.filename)) [
        | inr other ↦
            Post_at Q _ (ok (BatchItemResult.rejected file.filename "unsupported_type"), s)
              (ground arith) (nothing-Added current s file.filename "unsupported_type")
        | inl allowed ↦ elim (Bool-cases (is_too_large s (read_file s file.content))) [
          | inl large ↦
              Post_at Q _ (ok (BatchItemResult.rejected file.filename "too_large"), s)
                (ground arith) (nothing-Added current s file.filename "too_large")
          | inr small ↦
              Post_at Q _ (catch (take_in str current source) (on_item_error file.filename) s)
                (ground arith)
                (Post-catch Q (take_in str current source) (on_item_error file.filename) s
                  (take_in-Added current source s)
                  (λ e s' raises. handled current source s s' e raises))
        ]
      ]

  abbrev AllAdded : CurrentUser → List Source → Session → List BatchItemResult → Session → Type 0
  AllAdded current files s results s' = (length results ≡ length files) × Added current s results s'

  upload_items-Added :
      (current : CurrentUser) (files : List Source) (s : Session)
      → Post (upload_items str current files s) (AllAdded current files s)
  unfolding upload_items
  upload_items-Added current [] s = (
    refl,
    record {
      rows = [];
      pending = tt;
      documents = sym (append-nil s.documents);
      tasks = sym (append-nil s.tasks);
      accepted = refl;
    },
  )
  upload_items-Added current (file ∷ files) s =
      Post-bind (AllAdded current (file ∷ files) s) (upload_item str current file)
        (λ r. upload_items str current files >>= λ results. pure (r ∷ results)) s
        (upload_item-Added current file s)
        (λ r s1 p.
          Post-bind (AllAdded current (file ∷ files) s) (upload_items str current files)
            (λ results. pure (r ∷ results)) s1 (upload_items-Added current files s1)
            (λ results s2 q. (omega (arith, q.0), Added-trans current s s1 s2 r results p q.1)))

  -- A batch that returns has a result for each file, and adds a pending row and a task for each accepted
  -- file, in that order, and nothing for a rejected one; the rows are the caller's.
  pub upload_documents_batch-Added :
      (current : CurrentUser) (files : List Source) (s : Session)
      → Post
          (upload_documents_batch str current files s)
          (λ results s'. (length results ≡ length files) × Added current s results s')
  unfolding upload_documents_batch
  upload_documents_batch-Added current files s = elim (Bool-cases (is_privileged current.role)) [
    | inl manager ↦
        Post_at (AllAdded current files s) _ (upload_items str current files s) (ground arith)
          (upload_items-Added current files s)
    | inr other ↦
        Post_at (AllAdded current files s) _ (err Error.authorization, s) (ground arith) tt
  ]
