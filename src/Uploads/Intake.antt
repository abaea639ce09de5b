-- ===== src/Uploads/Intake.antt =====
-- What an upload leaves in the tables.
use mathlib.Core.Path.{subst}
use mathlib.Core.Option.{some-ne-none}
use enterprise_document_inte.Base.{
  ℕ, ◌+◌, ◌≡◌, ◌≤◌, ◌⊎◌, refl, ap, sym, ◌∙◌, inl, inr, true, false, none, some, List, [], ◌∷◌, ◌++◌,
  Text, arith, take_all, length, length-take, Bool-cases,
}
use enterprise_document_inte.Errors.{Error, IntakeReason}
use enterprise_document_inte.Models.{Db, Document, DocumentSegment}
use enterprise_document_inte.Session.{Session, Result, ok, err, transaction, catch, pure, ◌>>=◌}
use enterprise_document_inte.Session.Post.{
  Post, Post-bind, Post_mono, Post_at, Post_none, Post-catch,
}
use enterprise_document_inte.Audit.{write_event, record_event_committed}
use enterprise_document_inte.Authz.{is_privileged}
use enterprise_document_inte.Billing.{Resource, plan_for, subscription_for, resource_name}
use enterprise_document_inte.Billing.Quota.{HasRoom, limit_in, used_in, enforce_quota_exact}
use enterprise_document_inte.Documents.{CurrentUser}
use enterprise_document_inte.Segments.Tags.{replace_document_segments_exact}
use enterprise_document_inte.Uploads.{
  Source, is_clean, tag_if, new_document, check_content, announce, store, intake_document,
  upload_document, is_allowed, read_file, is_too_large, is_nothing, on_intake_error, reason_of,
}

abbrev with_rows : List DocumentSegment → Session → Session
with_rows tags s = record s { db = record s.db { document_segments = tags } }

-- Tags are written, or refused.
pub tag_if_cases :
    (tenant_id document_id : ℕ) (ids : List ℕ) (s : Session)
    → ((tags : List DocumentSegment) × (tag_if tenant_id document_id ids s
          ≡ (ok tt, with_rows tags s)))
      ⊎ ((e : Error) × (reason_of e ≡ none) × (tag_if tenant_id document_id ids s ≡ (err e, s)))
tag_if_cases tenant_id document_id [] s = inl (s.document_segments, refl)
tag_if_cases tenant_id document_id (id ∷ ids) s =
    let then_done =
      λ (x : Result (List ℕ) × Session). ((λ (s' : Session). x) >>= λ valid. pure tt) s in
    elim (replace_document_segments_exact tenant_id document_id (id ∷ ids) s) [
      | inl done ↦ inl (_, ap then_done done)
      | inr (inl unknown) ↦ inr (Error.not_found, refl, ap then_done unknown)
      | inr (inr clash) ↦ inr (Error.integrity, refl, ap then_done clash)
    ]

tag_if_rows :
    (tenant_id document_id : ℕ) (ids : List ℕ) (s : Session)
    → Post
        (tag_if tenant_id document_id ids s)
        (λ u s'. (tags : List DocumentSegment) × (s' ≡ with_rows tags s))
tag_if_rows tenant_id document_id ids s =
    let Rows : Unit {0} → Session → Type 0 =
      λ u s'. (tags : List DocumentSegment) × (s' ≡ with_rows tags s) in
    elim (tag_if_cases tenant_id document_id ids s) [
      | inl (tags, done) ↦
          Post_at Rows (tag_if tenant_id document_id ids s) (ok tt, with_rows tags s) done
            (tags, refl)
      | inr (e, other, raises) ↦
          Post_at Rows (tag_if tenant_id document_id ids s) (err e, s) raises tt
    ]

module _ (str : ℕ → Text) where
  -- What `store` adds.
  pub record Stored (current : CurrentUser) (source : Source) (s : Session) (document : Document)
      (s' : Session) : Type 0 where
    pub row : document ≡ new_document str current source s
    pub documents : s'.documents ≡ s.documents ++ document ∷ []
    pub tasks : s'.tasks ≡ s.tasks ++ document.id ∷ []
    pub next_id : s'.next_id ≡ s.next_id + 1
    pub settings : s'.settings ≡ s.settings
    pub now : s'.now ≡ s.now

  store-Stored :
      (current : CurrentUser) (source : Source) (s : Session)
      → Post (store str current source s) (Stored current source s)
  unfolding store write_event
  store-Stored current source s =
      let document = new_document str current source s in
      let inserted : Session = record s {
        next_id = s.next_id + 1;
        db = record s.db { documents = s.documents ++ document ∷ [] };
      } in
      let Tagged : Unit {0} → Session → Type 0 =
        λ u s'. (tags : List DocumentSegment) × (s' ≡ with_rows tags inserted) in
      Post-bind (Stored current source s) (tag_if current.tenant_id document.id source.segment_ids)
        (λ u. announce str current source document) inserted
        (tag_if_rows current.tenant_id document.id source.segment_ids inserted)
        (λ u s' tagged.
          subst (λ x. Post (announce str current source document x) (Stored current source s))
            (sym tagged.1)
            (record {
              row = refl;
              documents = refl;
              tasks = refl;
              next_id = refl;
              settings = refl;
              now = refl;
            }))

  -- What the intake of a document means: there is content, it is no known malware, the plan has room for
  -- one more, and the row, with its task, is added.
  pub record TakenIn (current : CurrentUser) (source : Source) (s : Session) (document : Document)
      (s' : Session) : Type 0 where
    pub content : is_nothing source.content ≡ false
    pub clean : is_clean source.content ≡ true
    pub room :
        HasRoom
          (limit_in s current.tenant_id Resource.documents)
          (used_in s current.tenant_id Resource.documents)
    pub stored : Stored current source s document s'

  check_content_lem :
      (content : Text) (s : Session)
      → ((check_content content s ≡ (ok tt, s))
          × (is_nothing content ≡ false)
          × (is_clean content ≡ true))
        ⊎ ((reason : IntakeReason) × (check_content content s
              ≡ (err (Error.intake_failed reason), s)))
  check_content_lem content s = elim (Bool-cases (is_nothing content)) [
    | inl nothing ↦ inr (IntakeReason.empty, ground arith)
    | inr some_content ↦ elim (Bool-cases (is_clean content)) [
      | inl clean ↦ inl (ground arith, some_content, clean)
      | inr infected ↦ inr (IntakeReason.malware, ground arith)
    ]
  ]

  pub intake_document-TakenIn :
      (current : CurrentUser) (source : Source) (s : Session)
      → Post (intake_document str current source s) (TakenIn current source s)
  unfolding intake_document
  intake_document-TakenIn current source s = elim (check_content_lem source.content s) [
    | inr (reason, raises) ↦
        Post_at (TakenIn current source s) _ (err (Error.intake_failed reason), s)
          (ground (arith, raises)) tt
    | inl (passes, content, clean) ↦
        elim (enforce_quota_exact current.tenant_id Resource.documents s) [
          | inr (limit, limited, full, raises) ↦
              Post_at (TakenIn current source s) _
                (
                  err (
                      Error.plan_limit
                        (plan_for s.settings (subscription_for s.db current.tenant_id)).name limit
                        (resource_name Resource.documents)),
                  s,
                )
                (ground (arith, passes, raises)) tt
          | inl (room, has_room) ↦
              Post_at (TakenIn current source s) _ (store str current source s)
                (ground (arith, passes, room))
                (Post_mono (Stored current source s) (TakenIn current source s)
                  (store str current source s)
                  (λ document s' stored. record {
                    content = content;
                    clean = clean;
                    room = has_room;
                    stored = stored;
                  })
                  (store-Stored current source s))
        ]
  ]

  store_raises :
      (current : CurrentUser) (source : Source) (s s' : Session) (e : Error)
      → store str current source s ≡ (err e, s')
      → reason_of e ≡ none
  unfolding store write_event
  store_raises current source s s' e h =
      let document = new_document str current source s in
      let inserted : Session = record s {
        next_id = s.next_id + 1;
        db = record s.db { documents = s.documents ++ document ∷ [] };
      } in
      let go_on = λ (x : Result (Unit {0}) × Session).
        ((λ (s' : Session). x) >>= λ u. announce str current source document) inserted in
      elim (tag_if_cases current.tenant_id document.id source.segment_ids inserted) [
        | inl (tags, done) ↦
            let same : ok document ≡ err e = sym (ap (λ x. (go_on x).0) done) ∙ ap (λ x. x.0) h in
            absurd (ground arith)
        | inr (e', other, raises) ↦
            let same : err e' ≡ err e = sym (ap (λ x. (go_on x).0) raises) ∙ ap (λ x. x.0) h in
            ground (arith, other)
      ]

  -- An `IntakeError` is raised before anything is written.
  pub intake_raises :
      (current : CurrentUser) (source : Source) (s s' : Session) (e : Error) (reason : IntakeReason)
      → intake_document str current source s ≡ (err e, s')
      → reason_of e ≡ some reason
      → s' ≡ s
  unfolding intake_document
  intake_raises current source s s' e reason h why = elim (check_content_lem source.content s) [
    | inr (reason', raises) ↦
        let run : intake_document str current source s ≡ (err (Error.intake_failed reason'), s) =
          ground (arith, raises) in
        ap (λ x. x.1) (sym h ∙ run)
    | inl (passes, content, clean) ↦
        elim (enforce_quota_exact current.tenant_id Resource.documents s) [
          | inr (limit, limited, full, raises) ↦
              let failure =
                Error.plan_limit
                  (plan_for s.settings (subscription_for s.db current.tenant_id)).name limit
                  (resource_name Resource.documents) in
              let run : intake_document str current source s ≡ (err failure, s) =
                ground (arith, passes, raises) in
              ap (λ x. x.1) (sym h ∙ run)
          | inl (room, has_room) ↦
              let run : intake_document str current source s ≡ store str current source s =
                ground (arith, passes, room) in
              absurd
                (some-ne-none reason (sym why ∙ store_raises current source s s' e (sym run ∙ h)))
        ]
  ]

  -- What an upload commits.
  pub data Uploaded (current : CurrentUser) (file : Source) (s : Session)
      : Result Document → Db → Type 0 where
    refused :
        {e : Error} {db : Db}
        → db.documents ≡ s.documents
        → db.document_segments ≡ s.document_segments
        → Uploaded current file s (err e) db
    filed :
        {document : Document} {db : Db}
        → is_privileged current.role ≡ true
        → is_allowed s file.filename ≡ true
        → is_clean file.content ≡ true
        → 1 ≤ document.size_bytes
        → document.size_bytes ≤ s.settings.max_upload_bytes
        → HasRoom
            (limit_in s current.tenant_id Resource.documents)
            (used_in s current.tenant_id Resource.documents)
        → document ≡ new_document str current (record file { source = "upload" }) s
        → db.documents ≡ s.documents ++ document ∷ []
        → Uploaded current file s (ok document) db

  on_intake_error_raises :
      (current : CurrentUser) (filename : Text) (e : Error) (s : Session) (d : Document)
      → ¬ ((on_intake_error current filename e s).0 ≡ ok d)
  unfolding record_event_committed
  on_intake_error_raises current filename (Error.intake_failed reason) s d h = ground arith
  on_intake_error_raises current filename e s d h = ground arith

  -- An upload within the cap is read in full.
  read_in_full :
      (file : Text) (s : Session)
      → is_too_large s (read_file s file) ≡ false
      → read_file s file ≡ file
  read_in_full file s small =
      take_all _ file (ground (arith, length-take (s.settings.max_upload_bytes + 1) file))

  abbrev Filed : CurrentUser → Source → Session → Document → Session → Type 0
  Filed current file s document s' = Uploaded current file s (ok document) s'.db

  length-something : (content : Text) → is_nothing content ≡ false → 1 ≤ length content
  length-something [] h = absurd (ground arith)
  length-something (c ∷ content) h = omega arith

  Filed-of :
      (current : CurrentUser) (file : Source) (content : Text) (s : Session)
      → is_privileged current.role ≡ true
      → is_allowed s file.filename ≡ true
      → is_too_large s content ≡ false
      → content ≡ file.content
      → (document : Document) (s' : Session)
      → TakenIn current (record file { content = content; source = "upload" }) s document s'
      → Filed current file s document s'
  Filed-of current file content s manager allowed small same document s' taken =
      let row =
        taken.stored.row
        ∙ ap (λ c. new_document str current (record file { content = c; source = "upload" }) s)
            same in
      let size : document.size_bytes ≡ length file.content =
        ap (λ (d : Document). d.size_bytes) row in
      filed manager allowed (subst (λ c. is_clean c ≡ true) same taken.clean)
        (ground (
          arith,
          size,
          length-something file.content (subst (λ c. is_nothing c ≡ false) same taken.content),
        ))
        (ground (arith, size, subst (λ c. is_too_large s c ≡ false) same small)) taken.room row
        taken.stored.documents

  upload_document-Filed :
      (current : CurrentUser) (file : Source) (s : Session)
      → Post (upload_document str current file s) (Filed current file s)
  unfolding upload_document
  upload_document-Filed current file s =
      let content = read_file s file.content in
      let source : Source = record file { content = content; source = "upload" } in
      let intake =
        catch (intake_document str current source) (on_intake_error current file.filename) in
      elim (Bool-cases (is_privileged current.role)) [
        | inr other ↦
            Post_at (Filed current file s) _ (err Error.authorization, s) (ground arith) tt
        | inl manager ↦ elim (Bool-cases (is_allowed s file.filename)) [
          | inr other ↦
              Post_at (Filed current file s) _ (err Error.unsupported_media_type, s) (ground arith)
                tt
          | inl allowed ↦ elim (Bool-cases (is_too_large s content)) [
            | inl large ↦
                Post_at (Filed current file s) _ (err Error.payload_too_large, s) (ground arith) tt
            | inr small ↦ elim (Bool-cases (is_nothing content)) [
              | inl nothing ↦
                  Post_at (Filed current file s) _ (err Error.empty_file, s) (ground arith) tt
              | inr something ↦ Post_at (Filed current file s) _ (intake s) (ground arith) (
                  Post-catch (Filed current file s) (intake_document str current source)
                    (on_intake_error current file.filename) s
                    (Post_mono (TakenIn current source s) (Filed current file s)
                      (intake_document str current source s)
                      (Filed-of current file content s manager allowed small
                        (read_in_full file.content s small))
                      (intake_document-TakenIn current source s))
                    (λ e s' raises.
                      Post_none (Filed current file s) (on_intake_error current file.filename e s')
                        (on_intake_error_raises current file.filename e s')))
            ]
          ]
        ]
      ]

  committed_of :
      (current : CurrentUser) (file : Source) (s : Session) (x : Result Document × Session)
      → Post x (Filed current file s)
      → Uploaded current file s
          (transaction (λ (s' : Session). x) s).0
          (transaction (λ (s' : Session). x) s).1
  unfolding transaction
  committed_of current file s (err e, s') h = refused refl refl
  committed_of current file s (ok document, s') (filed a b c d e f g h) = filed a b c d e f g h

  -- An upload either is refused, and leaves the documents and their tags as they were, whatever it had
  -- written; or is filed: then the caller is a manager, the type is allowed, the bytes are no known
  -- malware, from one up to the cap of them, all of which were read, the plan had room for a document,
  -- and one row is added, pending and the caller's.
  pub upload_document-Uploaded :
      (current : CurrentUser) (file : Source) (s : Session)
      → Uploaded current file s
          (transaction (upload_document str current file) s).0
          (transaction (upload_document str current file) s).1
  unfolding transaction
  upload_document-Uploaded current file s =
      committed_of current file s (upload_document str current file s)
        (upload_document-Filed current file s)
