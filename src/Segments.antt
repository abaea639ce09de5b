-- ===== src/Segments.antt =====
-- backend/app/services/segment_service.py and backend/app/api/v1/segments.py: the segments of a
-- tenant, and the tags that content has. The rows of a table stand in the order of their creation.
pub mod Tags
use Prim.Native.String.{String}
use enterprise_document_inte.Base.{
  ℕ, Bool, true, false, not, ◌&&◌, ◌||◌, Option, none, some, List, [], ◌∷◌, ◌++◌, map, Text,
  text_eq, filter, find?, any, contains, update, ltb, ◌==◌, if◌then◌else◌,
}
use enterprise_document_inte.Errors.{Error}
use enterprise_document_inte.Models.{
  Db, Segment, DocumentSegment, ObjectionSegment, event, AuditAction,
}
use enterprise_document_inte.Session.{
  Exec, gets, pure, raise_if, or_raise, modify, new_id, ◌>>=◌, ◌>>◌,
}
use enterprise_document_inte.Audit.{write_event}
use enterprise_document_inte.Documents.{CurrentUser}
use enterprise_document_inte.Members.{admin_only}
use enterprise_document_inte.Retrieval.{sort_by}

-- `list(dict.fromkeys(ids))`: each id once, where it comes first.
unfoldable pub fromkeys : List ℕ → List ℕ
fromkeys [] = []
fromkeys (id ∷ ids) = id ∷ filter (λ other. not (other == id)) (fromkeys ids)

-- Does the tenant have the segment?
abbrev pub has_segment : Db → ℕ → ℕ → Bool
has_segment db tenant_id sid =
    any (λ (g : Segment). g.tenant_id == tenant_id && g.id == sid) db.segments

abbrev pub no_ids : List ℕ → Bool
no_ids [] = true
no_ids (id ∷ ids) = false

unfoldable pub validate_segment_ids : ℕ → List ℕ → Exec (List ℕ)
unfolding fromkeys
validate_segment_ids tenant_id segment_ids = do
  missing ← gets (λ s. filter (λ sid. not (has_segment s.db tenant_id sid)) (fromkeys segment_ids))
  raise_if (not (no_ids missing)) Error.not_found
  pure (fromkeys segment_ids)

abbrev pub is_tag_of : ℕ → ℕ → DocumentSegment → Bool
is_tag_of tenant_id document_id row = row.tenant_id == tenant_id && row.document_id == document_id

abbrev pub document_tag : ℕ → ℕ → ℕ → DocumentSegment
document_tag tenant_id document_id sid = record {
  tenant_id = tenant_id;
  document_id = document_id;
  segment_id = sid;
}

-- The unique key of the table is (document, segment), and one flush inserts the new rows before it
-- deletes the former ones.
abbrev pub is_document_tagged : ℕ → List ℕ → DocumentSegment → Bool
is_document_tagged document_id ids row =
    row.document_id == document_id && contains row.segment_id ids

unfoldable pub replace_document_segments : ℕ → ℕ → List ℕ → Exec (List ℕ)
replace_document_segments tenant_id document_id segment_ids = do
  valid ← validate_segment_ids tenant_id segment_ids
  clash ← gets (λ s. any (is_document_tagged document_id valid) s.document_segments)
  raise_if clash Error.integrity
  modify (λ db. record db {
    document_segments =
        filter (λ row. not (is_tag_of tenant_id document_id row)) db.document_segments
        ++ map (document_tag tenant_id document_id) valid;
  })
  pure valid

abbrev pub is_objection_tag_of : ℕ → ℕ → ObjectionSegment → Bool
is_objection_tag_of tenant_id objection_id row =
    row.tenant_id == tenant_id && row.objection_id == objection_id

abbrev pub objection_tag : ℕ → ℕ → ℕ → ObjectionSegment
objection_tag tenant_id objection_id sid = record {
  tenant_id = tenant_id;
  objection_id = objection_id;
  segment_id = sid;
}

-- The unique key of (objection, segment), in the same way.
abbrev pub is_objection_tagged : ℕ → List ℕ → ObjectionSegment → Bool
is_objection_tagged objection_id ids row =
    row.objection_id == objection_id && contains row.segment_id ids

unfoldable pub replace_objection_segments : ℕ → ℕ → List ℕ → Exec (List ℕ)
replace_objection_segments tenant_id objection_id segment_ids = do
  valid ← validate_segment_ids tenant_id segment_ids
  clash ← gets (λ s. any (is_objection_tagged objection_id valid) s.objection_segments)
  raise_if clash Error.integrity
  modify (λ db. record db {
    objection_segments =
        filter (λ row. not (is_objection_tag_of tenant_id objection_id row)) db.objection_segments
        ++ map (objection_tag tenant_id objection_id) valid;
  })
  pure valid

-- The dictionary of the tags, read with `.get(id, [])`.
unfoldable pub segments_for_objections : Db → ℕ → List ℕ → ℕ → List ℕ
segments_for_objections db tenant_id objection_ids id =
    if contains id objection_ids
    then map (λ (row : ObjectionSegment). row.segment_id)
        (filter (is_objection_tag_of tenant_id id) db.objection_segments)
    else []

unfoldable pub segments_for_documents : Db → ℕ → List ℕ → ℕ → List ℕ
segments_for_documents db tenant_id document_ids id =
    if contains id document_ids
    then map (λ (row : DocumentSegment). row.segment_id)
        (filter (is_tag_of tenant_id id) db.document_segments)
    else []

-- The audit rows of the managers' handlers.
abbrev pub managed : CurrentUser → AuditAction → String → ℕ → Exec (Unit {0})
managed current action type id = write_event (record (event current.tenant_id action) {
  actor_user_id = some current.id;
  resource_type = some type;
  resource_id = some id;
  ip_address = current.ip;
  outcome = some "allow";
})

unfoldable pub list_segments : CurrentUser → Exec (List Segment)
list_segments current = gets (λ s.
    sort_by (λ (a b : Segment). ltb b.sort_order a.sort_order)
      (filter (λ (g : Segment). g.tenant_id == current.tenant_id) s.segments))

-- Is the name taken in the tenant, by another segment than `exclude_id`?
abbrev pub is_taken : Option ℕ → ℕ → Text → Segment → Bool
is_taken none tenant_id name g = g.tenant_id == tenant_id && text_eq g.name name
is_taken (some id) tenant_id name g =
    (g.tenant_id == tenant_id && text_eq g.name name) && not (g.id == id)

unfoldable pub ensure_unique_name : CurrentUser → Text → Option ℕ → Exec (Unit {0})
ensure_unique_name current name exclude_id = do
  taken ← gets (λ s. any (is_taken exclude_id current.tenant_id name) s.segments)
  raise_if taken Error.conflict

unfoldable pub create_segment : CurrentUser → Text → ℕ → Exec Segment
unfolding ensure_unique_name
create_segment current name sort_order = do
  admin_only current
  ensure_unique_name current name none
  id ← new_id
  let segment : Segment = record {
    id = id;
    tenant_id = current.tenant_id;
    name = name;
    sort_order = sort_order;
  }
  modify (λ db. record db { segments = db.segments ++ segment ∷ [] })
  managed current AuditAction.segment_created "segment" id
  pure segment

abbrev own_segment : ℕ → Option Segment → Option Segment
own_segment tenant_id none = none
own_segment tenant_id (some g) = if g.tenant_id == tenant_id then some g else none

unfoldable pub load_segment : CurrentUser → ℕ → Exec Segment
load_segment current segment_id = do
  found ←
      gets (λ s.
        own_segment current.tenant_id (find? (λ (g : Segment). g.id == segment_id) s.segments))
  or_raise found Error.not_found

abbrev rename : Option Text → Segment → Segment
rename none g = g
rename (some name) g = record g { name = name }

abbrev reorder : Option ℕ → Segment → Segment
reorder none g = g
reorder (some sort_order) g = record g { sort_order = sort_order }

abbrev pub edited : Option Text → Option ℕ → Segment → Segment
edited name sort_order g = reorder sort_order (rename name g)

abbrev ensure_if : CurrentUser → Option Text → ℕ → Exec (Unit {0})
ensure_if current none id = pure tt
ensure_if current (some name) id = ensure_unique_name current name (some id)

unfoldable pub update_segment : CurrentUser → ℕ → Option Text → Option ℕ → Exec Segment
unfolding load_segment ensure_unique_name
update_segment current segment_id name sort_order = do
  admin_only current
  segment ← load_segment current segment_id
  ensure_if current name segment.id
  modify (λ db. record db {
    segments = update (λ (g : Segment). g.id == segment.id) (edited name sort_order) db.segments;
  })
  managed current AuditAction.segment_updated "segment" segment.id
  pure (edited name sort_order segment)

-- The foreign keys of the tags cascade.
abbrev pub remove_segment : ℕ → Db → Db
remove_segment id db = record db {
  segments = filter (λ (g : Segment). not (g.id == id)) db.segments;
  document_segments =
      filter (λ (row : DocumentSegment). not (row.segment_id == id)) db.document_segments;
  objection_segments =
      filter (λ (row : ObjectionSegment). not (row.segment_id == id)) db.objection_segments;
}

unfoldable pub delete_segment : CurrentUser → ℕ → Exec (Unit {0})
unfolding load_segment
delete_segment current segment_id = do
  admin_only current
  segment ← load_segment current segment_id
  modify (remove_segment segment.id)
  managed current AuditAction.segment_deleted "segment" segment_id
