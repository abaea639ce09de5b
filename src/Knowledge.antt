-- ===== src/Knowledge.antt =====
-- The saved objections and the ramp topics of a tenant: backend/app/api/v1/objections.py and ramp.py. The
-- rows of a table stand in the order of their creation.
use enterprise_document_inte.Base.{
  ℕ, Bool, true, not, ◌&&◌, Option, none, some, List, [], ◌∷◌, ◌++◌, map, Text, filter, find?, any,
  update, ltb, ◌==◌, if◌then◌else◌,
}
use enterprise_document_inte.Errors.{Error}
use enterprise_document_inte.Models.{Db, SavedObjection, ObjectionSegment, RampTopic, AuditAction}
use enterprise_document_inte.Session.{Exec, gets, pure, or_raise, modify, new_id, ◌>>=◌, ◌>>◌}
use enterprise_document_inte.Documents.{CurrentUser}
use enterprise_document_inte.Members.{admin_only}
use enterprise_document_inte.Retrieval.{sort_by}
use enterprise_document_inte.Segments.{managed, replace_objection_segments, segments_for_objections}

-- `_to_read`: an objection with its segments.
pub record SavedObjectionRead : Type 0 where
  pub objection : SavedObjection
  pub segment_ids : List ℕ

abbrev pub to_read : SavedObjection → List ℕ → SavedObjectionRead
to_read objection segment_ids = record { objection = objection; segment_ids = segment_ids }

-- The join with the tags, where a segment is asked for.
abbrev pub in_segment : Db → Option ℕ → SavedObjection → Bool
in_segment db none o = true
in_segment db (some segment_id) o =
    any (λ (row : ObjectionSegment). row.objection_id == o.id && row.segment_id == segment_id)
      db.objection_segments

abbrev pub is_selected : Db → ℕ → Option ℕ → SavedObjection → Bool
is_selected db tenant_id segment_id o = o.tenant_id == tenant_id && in_segment db segment_id o

abbrev pub objection_ids : List SavedObjection → List ℕ
objection_ids rows = map (λ (o : SavedObjection). o.id) rows

unfoldable pub list_objections : CurrentUser → Option ℕ → Exec (List SavedObjectionRead)
list_objections current segment_id = do
  rows ← gets (λ s.
      sort_by (λ (a b : SavedObjection). ltb b.sort_order a.sort_order)
        (filter (is_selected s.db current.tenant_id segment_id) s.saved_objections))
  gets (λ s.
      map
        (λ o. to_read o (segments_for_objections s.db current.tenant_id (objection_ids rows) o.id))
        rows)

-- `if body.segment_ids is not None`
abbrev pub tag_objection : CurrentUser → ℕ → Option (List ℕ) → Exec (List ℕ)
tag_objection current objection_id none = pure []
tag_objection current objection_id (some ids) =
    replace_objection_segments current.tenant_id objection_id ids

unfoldable pub create_objection :
    CurrentUser → Text → Text → ℕ → Option (List ℕ) → Exec SavedObjectionRead
create_objection current label prompt sort_order segment_ids = do
  admin_only current
  id ← new_id
  let objection : SavedObjection = record {
    id = id;
    tenant_id = current.tenant_id;
    label = label;
    prompt = prompt;
    sort_order = sort_order;
  }
  modify (λ db. record db { saved_objections = db.saved_objections ++ objection ∷ [] })
  tags ← tag_objection current id segment_ids
  managed current AuditAction.objection_created "saved_objection" id
  pure (to_read objection tags)

abbrev own_objection : ℕ → Option SavedObjection → Option SavedObjection
own_objection tenant_id none = none
own_objection tenant_id (some o) = if o.tenant_id == tenant_id then some o else none

unfoldable pub load_objection : CurrentUser → ℕ → Exec SavedObjection
load_objection current objection_id = do
  found ← gets (λ s.
      own_objection current.tenant_id
        (find? (λ (o : SavedObjection). o.id == objection_id) s.saved_objections))
  or_raise found Error.not_found

-- `if body.x is not None`
abbrev given : {A : Type 0} → A → Option A → A
given a none = a
given a (some b) = b

abbrev edited_objection : Option Text → Option Text → Option ℕ → SavedObjection → SavedObjection
edited_objection label prompt sort_order o = record o {
  label = given o.label label;
  prompt = given o.prompt prompt;
  sort_order = given o.sort_order sort_order;
}

unfoldable pub update_objection :
    CurrentUser
    → ℕ
    → Option Text
    → Option Text
    → Option ℕ
    → Option (List ℕ)
    → Exec SavedObjectionRead
unfolding load_objection
update_objection current objection_id label prompt sort_order segment_ids = do
  admin_only current
  objection ← load_objection current objection_id
  let edited = edited_objection label prompt sort_order
  modify (λ db. record db {
    saved_objections =
        update (λ (o : SavedObjection). o.id == objection.id) edited db.saved_objections;
  })
  valid ← tag_objection current objection.id segment_ids
  managed current AuditAction.objection_updated "saved_objection" objection.id
  tags ← gets (λ s. segments_for_objections s.db current.tenant_id (objection.id ∷ []) objection.id)
  pure (to_read (edited objection) tags)

-- The foreign key of the tags cascades.
unfoldable pub delete_objection : CurrentUser → ℕ → Exec (Unit {0})
unfolding load_objection
delete_objection current objection_id = do
  admin_only current
  objection ← load_objection current objection_id
  modify (λ db. record db {
    saved_objections =
        filter (λ (o : SavedObjection). not (o.id == objection.id)) db.saved_objections;
    objection_segments =
        filter (λ (row : ObjectionSegment). not (row.objection_id == objection.id))
          db.objection_segments;
  })
  managed current AuditAction.objection_deleted "saved_objection" objection_id

unfoldable pub list_ramp_topics : CurrentUser → Exec (List RampTopic)
list_ramp_topics current = gets (λ s.
    sort_by (λ (a b : RampTopic). ltb b.sort_order a.sort_order)
      (filter (λ (t : RampTopic). t.tenant_id == current.tenant_id) s.ramp_topics))

unfoldable pub create_ramp_topic : CurrentUser → Text → Text → ℕ → Exec RampTopic
create_ramp_topic current title suggested_question sort_order = do
  admin_only current
  id ← new_id
  let topic : RampTopic = record {
    id = id;
    tenant_id = current.tenant_id;
    title = title;
    suggested_question = suggested_question;
    sort_order = sort_order;
  }
  modify (λ db. record db { ramp_topics = db.ramp_topics ++ topic ∷ [] })
  managed current AuditAction.ramp_topic_created "ramp_topic" id
  pure topic

abbrev own_topic : ℕ → Option RampTopic → Option RampTopic
own_topic tenant_id none = none
own_topic tenant_id (some t) = if t.tenant_id == tenant_id then some t else none

unfoldable pub load_topic : CurrentUser → ℕ → Exec RampTopic
load_topic current topic_id = do
  found ←
      gets (λ s.
        own_topic current.tenant_id (find? (λ (t : RampTopic). t.id == topic_id) s.ramp_topics))
  or_raise found Error.not_found

abbrev edited_topic : Option Text → Option Text → Option ℕ → RampTopic → RampTopic
edited_topic title suggested_question sort_order t = record t {
  title = given t.title title;
  suggested_question = given t.suggested_question suggested_question;
  sort_order = given t.sort_order sort_order;
}

unfoldable pub update_ramp_topic :
    CurrentUser → ℕ → Option Text → Option Text → Option ℕ → Exec RampTopic
unfolding load_topic
update_ramp_topic current topic_id title suggested_question sort_order = do
  admin_only current
  topic ← load_topic current topic_id
  let edited = edited_topic title suggested_question sort_order
  modify (λ db. record db {
    ramp_topics = update (λ (t : RampTopic). t.id == topic.id) edited db.ramp_topics;
  })
  managed current AuditAction.ramp_topic_updated "ramp_topic" topic.id
  pure (edited topic)

unfoldable pub delete_ramp_topic : CurrentUser → ℕ → Exec (Unit {0})
unfolding load_topic
delete_ramp_topic current topic_id = do
  admin_only current
  topic ← load_topic current topic_id
  modify (λ db. record db {
    ramp_topics = filter (λ (t : RampTopic). not (t.id == topic.id)) db.ramp_topics;
  })
  managed current AuditAction.ramp_topic_deleted "ramp_topic" topic_id
