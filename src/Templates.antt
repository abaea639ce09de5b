-- ===== src/Templates.antt =====
-- backend/app/services/template_service.py. The dictionary of segments is a list of names with their ids.
mod Starters
pub mod Growth
pub mod Again
pub use Starters.{TemplateObjection, Template, smb_focused, templates}
use enterprise_document_inte.Base.{
  ℕ, ◌+◌, Bool, true, false, Option, none, some, List, [], ◌∷◌, ◌++◌, map, Text, text_eq, any,
  filter, find?, ◌==◌, if◌then◌else◌,
}
use enterprise_document_inte.Errors.{Error}
use enterprise_document_inte.Models.{Db, Segment, RampTopic, SavedObjection}
use enterprise_document_inte.Session.{Exec, gets, pure, or_raise, modify, new_id, ◌>>=◌, ◌>>◌}
use enterprise_document_inte.Segments.{replace_objection_segments}

-- `_Bucket`
pub record Bucket : Type 0 where
  pub created : List Text
  pub skipped : List Text

pub record TemplateApplyResult : Type 0 where
  pub segments : Bucket
  pub ramp_topics : Bucket
  pub objections : Bucket

abbrev pub empty_bucket : Bucket
empty_bucket = record { created = []; skipped = [] }

abbrev pub with_created : Text → Bucket → Bucket
with_created t b = record b { created = t ∷ b.created }

abbrev pub with_skipped : Text → Bucket → Bucket
with_skipped t b = record b { skipped = t ∷ b.skipped }

unfoldable pub get_template : Text → Option Template
get_template template_key = find? (λ (t : Template). text_eq t.key template_key) templates

-- `name in seg_by_name`
abbrev pub is_known : Text → List (Text × ℕ) → Bool
is_known name dict = any (λ (e : Text × ℕ). text_eq e.0 name) dict

abbrev pub seg_by_name : Db → ℕ → List (Text × ℕ)
seg_by_name db tenant_id =
    map (λ (g : Segment). (g.name, g.id))
      (filter (λ (g : Segment). g.tenant_id == tenant_id) db.segments)

abbrev pub add_segment : ℕ → ℕ → Text → Exec ℕ
add_segment tenant_id order name = do
  id ← new_id
  modify (λ db. record db {
    segments =
        db.segments
        ++ (record { id = id; tenant_id = tenant_id; name = name; sort_order = order }) ∷ [];
  })
  pure id

unfoldable pub create_segments :
    ℕ → ℕ → List Text → List (Text × ℕ) → Exec (List (Text × ℕ) × Bucket)
create_segments tenant_id order [] dict = pure (dict, empty_bucket)
create_segments tenant_id order (name ∷ names) dict = elim (is_known name dict) [
  | true ↦
      create_segments tenant_id (order + 1) names dict >>= λ r. pure (r.0, with_skipped name r.1)
  | false ↦ add_segment tenant_id order name >>= λ id.
      create_segments tenant_id (order + 1) names ((name, id) ∷ dict) >>= λ r.
      pure (r.0, with_created name r.1)
]

-- `title in existing_titles`, a set that the loop does not change.
abbrev pub is_in : Text → List Text → Bool
is_in title existing = any (λ t. text_eq t title) existing

abbrev pub titles : Db → ℕ → List Text
titles db tenant_id =
    map (λ (t : RampTopic). t.title)
      (filter (λ (t : RampTopic). t.tenant_id == tenant_id) db.ramp_topics)

abbrev pub add_topic : ℕ → ℕ → Text × Text → Exec (Unit {0})
add_topic tenant_id order topic = do
  id ← new_id
  modify (λ db. record db {
    ramp_topics =
        db.ramp_topics
        ++ (record {
          id = id;
          tenant_id = tenant_id;
          title = topic.0;
          suggested_question = topic.1;
          sort_order = order;
        })
          ∷ [];
  })

unfoldable pub create_topics : ℕ → ℕ → List (Text × Text) → List Text → Exec Bucket
create_topics tenant_id order [] existing = pure empty_bucket
create_topics tenant_id order (topic ∷ topics) existing = elim (is_in topic.0 existing) [
  | true ↦
      create_topics tenant_id (order + 1) topics existing >>= λ b. pure (with_skipped topic.0 b)
  | false ↦ add_topic tenant_id order topic >>= λ u.
      create_topics tenant_id (order + 1) topics existing >>= λ b. pure (with_created topic.0 b)
]

abbrev pub labels : Db → ℕ → List Text
labels db tenant_id =
    map (λ (o : SavedObjection). o.label)
      (filter (λ (o : SavedObjection). o.tenant_id == tenant_id) db.saved_objections)

-- `[seg_by_name[s] for s in obj.segments if s in seg_by_name]`
abbrev cons_found : Option (Text × ℕ) → List ℕ → List ℕ
cons_found none ids = ids
cons_found (some e) ids = e.1 ∷ ids

abbrev pub segment_ids_of : List (Text × ℕ) → List Text → List ℕ
segment_ids_of dict [] = []
segment_ids_of dict (name ∷ names) =
    cons_found (find? (λ (e : Text × ℕ). text_eq e.0 name) dict) (segment_ids_of dict names)

abbrev pub tag_new : ℕ → ℕ → List ℕ → Exec (Unit {0})
tag_new tenant_id objection_id [] = pure tt
tag_new tenant_id objection_id (id ∷ ids) =
    replace_objection_segments tenant_id objection_id (id ∷ ids) >>= λ valid. pure tt

abbrev pub insert_objection : ℕ → ℕ → TemplateObjection → Exec ℕ
insert_objection tenant_id order obj = do
  id ← new_id
  modify (λ db. record db {
    saved_objections =
        db.saved_objections
        ++ (record {
          id = id;
          tenant_id = tenant_id;
          label = obj.label;
          prompt = obj.prompt;
          sort_order = order;
        })
          ∷ [];
  })
  pure id

abbrev pub add_objection : ℕ → ℕ → List (Text × ℕ) → TemplateObjection → Exec (Unit {0})
add_objection tenant_id order dict obj = insert_objection tenant_id order obj >>= λ id.
    tag_new tenant_id id (segment_ids_of dict obj.segments)

unfoldable pub create_objections :
    ℕ → ℕ → List (Text × ℕ) → List TemplateObjection → List Text → Exec Bucket
create_objections tenant_id order dict [] existing = pure empty_bucket
create_objections tenant_id order dict (obj ∷ objs) existing = elim (is_in obj.label existing) [
  | true ↦ create_objections tenant_id (order + 1) dict objs existing >>= λ b.
      pure (with_skipped obj.label b)
  | false ↦ add_objection tenant_id order dict obj >>= λ u.
      create_objections tenant_id (order + 1) dict objs existing >>= λ b.
      pure (with_created obj.label b)
]

-- The third step, then the second and the third, and `apply_template` of a template that was found.
abbrev pub result_of : Bucket → Bucket → Bucket → TemplateApplyResult
result_of segments topics objections = record {
  segments = segments;
  ramp_topics = topics;
  objections = objections;
}

abbrev pub seed_objections :
    ℕ → Template → List (Text × ℕ) × Bucket → Bucket → Exec TemplateApplyResult
seed_objections tenant_id tpl made topics s =
    (create_objections tenant_id 0 made.0 tpl.objections (labels s.db tenant_id) >>= λ objections.
    pure (result_of made.1 topics objections))
      s

abbrev pub seed_topics : ℕ → Template → List (Text × ℕ) × Bucket → Exec TemplateApplyResult
seed_topics tenant_id tpl made s =
    (create_topics tenant_id 0 tpl.ramp_topics (titles s.db tenant_id)
        >>= seed_objections tenant_id tpl made)
      s

unfoldable pub apply_found : ℕ → Template → Exec TemplateApplyResult
apply_found tenant_id tpl s =
    (create_segments tenant_id 0 tpl.segments (seg_by_name s.db tenant_id)
        >>= seed_topics tenant_id tpl)
      s

unfoldable pub apply_template : ℕ → Text → Exec TemplateApplyResult
apply_template tenant_id template_key = do
  tpl ← or_raise (get_template template_key) Error.not_found
  apply_found tenant_id tpl
