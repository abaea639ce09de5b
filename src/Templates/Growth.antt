-- ===== src/Templates/Growth.antt =====
-- What the three loops of a template leave of the names that a tenant has.
use enterprise_document_inte.Base.{
  ℕ, ◌+◌, ◌≡◌, refl, inl, inr, Bool, true, ◌&&◌, List, [], ◌∷◌, ◌++◌, map, Text, arith, text_eq,
  text_eq_refl, eq_of_text_eq, any, any-append, filter, not, All, ◌==◌, Bool-cases,
}
use mathlib.Core.Path.{subst}
use enterprise_document_inte.Models.{Segment, RampTopic, SavedObjection}
use enterprise_document_inte.Session.{Session, ok, err, pure, ◌>>=◌}
use enterprise_document_inte.Session.Post.{Post, Post-bind, Post_mono, Post_at}
use enterprise_document_inte.Segments.{
  replace_objection_segments, validate_segment_ids, is_objection_tagged, fromkeys, no_ids,
  has_segment, is_objection_tag_of, objection_tag,
}
use enterprise_document_inte.Errors.{Error}
use enterprise_document_inte.Templates.{
  Bucket, TemplateObjection, with_created, with_skipped, is_known, add_segment, create_segments,
  is_in, add_topic, create_topics, segment_ids_of, tag_new, add_objection, create_objections,
}

module _ (t : ℕ) where
  abbrev pub has_name : Session → Text → Bool
  has_name s n = any (λ (g : Segment). g.tenant_id == t && text_eq g.name n) s.segments

  abbrev pub has_title : Session → Text → Bool
  has_title s n = any (λ (r : RampTopic). r.tenant_id == t && text_eq r.title n) s.ramp_topics

  abbrev pub has_label : Session → Text → Bool
  has_label s n =
      any (λ (o : SavedObjection). o.tenant_id == t && text_eq o.label n) s.saved_objections

  -- Nothing that the tenant has is lost.
  pub record Grown (s s' : Session) : Type 0 where
    pub names : (n : Text) → has_name s n ≡ true → has_name s' n ≡ true
    pub titles : (n : Text) → has_title s n ≡ true → has_title s' n ≡ true
    pub labels : (n : Text) → has_label s n ≡ true → has_label s' n ≡ true

  Grown-trans : {a b c : Session} → Grown a b → Grown b c → Grown a c
  Grown-trans p q = record {
    names = λ n h. q.names n (p.names n h);
    titles = λ n h. q.titles n (p.titles n h);
    labels = λ n h. q.labels n (p.labels n h);
  }

  abbrev pub AllNamed : Session → List Text → Type 0
  AllNamed s names = All (λ n. has_name s n ≡ true) names

  any_kept :
      {A : Type 0} (p : A → Bool) (xs : List A) (x : A)
      → any p xs ≡ true
      → any p (xs ++ x ∷ []) ≡ true
  any_kept p xs x h = ground (arith, any-append p xs (x ∷ []))

  any_last :
      {A : Type 0} (p : A → Bool) (xs : List A) (x : A) → p x ≡ true → any p (xs ++ x ∷ []) ≡ true
  any_last p xs x h = ground (arith, any-append p xs (x ∷ []))

  -- What the dictionary names is in the table.
  abbrev pub Synced : List (Text × ℕ) → Session → Type 0
  Synced dict s = (n : Text) → is_known n dict ≡ true → has_name s n ≡ true

  pub any_rows :
      {A : Type 0} (key : A → Text) (own : A → Bool) (n : Text) (xs : List A)
      → is_in n (map key (filter own xs)) ≡ any (λ x. own x && text_eq (key x) n) xs
  any_rows key own n [] = refl
  any_rows key own n (x ∷ xs) = ground (arith, any_rows key own n xs)

  pub known_rows :
      (n : Text) (gs : List Segment)
      → is_known n
          (map (λ (g : Segment). (g.name, g.id)) (filter (λ (g : Segment). g.tenant_id == t) gs))
        ≡ any (λ (g : Segment). g.tenant_id == t && text_eq g.name n) gs
  known_rows n [] = refl
  known_rows n (g ∷ gs) = ground (arith, known_rows n gs)

  add_segment-Grown :
      (order : ℕ) (name : Text) (s : Session)
      → Post (add_segment t order name s) (λ id s'. Grown s s' × (has_name s' name ≡ true))
  add_segment-Grown order name s = (
    record {
      names =
          λ n h. any_kept (λ (g : Segment). g.tenant_id == t && text_eq g.name n) s.segments _ h;
      titles = λ n h. h;
      labels = λ n h. h;
    },
    any_last (λ (g : Segment). g.tenant_id == t && text_eq g.name name) s.segments _
        (ground (arith, text_eq_refl name)),
  )

  abbrev pub SegmentsMade : List Text → Session → List (Text × ℕ) × Bucket → Session → Type 0
  SegmentsMade names s r s' = Grown s s' × AllNamed s' names

  Grown-refl : (s : Session) → Grown s s
  Grown-refl s = record { names = λ n h. h; titles = λ n h. h; labels = λ n h. h }

  known_or_same :
      (n name : Text) (id : ℕ) (dict : List (Text × ℕ)) (s : Session)
      → Synced dict s
      → has_name s name ≡ true
      → is_known n ((name, id) ∷ dict) ≡ true
      → has_name s n ≡ true
  known_or_same n name id dict s sync has h = elim (Bool-cases (text_eq name n)) [
    | inl same ↦ subst (λ m. has_name s m ≡ true) (eq_of_text_eq name n same) has
    | inr other ↦ sync n (ground arith)
  ]

  pub create_segments-Grown :
      (order : ℕ) (names : List Text) (dict : List (Text × ℕ)) (s : Session)
      → Synced dict s
      → Post (create_segments t order names dict s) (SegmentsMade names s)
  unfolding create_segments
  create_segments-Grown order [] dict s sync = (Grown-refl s, tt)
  create_segments-Grown order (name ∷ names) dict s sync =
      let Q = SegmentsMade (name ∷ names) s in
      elim (Bool-cases (is_known name dict)) [
        | inl known ↦
            Post_at Q _
              ((create_segments t (order + 1) names dict >>= λ r. pure (r.0, with_skipped name r.1))
                s)
              (ground (arith, known))
              (Post-bind Q (create_segments t (order + 1) names dict)
                (λ r. pure (r.0, with_skipped name r.1)) s
                (create_segments-Grown (order + 1) names dict s sync)
                (λ r s' h. (h.0, (h.0.names name (sync name known), h.1))))
        | inr unknown ↦
            Post_at Q _
              ((add_segment t order name >>= λ id.
                  create_segments t (order + 1) names ((name, id) ∷ dict) >>= λ r.
                  pure (r.0, with_created name r.1))
                s)
              (ground (arith, unknown))
              (Post-bind {P = λ id s'. Grown s s' × (has_name s' name ≡ true)} Q
                (add_segment t order name)
                (λ id. create_segments t (order + 1) names ((name, id) ∷ dict) >>= λ r.
                  pure (r.0, with_created name r.1))
                s (add_segment-Grown order name s)
                (λ id s1 g.
                  Post-bind Q (create_segments t (order + 1) names ((name, id) ∷ dict))
                    (λ r. pure (r.0, with_created name r.1)) s1
                    (create_segments-Grown (order + 1) names ((name, id) ∷ dict) s1
                      (λ n. known_or_same n name id dict s1 (λ m k. g.0.names m (sync m k)) g.1))
                    (λ r s' h. (Grown-trans g.0 h.0, (h.0.names name g.1, h.1)))))
      ]

  abbrev pub TopicsMade : List (Text × Text) → Session → Bucket → Session → Type 0
  TopicsMade topics s b s' = Grown s s' × All (λ (x : Text × Text). has_title s' x.0 ≡ true) topics

  add_topic-Grown :
      (order : ℕ) (topic : Text × Text) (s : Session)
      → Post (add_topic t order topic s) (λ u s'. Grown s s' × (has_title s' topic.0 ≡ true))
  add_topic-Grown order topic s = (
    record {
      names = λ n h. h;
      titles = λ n h.
          any_kept (λ (r : RampTopic). r.tenant_id == t && text_eq r.title n) s.ramp_topics _ h;
      labels = λ n h. h;
    },
    any_last (λ (r : RampTopic). r.tenant_id == t && text_eq r.title topic.0) s.ramp_topics _
        (ground (arith, text_eq_refl topic.0)),
  )

  pub create_topics-Grown :
      (order : ℕ) (topics : List (Text × Text)) (existing : List Text) (s : Session)
      → ((n : Text) → is_in n existing ≡ true → has_title s n ≡ true)
      → Post (create_topics t order topics existing s) (TopicsMade topics s)
  unfolding create_topics
  create_topics-Grown order [] existing s sync = (Grown-refl s, tt)
  create_topics-Grown order (topic ∷ topics) existing s sync =
      let Q = TopicsMade (topic ∷ topics) s in
      let rest = create_topics t (order + 1) topics existing in
      elim (Bool-cases (is_in topic.0 existing)) [
        | inl known ↦
            Post_at Q _ ((rest >>= λ b. pure (with_skipped topic.0 b)) s) (ground (arith, known)) (
              Post-bind Q rest (λ b. pure (with_skipped topic.0 b)) s
                (create_topics-Grown (order + 1) topics existing s sync)
                (λ b s' h. (h.0, (h.0.titles topic.0 (sync topic.0 known), h.1))))
        | inr unknown ↦
            Post_at Q _
              ((add_topic t order topic >>= λ u. rest >>= λ b. pure (with_created topic.0 b)) s)
              (ground (arith, unknown))
              (Post-bind {P = λ u s'. Grown s s' × (has_title s' topic.0 ≡ true)} Q
                (add_topic t order topic) (λ u. rest >>= λ b. pure (with_created topic.0 b)) s
                (add_topic-Grown order topic s)
                (λ u s1 g.
                  Post-bind Q rest (λ b. pure (with_created topic.0 b)) s1
                    (create_topics-Grown (order + 1) topics existing s1
                      (λ n k. g.0.titles n (sync n k)))
                    (λ b s' h. (Grown-trans g.0 h.0, (h.0.titles topic.0 g.1, h.1)))))
      ]

  tag_new-Grown :
      (id : ℕ) (ids : List ℕ) (s : Session) → Post (tag_new t id ids s) (λ u s'. Grown s s')
  unfolding replace_objection_segments validate_segment_ids
  tag_new-Grown id [] s = Grown-refl s
  tag_new-Grown id (k ∷ ids) s =
      let Q : Unit {0} → Session → Type 0 = λ u s'. Grown s s' in
      let wanted = fromkeys (k ∷ ids) in
      let tagged : Session = record s {
        db = record s.db {
          objection_segments =
              filter (λ row. not (is_objection_tag_of t id row)) s.objection_segments
              ++ map (objection_tag t id) wanted;
        };
      } in
      elim (Bool-cases (no_ids (filter (λ sid. not (has_segment s.db t sid)) wanted))) [
        | inl all ↦ elim (Bool-cases (any (is_objection_tagged id wanted) s.objection_segments)) [
          | inl clash ↦ Post_at Q _ (err Error.integrity, s) (ground arith) tt
          | inr free ↦
              Post_at Q _ (ok tt, tagged) (ground arith)
                (record { names = λ n h. h; titles = λ n h. h; labels = λ n h. h })
        ]
        | inr missing ↦ Post_at Q _ (err Error.not_found, s) (ground arith) tt
      ]

  abbrev pub ObjectionsMade : List TemplateObjection → Session → Bucket → Session → Type 0
  ObjectionsMade objs s b s' =
      Grown s s' × All (λ (o : TemplateObjection). has_label s' o.label ≡ true) objs

  add_objection-Grown :
      (order : ℕ) (dict : List (Text × ℕ)) (obj : TemplateObjection) (s : Session)
      → Post
          (add_objection t order dict obj s)
          (λ u s'. Grown s s' × (has_label s' obj.label ≡ true))
  add_objection-Grown order dict obj s =
      let row : SavedObjection = record {
        id = s.next_id;
        tenant_id = t;
        label = obj.label;
        prompt = obj.prompt;
        sort_order = order;
      } in
      let s1 : Session = record s {
        next_id = s.next_id + 1;
        db = record s.db { saved_objections = s.saved_objections ++ row ∷ [] };
      } in
      let grown : Grown s s1 = record {
        names = λ n h. h;
        titles = λ n h. h;
        labels = λ n h.
            any_kept (λ (o : SavedObjection). o.tenant_id == t && text_eq o.label n)
              s.saved_objections row h;
      } in
      let has : has_label s1 obj.label ≡ true =
        any_last (λ (o : SavedObjection). o.tenant_id == t && text_eq o.label obj.label)
          s.saved_objections row (ground (arith, text_eq_refl obj.label)) in
      Post_mono (λ u s'. Grown s1 s') (λ u s'. Grown s s' × (has_label s' obj.label ≡ true))
        (tag_new t s.next_id (segment_ids_of dict obj.segments) s1)
        (λ u s' g. (Grown-trans grown g, g.labels obj.label has))
        (tag_new-Grown s.next_id (segment_ids_of dict obj.segments) s1)

  pub create_objections-Grown :
      (order : ℕ) (dict : List (Text × ℕ)) (objs : List TemplateObjection) (existing : List Text)
      (s : Session)
      → ((n : Text) → is_in n existing ≡ true → has_label s n ≡ true)
      → Post (create_objections t order dict objs existing s) (ObjectionsMade objs s)
  unfolding create_objections
  create_objections-Grown order dict [] existing s sync = (Grown-refl s, tt)
  create_objections-Grown order dict (obj ∷ objs) existing s sync =
      let Q = ObjectionsMade (obj ∷ objs) s in
      let rest = create_objections t (order + 1) dict objs existing in
      elim (Bool-cases (is_in obj.label existing)) [
        | inl known ↦
            Post_at Q _ ((rest >>= λ b. pure (with_skipped obj.label b)) s) (ground (arith, known))
              (Post-bind Q rest (λ b. pure (with_skipped obj.label b)) s
                (create_objections-Grown (order + 1) dict objs existing s sync)
                (λ b s' h. (h.0, (h.0.labels obj.label (sync obj.label known), h.1))))
        | inr unknown ↦
            Post_at Q _
              ((add_objection t order dict obj >>= λ u.
                  rest >>= λ b. pure (with_created obj.label b))
                s)
              (ground (arith, unknown))
              (Post-bind {P = λ u s'. Grown s s' × (has_label s' obj.label ≡ true)} Q
                (add_objection t order dict obj)
                (λ u. rest >>= λ b. pure (with_created obj.label b)) s
                (add_objection-Grown order dict obj s)
                (λ u s1 g.
                  Post-bind Q rest (λ b. pure (with_created obj.label b)) s1
                    (create_objections-Grown (order + 1) dict objs existing s1
                      (λ n k. g.0.labels n (sync n k)))
                    (λ b s' h. (Grown-trans g.0 h.0, (h.0.labels obj.label g.1, h.1)))))
      ]
