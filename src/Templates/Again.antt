-- ===== src/Templates/Again.antt =====
-- A template that is applied a second time creates nothing.
use enterprise_document_inte.Base.{
  ℕ, ◌+◌, ◌≡◌, refl, sym, ◌∙◌, Bool, true, List, [], ◌∷◌, Text, arith, All, ◌==◌,
}
use enterprise_document_inte.Models.{RampTopic, SavedObjection}
use enterprise_document_inte.Session.{Session, ok, pure}
use enterprise_document_inte.Session.Post.{Post, Post-bind, Post_mono}
use enterprise_document_inte.Templates.{
  Template, TemplateObjection, TemplateApplyResult, is_known, seg_by_name, create_segments, is_in,
  titles, create_topics, labels, create_objections, result_of, seed_topics, seed_objections,
  apply_found,
}
use enterprise_document_inte.Templates.Growth.{
  has_name, has_title, has_label, AllNamed, any_rows, known_rows, create_segments-Grown,
  create_topics-Grown, create_objections-Grown,
}

module _ (t : ℕ) where
  -- Where everything is there, a loop only skips.
  create_segments_skips :
      (order : ℕ) (names : List Text) (dict : List (Text × ℕ)) (s : Session)
      → All (λ n. is_known n dict ≡ true) names
      → (skipped : List Text) × (create_segments t order names dict s
          ≡ (ok (dict, record { created = []; skipped = skipped }), s))
  unfolding create_segments
  create_segments_skips order [] dict s h = ([], refl)
  create_segments_skips order (name ∷ names) dict s h =
      let (skipped, same) = create_segments_skips (order + 1) names dict s h.1 in
      (name ∷ skipped, ground (arith, h.0, same))

  create_topics_skips :
      (order : ℕ) (topics : List (Text × Text)) (existing : List Text) (s : Session)
      → All (λ (x : Text × Text). is_in x.0 existing ≡ true) topics
      → (skipped : List Text) × (create_topics t order topics existing s
          ≡ (ok (record { created = []; skipped = skipped }), s))
  unfolding create_topics
  create_topics_skips order [] existing s h = ([], refl)
  create_topics_skips order (topic ∷ topics) existing s h =
      let (skipped, same) = create_topics_skips (order + 1) topics existing s h.1 in
      (topic.0 ∷ skipped, ground (arith, h.0, same))

  create_objections_skips :
      (order : ℕ) (dict : List (Text × ℕ)) (objs : List TemplateObjection) (existing : List Text)
      (s : Session)
      → All (λ (o : TemplateObjection). is_in o.label existing ≡ true) objs
      → (skipped : List Text) × (create_objections t order dict objs existing s
          ≡ (ok (record { created = []; skipped = skipped }), s))
  unfolding create_objections
  create_objections_skips order dict [] existing s h = ([], refl)
  create_objections_skips order dict (obj ∷ objs) existing s h =
      let (skipped, same) = create_objections_skips (order + 1) dict objs existing s h.1 in
      (obj.label ∷ skipped, ground (arith, h.0, same))

  All_of :
      {A : Type 0} (p q : A → Bool) (xs : List A)
      → ((x : A) → p x ≡ true → q x ≡ true)
      → All (λ x. p x ≡ true) xs
      → All (λ x. q x ≡ true) xs
  All_of p q [] f h = tt
  All_of p q (x ∷ xs) f h = (f x h.0, All_of p q xs f h.1)

  -- The tenant has all that a template has.
  record Seeded (tpl : Template) (s : Session) : Type 0 where
    names : AllNamed t s tpl.segments
    titles : All (λ (x : Text × Text). has_title t s x.0 ≡ true) tpl.ramp_topics
    labels : All (λ (o : TemplateObjection). has_label t s o.label ≡ true) tpl.objections

  apply_found-Seeded :
      (tpl : Template) (s : Session) → Post (apply_found t tpl s) (λ r s'. Seeded tpl s')
  unfolding apply_found
  apply_found-Seeded tpl s =
      let Q : TemplateApplyResult → Session → Type 0 = λ r s'. Seeded tpl s' in
      Post-bind Q (create_segments t 0 tpl.segments (seg_by_name s.db t)) (seed_topics t tpl) s
        (create_segments-Grown t 0 tpl.segments (seg_by_name s.db t) s
          (λ n h. sym (known_rows t n s.segments) ∙ h))
        (λ made s1 g1.
          Post-bind Q (create_topics t 0 tpl.ramp_topics (titles s1.db t))
            (seed_objections t tpl made) s1
            (create_topics-Grown t 0 tpl.ramp_topics (titles s1.db t) s1 (λ n h.
              sym (
                any_rows t (λ (r : RampTopic). r.title) (λ (r : RampTopic). r.tenant_id == t) n
                  s1.ramp_topics)
              ∙ h))
            (λ topics s2 g2.
              Post-bind Q (create_objections t 0 made.0 tpl.objections (labels s2.db t))
                (λ objections. pure (result_of made.1 topics objections)) s2
                (create_objections-Grown t 0 made.0 tpl.objections (labels s2.db t) s2 (λ n h.
                  sym (
                    any_rows t (λ (o : SavedObjection). o.label)
                      (λ (o : SavedObjection). o.tenant_id == t) n s2.saved_objections)
                  ∙ h))
                (λ objections s3 g3. record {
                  names =
                      All_of (has_name t s1) (has_name t s3) tpl.segments
                        (λ n h. g3.0.names n (g2.0.names n h)) g1.1;
                  titles =
                      All_of (λ (x : Text × Text). has_title t s2 x.0)
                        (λ (x : Text × Text). has_title t s3 x.0) tpl.ramp_topics
                        (λ x h. g3.0.titles x.0 h) g2.1;
                  labels = g3.1;
                })))

  -- Where the tenant has all of a template, to apply it creates nothing and changes nothing.
  apply_found_of_Seeded :
      (tpl : Template) (s : Session)
      → Seeded tpl s
      → (a b c : List Text) × (apply_found t tpl s ≡ (
        ok (
            result_of
              (record { created = []; skipped = a })
              (record { created = []; skipped = b })
              (record { created = []; skipped = c })),
        s,
      ))
  unfolding apply_found
  apply_found_of_Seeded tpl s seeded =
      let (a, first) = create_segments_skips 0 tpl.segments (seg_by_name s.db t) s (
        All_of (has_name t s) (λ n. is_known n (seg_by_name s.db t)) tpl.segments
          (λ n h. known_rows t n s.segments ∙ h) seeded.names) in
      let (b, second) = create_topics_skips 0 tpl.ramp_topics (titles s.db t) s (
        All_of (λ (x : Text × Text). has_title t s x.0) (λ x. is_in x.0 (titles s.db t))
          tpl.ramp_topics
          (λ x h.
            any_rows t (λ (r : RampTopic). r.title) (λ (r : RampTopic). r.tenant_id == t) x.0
              s.ramp_topics
            ∙ h)
          seeded.titles) in
      let (c, third) =
        create_objections_skips 0 (seg_by_name s.db t) tpl.objections (labels s.db t) s (
          All_of (λ (o : TemplateObjection). has_label t s o.label)
            (λ o. is_in o.label (labels s.db t)) tpl.objections
            (λ o h.
              any_rows t (λ (o : SavedObjection). o.label)
                (λ (o : SavedObjection). o.tenant_id == t) o.label s.saved_objections
              ∙ h)
            seeded.labels) in
      (a, b, c, ground (arith, first, second, third))

  -- What a second application comes to.
  abbrev pub CreatesNothing : Template → TemplateApplyResult → Session → Type 0
  CreatesNothing tpl r s =
      (r' : TemplateApplyResult) × (apply_found t tpl s ≡ (ok r', s))
      × (r'.segments.created ≡ [])
      × (r'.ramp_topics.created ≡ [])
      × (r'.objections.created ≡ [])

  -- After a template has been applied, to apply it once more succeeds, creates no segment, no topic and no
  -- objection, and leaves the session as it is, whatever the tenant had before.
  pub apply_found_again :
      (tpl : Template) (s : Session) → Post (apply_found t tpl s) (CreatesNothing tpl)
  apply_found_again tpl s =
      Post_mono (λ r s'. Seeded tpl s') (CreatesNothing tpl) (apply_found t tpl s)
        (λ r s' seeded.
          let (a, b, c, same) = apply_found_of_Seeded tpl s' seeded in (_, same, refl, refl, refl))
        (apply_found-Seeded tpl s)
