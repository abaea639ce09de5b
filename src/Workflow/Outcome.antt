-- ===== src/Workflow/Outcome.antt =====
-- How a run of the workflow ends, and when a reviewer is asked.
use enterprise_document_inte.Base.{
  ℕ, ◌≡◌, ◌≤◌, ◌<◌, ◌⊎◌, refl, inl, inr, true, Option, none, some, List, [], ◌∷◌, ◌++◌, arith, Text,
  length, length-take, Bool-cases, codes, ap, map, filter, not, sym, ◌∙◌, max,
}
use enterprise_document_inte.Errors.{Error}
use enterprise_document_inte.Models.{QueryStatus}
use enterprise_document_inte.Session.{Exec, Session, Result, ok, err, ◌>>=◌}
use enterprise_document_inte.Retrieval.{Engine, is_blank}
use enterprise_document_inte.Router.{Node, Route, mode_or}
use enterprise_document_inte.Router.FailClosed.{MustStayPrivate, resolve_fails_closed}
use enterprise_document_inte.Workflow.State.{Verification, RetrievedChunk, AgentState}
use enterprise_document_inte.Workflow.Citations.{build_citations}
use enterprise_document_inte.Workflow.Nodes.{
  Runner, Reply, returned, raised, or_empty, or_question, planned, strip, route_after_verify,
  planner, retriever, verifier, verify_chunks, human_review, synthesized, synthesizer,
  source_attributor, conclude, run_workflow, route,
}
use mathlib.Core.Bool.{false≢true}

module _ {Client : Type 0} {E : Engine} (runner : Runner E Client) where
  -- Why a run is held for a reviewer: the feature is on, and the evidence was not verified, or is
  -- flagged, or the confidence is below the threshold.
  pub data MustReview (s : Session) : Option Verification → Type 0 where
    unverified : s.settings.enable_human_review ≡ true → MustReview s none
    flagged :
        {ver : Verification}
        → s.settings.enable_human_review ≡ true
        → ver.confidentiality_concern ≡ true
        → MustReview s (some ver)
    unsure :
        {ver : Verification}
        → s.settings.enable_human_review ≡ true
        → ver.confidence < s.settings.confidence_threshold
        → MustReview s (some ver)

  review_complete :
      (s : Session) (v : Option Verification)
      → MustReview s v
      → route_after_verify s.settings.enable_human_review s.settings.confidence_threshold v ≡ true
  unfolding route_after_verify
  review_complete s none (unverified on) = on
  review_complete s (some ver) (flagged on concern) = ground arith
  review_complete s (some ver) (unsure on low) = ground arith

  review_sound :
      (s : Session) (v : Option Verification)
      → route_after_verify s.settings.enable_human_review s.settings.confidence_threshold v ≡ true
      → MustReview s v
  unfolding route_after_verify
  review_sound s none h = unverified h
  review_sound s (some ver) h = elim (Bool-cases ver.confidentiality_concern) [
    | inl concern ↦ flagged (ground arith) concern
    | inr clear ↦ unsure (ground arith) (ground arith)
  ]

  -- What follows the verifier either stops for a reviewer, with the state and the session as they were
  -- but for the two keys that say so, and only if there is a reason to; or goes on to the synthesizer
  -- and the source attributor, and only if there is none.
  pub conclude_gate :
      (state : AgentState) (s : Session)
      → (MustReview s state.verification
          × (conclude runner state s ≡ (
            ok (record state {
              requires_approval = some true;
              status = some QueryStatus.pending_approval;
            }),
            s,
          )))
        ⊎ ((¬ MustReview s state.verification)
            × (conclude runner state s ≡ (synthesizer runner state >>= source_attributor runner) s))
  unfolding conclude human_review
  conclude_gate state s =
      elim (Bool-cases (
        route_after_verify s.settings.enable_human_review s.settings.confidence_threshold
          state.verification)) [
            | inl held ↦ inl (review_sound s state.verification held, ground arith)
            | inr free ↦
                inr (
                  λ m. false≢true (sym free ∙ review_complete s state.verification m),
                  ground arith,
                )
          ]

  -- How a state that the graph returns has ended, after `before`.
  pub data Ended (before after : AgentState) : Type 0 where
    held :
        after.status ≡ some QueryStatus.pending_approval
        → after.requires_approval ≡ some true
        → after.answer ≡ before.answer
        → after.citations ≡ before.citations
        → Ended before after
    failed :
        (message : Text)
        → after.status ≡ some QueryStatus.failed
        → after.error ≡ some (codes "synthesis failed: " ++ message)
        → after.answer ≡ before.answer
        → after.citations ≡ before.citations
        → Ended before after
    completed :
        (answer : Text)
        → after.status ≡ some QueryStatus.completed
        → after.answer ≡ some answer
        → after.citations ≡ some (build_citations answer (or_empty after.chunks))
        → Ended before after

  -- A step that leaves the answer, the citations and the status alone.
  abbrev Running : AgentState → AgentState → Type 0
  Running before after =
      (after.status ≡ some QueryStatus.processing)
      × (after.answer ≡ before.answer)
      × (after.citations ≡ before.citations)

  planner-Running :
      (state after : AgentState) (s : Session)
      → (planner runner state s).0 ≡ ok after
      → Running state after
  unfolding planner
  planner-Running state after s h = ground arith

  retriever-Running :
      (before state after : AgentState) (s : Session)
      → Running before state
      → (retriever runner state s).0 ≡ ok after
      → Running before after
  unfolding retriever
  retriever-Running before state after s r h = ground arith

  verify_chunks-Running :
      (before state after : AgentState) (chunks : List RetrievedChunk) (s : Session)
      → Running before state
      → (verify_chunks runner state chunks s).0 ≡ ok after
      → Running before after
  verify_chunks-Running before state after [] s r h = ground arith
  verify_chunks-Running before state after (c ∷ chunks) s r h = ground arith

  verifier-Running :
      (before state after : AgentState) (s : Session)
      → Running before state
      → (verifier runner state s).0 ≡ ok after
      → Running before after
  unfolding verifier
  verifier-Running before state after s r h =
      verify_chunks-Running before state after (or_empty state.chunks) s r h

  synthesizer_step :
      (state : AgentState) (chosen : Route Client) (s : Session)
      → (route runner Node.synthesizer s).0 ≡ ok chosen
      → (synthesizer runner state >>= source_attributor runner) s
        ≡ (synthesized runner state chosen (
                runner.models.complete chosen.client chosen.model state.question
                  (or_empty state.chunks))
              >>= source_attributor runner)
            s
  unfolding synthesizer
  synthesizer_step state chosen s e =
      ap
        (λ r.
          (((λ s'. (r, s')) >>= λ c.
          synthesized runner state c
            (runner.models.complete c.client c.model state.question (or_empty state.chunks)))
              >>= source_attributor runner)
            s)
        e

  synthesized-Ended :
      (before state after : AgentState) (chosen : Route Client) (reply : Reply Text) (s : Session)
      → Running before state
      → ((synthesized runner state chosen reply >>= source_attributor runner) s).0 ≡ ok after
      → Ended before after
  unfolding source_attributor
  synthesized-Ended before state after chosen (returned answer) s r h =
      completed answer (ground arith) (ground arith) (ground arith)
  synthesized-Ended before state after chosen (raised message) s r h =
      failed message (ground arith) (ground arith) (ground arith) (ground arith)

  synthesizer-Ended :
      (before state after : AgentState) (s : Session) (r : Result (Route Client))
      → (route runner Node.synthesizer s).0 ≡ r
      → Running before state
      → ((synthesizer runner state >>= source_attributor runner) s).0 ≡ ok after
      → Ended before after
  unfolding synthesizer
  synthesizer-Ended before state after s (ok chosen) e r h =
      let reply =
        runner.models.complete chosen.client chosen.model state.question (or_empty state.chunks) in
      synthesized-Ended before state after chosen reply s r
        (sym (ap (λ x. x.0) (synthesizer_step state chosen s e)) ∙ h)
  synthesizer-Ended before state after s (err failure) e r h = absurd (ground arith)

  conclude-Ended :
      (before state after : AgentState) (s : Session)
      → Running before state
      → (conclude runner state s).0 ≡ ok after
      → Ended before after
  unfolding conclude human_review
  conclude-Ended before state after s r h = elim (conclude_gate state s) [
    | inl stop ↦
        held (ground (arith, stop.1)) (ground (arith, stop.1)) (ground (arith, stop.1))
          (ground (arith, stop.1))
    | inr go ↦
        synthesizer-Ended before state after s (route runner Node.synthesizer s).0 refl r
          (sym (ap (λ x. x.0) go.1) ∙ h)
  ]

  bind_pair-ok :
      {P A B : Type 0} (x : Result A × Session) (f : A → Exec B) (b : B)
      → (((λ s'. x) >>= f) x.1).0 ≡ ok b
      → ((a : A) → x.0 ≡ ok a → (f a x.1).0 ≡ ok b → P)
      → P
  bind_pair-ok (ok a, s) f b h k = k a refl h
  bind_pair-ok (err e, s) f b h k = absurd (ground arith)

  bind-ok :
      {P A B : Type 0} (m : Exec A) (f : A → Exec B) (s : Session) (b : B)
      → ((m >>= f) s).0 ≡ ok b
      → ((a : A) → (m s).0 ≡ ok a → (f a (m s).1).0 ≡ ok b → P)
      → P
  bind-ok m f s b h k = bind_pair-ok (m s) f b h k

  -- A run that returns has stopped for a reviewer, without an answer of its own; or has failed, with
  -- the message and without one; or is complete, and its citations are those of its answer.
  pub run_workflow-Ended :
      (state after : AgentState) (s : Session)
      → (run_workflow runner state s).0 ≡ ok after
      → Ended state after
  unfolding run_workflow
  run_workflow-Ended state after s h =
      bind-ok (planner runner state)
        (λ a. retriever runner a >>= λ b. verifier runner b >>= conclude runner) s after h
        (λ a ha ka.
          bind-ok (retriever runner a) (λ b. verifier runner b >>= conclude runner)
            (planner runner state s).1 after ka
            (λ b hb kb.
              bind-ok (verifier runner b) (conclude runner)
                (retriever runner a (planner runner state s).1).1 after kb
                (λ c hc kc.
                  conclude-Ended state c after _
                    (verifier-Running state b c _
                      (retriever-Running state a b _ (planner-Running state a s ha) hb) hc)
                    kc)))

  length-or_question :
      (question : Text) (n : ℕ) (reply : Reply (List Text))
      → (1 ≤ length (or_question question (planned n reply)))
        × (length (or_question question (planned n reply)) ≤ max 1 n)
  length-or_question question n reply = at_most (planned n reply) (length-planned reply)
    where
      at_most :
          (ts : List Text)
          → length ts ≤ n
          → (1 ≤ length (or_question question ts)) × (length (or_question question ts) ≤ max 1 n)
      at_most [] le = (omega arith, omega arith)
      at_most (t ∷ ts) le = (omega arith, omega arith)

      length-planned : (reply : Reply (List Text)) → length (planned n reply) ≤ n
      length-planned (returned subqueries) =
          omega (arith, length-take n (map strip (filter (λ t. not (is_blank t)) subqueries)))
      length-planned (raised message) = omega arith

  planner_subqueries_at :
      (state after : AgentState) (s : Session) (r : Result (Route Client))
      → (route runner Node.planner s).0 ≡ r
      → (planner runner state s).0 ≡ ok after
      → (1 ≤ length (or_empty after.subqueries))
        × (length (or_empty after.subqueries) ≤ max 1 s.settings.max_subqueries)
  unfolding planner
  planner_subqueries_at state after s (ok chosen) e h = ground (
    arith,
    length-or_question state.question s.settings.max_subqueries
        (runner.models.plan chosen.client chosen.model state.history state.question),
  )
  planner_subqueries_at state after s (err failure) e h = absurd (ground arith)

  -- A planner that returns leaves at least one sub-query, and at most `MAX_SUBQUERIES` of them (one,
  -- if that is zero), whatever the model answers or raises.
  pub planner_subqueries :
      (state after : AgentState) (s : Session)
      → (planner runner state s).0 ≡ ok after
      → (1 ≤ length (or_empty after.subqueries))
        × (length (or_empty after.subqueries) ≤ max 1 s.settings.max_subqueries)
  planner_subqueries state after s h =
      planner_subqueries_at state after s (route runner Node.planner s).0 refl h

  -- Where no self-hosted client is configured, a run in a private deployment does nothing but raise.
  pub run_workflow_fails_closed :
      (state : AgentState) (s : Session)
      → runner.router.self_hosted_client ≡ none
      → MustStayPrivate
          (mode_or (some runner.deployment_mode) s.settings.deployment_mode)
          runner.tenant_settings
          none
      → run_workflow runner state s ≡ (err Error.llm_routing, s)
  unfolding run_workflow planner
  run_workflow_fails_closed state s alone private =
      elim (resolve_fails_closed s.settings runner.router Node.planner none
        (some runner.tenant_settings) (some runner.deployment_mode)) [
          | inl kept ↦ ground (arith, kept.1, alone)
          | inr free ↦ absurd (free.0 private)
        ]
