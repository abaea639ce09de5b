-- ===== src/Examples/Answers.antt =====
-- Retrieval and the workflow at concrete inputs.
use enterprise_document_inte.Base.{
  ◌↔◌, ℕ, ◌≡◌, ◌≤◌, ◌⊎◌, refl, true, false, none, some, List, [], ◌∷◌, All, length, max, codes,
  ◌==◌, lower,
}
use enterprise_document_inte.Models.{QueryStatus, permission_eq}
use enterprise_document_inte.Session.{ok, ◌>>=◌}
use enterprise_document_inte.Audit.{build, write_event}
use enterprise_document_inte.Authz.{
  assert_can, can_access_document, may_access, is_privileged, get_document, user_group_ids,
  grant_matches, principal_matches, is_visibility, accessible_document_ids, ungranted_ids,
  add_granted,
}
use enterprise_document_inte.Documents.{delete_document, load_document, manageable_document}
use enterprise_document_inte.Retrieval.{
  ScoredChunk, hybrid_search, is_blank, vector_pg, vector_python, vector_search, gather_dense,
  gather_sparse, blend, scoped_chunks, search_python, search_pg, search, insert_by, sort_by, minmax,
  cosine_similarity, add_ranks, fusion_scores, find_words, tokenize, tokens_of, term_score,
  bm25_from,
}
use enterprise_document_inte.Retrieval.Scoped.{InScope, hybrid_search-InScope}
use enterprise_document_inte.Retrieval.Results.{hybrid_search_after_delete}
use enterprise_document_inte.Router.{resolve, cloud_model, cloud_route, self_hosted_route}
use enterprise_document_inte.Workflow.{
  RetrievedChunk, AgentState, Runner, or_empty, build_citations, markers, planner, retriever,
  verifier, synthesizer, source_attributor, human_review, conclude, run_workflow,
  route_after_verify, retrieve, strip, merge_results, search_all, retrieved, advance, completed,
  cite_all, insert_marker, markers_from, is_digit, digit_value,
}
use enterprise_document_inte.Workflow.Marks.{IsSourced, cites, build_citations_exact}
use enterprise_document_inte.Workflow.Brackets.{IsMarked}
use enterprise_document_inte.Workflow.Outcome.{
  MustReview, Ended, conclude_gate, run_workflow-Ended, planner_subqueries,
}
use enterprise_document_inte.Workflow.Sources.{MayQuery, retriever-MayQuery}
use enterprise_document_inte.Fixtures.{db, session, settings, owner, numbers, sure, runner}

hybrid_search-InScope_example :
    All
      (λ (r : ScoredChunk numbers). InScope 1 (some (20 ∷ [])) r.chunk)
      (hybrid_search numbers settings 0 true db 1
        (codes "notice")
        (1 ∷ [])
        none
        none
        none
        (some (20 ∷ [])))
hybrid_search-InScope_example =
    hybrid_search-InScope numbers settings 0 true db 1 (codes "notice") (1 ∷ []) none none none
      (some (20 ∷ []))

hybrid_search_after_delete_example :
    All
      (λ (r : ScoredChunk numbers). (r.chunk.document_id == 20) ≡ false)
      (hybrid_search numbers settings 0 true
        (delete_document owner 20 session).1.db
        1
        (codes "notice")
        (1 ∷ [])
        none
        none
        none
        none)
unfolding delete_document load_document manageable_document assert_can write_event
    can_access_document may_access is_privileged get_document
hybrid_search_after_delete_example =
    hybrid_search_after_delete numbers settings 0 true (codes "notice") (1 ∷ []) none none none none
      owner 20 session refl

abbrev sources : List RetrievedChunk
sources =
    (record {
      chunk_id = 30;
      document_id = 20;
      chunk_index = 0;
      text = codes "thirty days";
      filename = codes "a.pdf";
    })
    ∷ []

build_citations_exact_example :
    All (IsSourced sources) (build_citations (codes "See [1] and [7].") sources)
    × ((n : ℕ)
        → (cites n (build_citations (codes "See [1] and [7].") sources) ≡ true)
          ↔ (IsMarked (codes "See [1] and [7].") n × (1 ≤ n) × (n ≤ length sources)))
build_citations_exact_example = build_citations_exact (codes "See [1] and [7].") sources

-- The same runner in an air-gapped deployment.
abbrev sealed : Runner numbers ℕ
sealed = record runner { deployment_mode = "air_gapped" }

abbrev asked : AgentState
asked = record {
  question = codes "What is the notice period?";
  history = [];
  subqueries = none;
  chunks = none;
  verification = none;
  requires_approval = none;
  answer = none;
  citations = none;
  status = none;
  error = none;
}

abbrev planned_state : AgentState
planned_state = record asked {
  subqueries = some (codes "notice" ∷ []);
  status = some QueryStatus.processing;
}

conclude_gate_example :
    (MustReview runner session none
      × (conclude runner asked session ≡ (
        ok (record asked {
          requires_approval = some true;
          status = some QueryStatus.pending_approval;
        }),
        session,
      )))
    ⊎ ((¬ MustReview runner session none)
        × (conclude runner asked session
            ≡ (synthesizer runner asked >>= source_attributor runner) session))
conclude_gate_example = conclude_gate runner asked session

planner_subqueries_example :
    (1 ≤ length (or_empty planned_state.subqueries))
    × (length (or_empty planned_state.subqueries) ≤ max 1 4)
unfolding planner resolve write_event is_blank strip
planner_subqueries_example = planner_subqueries runner asked planned_state session refl

abbrev retrieved_state : AgentState
retrieved_state = record planned_state {
  chunks = some (retrieve runner session (codes "notice" ∷ []));
}

retriever-MayQuery_example :
    All (MayQuery runner session) (or_empty retrieved_state.chunks)
    × (length (or_empty retrieved_state.chunks) ≤ 8)
unfolding retriever
retriever-MayQuery_example = retriever-MayQuery runner session planned_state retrieved_state refl

-- The member's document is the one source, and the answer cites it.
abbrev final_state : AgentState
final_state = record planned_state {
  chunks = some (
      (record {
        chunk_id = 30;
        document_id = 20;
        chunk_index = 30;
        text = codes "notice period";
        filename = codes "a.pdf";
      })
      ∷ []);
  verification = some sure;
  answer = some (codes "Thirty days [1].");
  citations = some (
      (record {
        marker = 1;
        document_id = 20;
        chunk_id = 30;
        filename = codes "a.pdf";
        snippet = codes "notice period";
      })
      ∷ []);
  status = some QueryStatus.completed;
}

run_workflow-Ended_example : Ended runner asked final_state
unfolding run_workflow planner resolve write_event is_blank strip retriever verifier retrieve
    sort_by search_all merge_results hybrid_search accessible_document_ids is_privileged add_granted
    grant_matches permission_eq ungranted_ids is_visibility blend gather_sparse search build
    get_document principal_matches user_group_ids lower gather_dense vector_pg vector_python
    vector_search bm25_from find_words scoped_chunks search_pg search_python term_score tokenize
    tokens_of add_ranks cosine_similarity fusion_scores insert_by minmax cloud_model cloud_route
    self_hosted_route advance is_digit digit_value build_citations cite_all completed insert_marker
    markers markers_from conclude human_review retrieved route_after_verify source_attributor
    synthesizer
run_workflow-Ended_example = run_workflow-Ended runner asked final_state session refl
