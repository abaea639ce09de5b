-- ===== src/Workflow/Nodes.antt =====
-- backend/app/agents/nodes.py and workflow.py. The models, the embedder and the search engine are
-- parameters: a call of a model returns, or it raises with a message. The prompts are functions of the
-- question, the history and the sources, so a model is given these.
use Prim.Native.String.{String}
use enterprise_document_inte.Base.{
  ℕ, Bool, true, false, not, ◌&&◌, ◌||◌, Option, none, some, List, [], ◌∷◌, ◌++◌, map, Text, codes,
  filter, take, length, ◌==◌, ltb, if◌then◌else◌,
}
use mathlib.Core.List.{reverse}
use enterprise_document_inte.Models.{
  Db, Document, QueryStatus, UserRole, Permission, event, AuditAction, Json, AuditLog,
}
use enterprise_document_inte.Session.{Exec, Session, gets, pure, ◌>>=◌, ◌>>◌}
use enterprise_document_inte.Audit.{write_event}
use enterprise_document_inte.Authz.{accessible_document_ids, get_document}
use enterprise_document_inte.Router.{Node, Route, ModelRouter, TenantSettings, Profile, resolve}
use enterprise_document_inte.Retrieval.{
  Engine, ScoredChunk, scores_less, sort_by, hybrid_search, is_space, is_blank,
}
use enterprise_document_inte.Workflow.State.{Verification, RetrievedChunk, AgentState}
use enterprise_document_inte.Workflow.Citations.{build_citations}

pub data Reply {ℓ} (A : Type ℓ) : Type ℓ where
  returned : A → Reply A
  raised : Text → Reply A

-- The calls of a client with a model's name.
pub record Models (Client : Type 0) : Type 0 where
  pub plan : Client → String → List (Text × Text) → Text → Reply (List Text)
  pub verify : Client → String → Text → List RetrievedChunk → Reply Verification
  pub complete : Client → String → Text → List RetrievedChunk → Reply Text

-- `WorkflowRunner`: one request's context.
pub record Runner (E : Engine) (Client : Type 0) : Type 0 where
  pub tenant_id : ℕ
  pub user_id : ℕ
  pub role : UserRole
  pub trace_id : Option Text
  pub router : ModelRouter Client
  pub tenant_settings : TenantSettings
  pub deployment_mode : String
  pub models : Models Client
  pub embed_query : Text → List (E.Float)
  pub rerank_weight : E.Float
  pub postgres : Bool

abbrev drop_spaces : Text → Text
drop_spaces [] = []
drop_spaces (c ∷ text) = elim (is_space c) [ true ↦ drop_spaces text | false ↦ c ∷ text ]

-- `s.strip()`
unfoldable pub strip : Text → Text
strip text = reverse (drop_spaces (reverse (drop_spaces text)))

abbrev profile_value : Profile → String
profile_value Profile.cloud = "cloud"
profile_value Profile.self_hosted = "self_hosted"

abbrev pub or_empty : {A : Type 0} → Option (List A) → List A
or_empty none = []
or_empty (some xs) = xs

-- `{s.strip() for s in plan.subqueries if s.strip()}[:MAX_SUBQUERIES]`, and none after an exception.
abbrev pub planned : ℕ → Reply (List Text) → List Text
planned max_subqueries (returned subqueries) =
    take max_subqueries (map strip (filter (λ t. not (is_blank t)) subqueries))
planned max_subqueries (raised message) = []

-- `subs or [question]`
abbrev pub or_question : Text → List Text → List Text
or_question question [] = question ∷ []
or_question question (t ∷ ts) = t ∷ ts

abbrev verified : Reply Verification → Verification
verified (returned ver) = ver
verified (raised message) = record {
  confidence = 0;
  is_grounded = false;
  confidentiality_concern = false;
  issues = (codes "verifier error: " ++ message) ∷ [];
}

abbrev pub no_sources : Verification
no_sources = record {
  confidence = 0;
  is_grounded = false;
  confidentiality_concern = false;
  issues = codes "no sources retrieved" ∷ [];
}

abbrev is_failed : Option QueryStatus → Bool
is_failed (some QueryStatus.failed) = true
is_failed _ = false

-- The conditional edge: `true` is "human_review".
unfoldable pub route_after_verify : Bool → ℕ → Option Verification → Bool
route_after_verify enable_human_review threshold none = enable_human_review
route_after_verify enable_human_review threshold (some ver) =
    enable_human_review && (ver.confidentiality_concern || ltb ver.confidence threshold)

module _ {Client : Type 0} {E : Engine} (runner : Runner E Client) where
  abbrev pub route : Node → Exec (Route Client)
  route node s = (
    resolve Client s.settings runner.router node none (some runner.tenant_settings)
        (some runner.deployment_mode),
    s,
  )

  abbrev llm_call : String → String → List (String × Json) → AuditLog
  llm_call node model extra = record (event runner.tenant_id AuditAction.llm_call) {
    actor_user_id = some runner.user_id;
    resource_type = some "llm";
    event_metadata = ("node", Json.word node) ∷ ("model", Json.word model) ∷ extra;
    trace_id = runner.trace_id;
  }

  unfoldable pub planner : AgentState → Exec AgentState
  planner state = do
    chosen ← route Node.planner
    max_subqueries ← gets (λ s. s.settings.max_subqueries)
    let subs = or_question state.question (
        planned max_subqueries
          (runner.models.plan chosen.client chosen.model state.history state.question))
    write_event (
        llm_call "planner" chosen.model (
          ("subqueries", Json.num (length subs))
          ∷ ("profile", Json.word (profile_value chosen.profile))
          ∷ []))
    pure (record state { subqueries = some subs; status = some QueryStatus.processing })

  -- `merged`: the best score of each chunk.
  abbrev pub keep_best : ScoredChunk E → List (ScoredChunk E) → List (ScoredChunk E)
  keep_best sc [] = sc ∷ []
  keep_best sc (cur ∷ rest) =
      if cur.chunk.id == sc.chunk.id
      then (if E.lt cur.score sc.score then sc else cur) ∷ rest
      else cur ∷ keep_best sc rest

  unfoldable pub merge_results : List (ScoredChunk E) → List (ScoredChunk E) → List (ScoredChunk E)
  merge_results [] merged = merged
  merge_results (sc ∷ results) merged = merge_results results (keep_best sc merged)

  unfoldable pub search_all :
      Session → Option (List ℕ) → List Text → List (ScoredChunk E) → List (ScoredChunk E)
  search_all s allowed [] merged = merged
  search_all s allowed (sq ∷ subqueries) merged = search_all s allowed subqueries (
      merge_results
        (hybrid_search E s.settings runner.rerank_weight runner.postgres s.db runner.tenant_id sq
          (runner.embed_query sq) none none (some s.settings.final_top_k) allowed)
        merged)

  abbrev filename_of : Option Document → Text
  filename_of none = []
  filename_of (some d) = d.filename

  unfoldable pub retrieved : Db → ScoredChunk E → RetrievedChunk
  retrieved db sc = record {
    chunk_id = sc.chunk.id;
    document_id = sc.chunk.document_id;
    chunk_index = sc.chunk.chunk_index;
    text = E.decrypt_str sc.chunk.content_encrypted;
    filename = filename_of (get_document db sc.chunk.document_id);
  }

  -- The chunks of all sub-queries, best first, in the documents that the caller may query.
  unfoldable pub retrieve : Session → List Text → List RetrievedChunk
  retrieve s subqueries =
      let allowed =
        accessible_document_ids s.db runner.tenant_id runner.user_id runner.role Permission.query in
      map (retrieved s.db)
        (take s.settings.final_top_k (sort_by (scores_less E) (search_all s allowed subqueries [])))

  unfoldable pub retriever : AgentState → Exec AgentState
  retriever state = do
    chunks ← gets (λ s. retrieve s (or_empty state.subqueries))
    pure (record state { chunks = some chunks })

  abbrev pub verify_chunks : AgentState → List RetrievedChunk → Exec AgentState
  verify_chunks state [] = pure (record state { verification = some no_sources })
  verify_chunks state (c ∷ chunks) = do
    chosen ← route Node.verifier
    let ver = verified (runner.models.verify chosen.client chosen.model state.question (c ∷ chunks))
    write_event (
        llm_call "verifier" chosen.model (
          ("confidence", Json.num ver.confidence)
          ∷ ("profile", Json.word (profile_value chosen.profile))
          ∷ []))
    pure (record state { verification = some ver })

  unfoldable pub verifier : AgentState → Exec AgentState
  verifier state = verify_chunks state (or_empty state.chunks)

  unfoldable pub human_review : AgentState → Exec AgentState
  human_review state =
      pure
        (record state { requires_approval = some true; status = some QueryStatus.pending_approval })

  abbrev pub synthesized : AgentState → Route Client → Reply Text → Exec AgentState
  synthesized state chosen (returned answer) = do
    write_event (
        llm_call "synthesizer" chosen.model
          (("profile", Json.word (profile_value chosen.profile)) ∷ []))
    pure (record state { answer = some answer })
  synthesized state chosen (raised message) = do
    write_event (
        llm_call "synthesizer" chosen.model
          (("profile", Json.word (profile_value chosen.profile)) ∷ ("error", Json.flag true) ∷ []))
    pure (record state {
      status = some QueryStatus.failed;
      error = some (codes "synthesis failed: " ++ message);
    })

  unfoldable pub synthesizer : AgentState → Exec AgentState
  synthesizer state = do
    chosen ← route Node.synthesizer
    synthesized state chosen
        (runner.models.complete chosen.client chosen.model state.question (or_empty state.chunks))

  unfoldable pub source_attributor : AgentState → Exec AgentState
  source_attributor state = pure (
      if is_failed state.status then state else record state {
        citations = some (build_citations (or_empty state.answer) (or_empty state.chunks));
        status = some QueryStatus.completed;
      })

  -- The graph after the verifier.
  unfoldable pub conclude : AgentState → Exec AgentState
  conclude state = do
    held ← gets (λ s.
        route_after_verify s.settings.enable_human_review s.settings.confidence_threshold
          state.verification)
    if held then human_review state else (do state' ← synthesizer state; source_attributor state')

  -- `build_workflow(...)`, run from START to END.
  unfoldable pub run_workflow : AgentState → Exec AgentState
  run_workflow state = do
    planned_state ← planner state
    retrieved_state ← retriever planned_state
    verified_state ← verifier retrieved_state
    conclude verified_state
