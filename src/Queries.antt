-- ===== src/Queries.antt =====
-- backend/app/api/v1/query.py. A request's runner is the process's runner with the caller's id and
-- role. The response is the row with what the state says.
pub mod Row
pub mod Quiet
pub mod Asked
pub mod Review
pub mod Rejection
pub mod History
pub mod Log
use Prim.Native.String.{String}
use mathlib.Core.List.{reverse}
use enterprise_document_inte.Base.{
  ℕ, ◌-◌, Bool, true, false, not, ◌&&◌, ◌||◌, Option, none, some, List, [], ◌∷◌, ◌++◌, map, Text,
  codes, filter, find?, update, take, drop, traverse, is_some, min, max, ltb, ◌==◌, if◌then◌else◌,
}
use enterprise_document_inte.Errors.{Error}
use enterprise_document_inte.Models.{
  Db, Query, QueryStatus, Conversation, Citation, UserRole, event, AuditAction, AuditLog, Json,
  number_or_null,
}
use enterprise_document_inte.Session.{
  Exec, Session, Result, ok, err, gets, pure, raise, raise_if, or_raise, modify, new_id, catch,
  ◌>>=◌, ◌>>◌,
}
use enterprise_document_inte.Audit.{write_event, record_event_committed}
use enterprise_document_inte.Authz.{is_privileged}
use enterprise_document_inte.Billing.{enforce_quota, Resource}
use enterprise_document_inte.Documents.{CurrentUser}
use enterprise_document_inte.Crypto.Envelope.{Cipher}
use enterprise_document_inte.Retrieval.{Engine, sort_by}
use enterprise_document_inte.Workflow.{
  AgentState, Verification, Runner, or_empty, run_workflow, planner, retriever, synthesizer,
  source_attributor,
}

-- `order_by(Query.created_at.desc())`
abbrev pub newest_first : List Query → List Query
newest_first = sort_by (λ (a b : Query). ltb a.created_at b.created_at)

abbrev pub confidence : AgentState → Option ℕ
confidence state = elim state.verification [ none ↦ none | some ver ↦ some ver.confidence ]

-- `bool(state.get("requires_approval"))`
abbrev pub is_set : Option Bool → Bool
is_set none = false
is_set (some b) = b

-- `state.get("status", QueryState.FAILED)`
abbrev status_or_failed : Option QueryStatus → QueryStatus
status_or_failed none = QueryStatus.failed
status_or_failed (some status) = status

-- A state that holds only the question, the history and the status.
abbrev pub initial : Text → List (Text × Text) → Option QueryStatus → AgentState
initial question history status = record {
  question = question;
  history = history;
  subqueries = none;
  chunks = none;
  verification = none;
  requires_approval = none;
  answer = none;
  citations = none;
  status = status;
  error = none;
}

-- The thread, if it is the caller's.
abbrev pub own_conversation : CurrentUser → Option Conversation → Option Conversation
own_conversation current none = none
own_conversation current (some convo) =
    if convo.tenant_id == current.tenant_id && convo.user_id == current.id then some convo else none

unfoldable pub validate_conversation : CurrentUser → ℕ → Exec Conversation
validate_conversation current conversation_id = do
  convo ← gets (λ s.
      own_conversation current
        (find? (λ (c : Conversation). c.id == conversation_id) s.conversations))
  or_raise convo Error.not_found

abbrev is_in_thread : Option ℕ → ℕ → Bool
is_in_thread none conversation_id = false
is_in_thread (some k) conversation_id = k == conversation_id

abbrev pub is_own : CurrentUser → Query → Bool
is_own current q = q.tenant_id == current.tenant_id && q.user_id == current.id

-- An answered turn of the caller in the thread.
abbrev pub is_turn : CurrentUser → ℕ → Query → Bool
is_turn current conversation_id q =
    is_own current q
    && (is_in_thread q.conversation_id conversation_id && is_some q.answer_encrypted)

abbrev bump : ℕ → Conversation → Conversation
bump now convo = record convo { updated_at = now }

-- `db.get(Conversation, conversation_id)` and the time of its last activity.
abbrev touch : Option ℕ → ℕ → Db → Db
touch none now db = db
touch (some conversation_id) now db = record db {
  conversations =
      update (λ (c : Conversation). c.id == conversation_id) (bump now) db.conversations;
}

pub record AnswerResponse : Type 0 where
  pub query_id : ℕ
  pub status : QueryStatus
  pub requires_approval : Bool
  pub answer : Option Text
  pub citations : List Citation
  pub confidence : Option ℕ
  pub conversation_id : Option ℕ

pub record QueryRead : Type 0 where
  pub id : ℕ
  pub status : QueryStatus
  pub question : Text
  pub answer : Option Text
  pub citations : List Citation
  pub confidence : Option ℕ
  pub created_at : ℕ
  pub conversation_id : Option ℕ
  pub saved : Bool

abbrev query_event : CurrentUser → AuditAction → Option ℕ → AuditLog
query_event current action id = record (event current.tenant_id action) {
  actor_user_id = some current.id;
  resource_type = some "query";
  resource_id = id;
  ip_address = current.ip;
}

-- `_audit_route_denied`, and the error again; other errors pass.
abbrev pub on_routing_error : {A : Type 0} → CurrentUser → Error → Exec A
on_routing_error current Error.llm_routing = do
  record_event_committed (record (query_event current AuditAction.llm_route_denied none) {
    event_metadata =
        (
          "reason",
          Json.word
              "Policy requires a self-hosted model for this content, but no self-hosted LLM endpoint (LLM_BASE_URL) is configured.",
        )
        ∷ [];
    outcome = some "deny";
  })
  raise Error.llm_routing
on_routing_error current e = raise e

-- `_HISTORY_TURNS`
abbrev pub history_turns : ℕ
history_turns = 6

abbrev pub asked_action : Bool → AuditAction
asked_action requires_approval =
    if requires_approval then AuditAction.query_pending_approval else AuditAction.query_answered

module _ (cipher : Cipher) where
  open cipher use {encrypt_str, decrypt_str}

  abbrev pair : Option Text → Option Text → Option (Text × Text)
  pair none answer = none
  pair (some question) none = none
  pair (some question) (some answer) = some (question, answer)

  abbrev pub decrypt_opt : Option Text → Option Text
  decrypt_opt none = none
  decrypt_opt (some t) = decrypt_str t

  abbrev pub turn : Query → Option (Text × Text)
  turn q = pair (decrypt_str q.question_encrypted) (decrypt_opt q.answer_encrypted)

  -- The last turns of the thread, oldest first; `limit` is `_HISTORY_TURNS` in the callers.
  unfoldable pub load_history : CurrentUser → Option ℕ → ℕ → Exec (List (Text × Text))
  load_history current none limit = pure []
  load_history current (some conversation_id) limit = do
    turns ← gets (λ s.
        traverse turn
          (take limit (newest_first (filter (is_turn current conversation_id) s.queries))))
    found ← or_raise turns Error.encryption
    pure (reverse found)

  -- `encrypt_str(answer) if answer else None`
  abbrev pub encrypt_answer : Option Text → Option Text
  encrypt_answer none = none
  encrypt_answer (some []) = none
  encrypt_answer (some (c ∷ text)) = some (encrypt_str (c ∷ text))

  abbrev pub new_query : CurrentUser → Text → AgentState → Option ℕ → Session → Query
  new_query current question state conversation_id s = record {
    id = s.next_id;
    tenant_id = current.tenant_id;
    user_id = current.id;
    conversation_id = conversation_id;
    saved = false;
    question_encrypted = encrypt_str question;
    answer_encrypted = encrypt_answer state.answer;
    citations = some (or_empty state.citations);
    confidence = confidence state;
    status = status_or_failed state.status;
    created_at = s.now;
    trace_id = s.trace_id;
  }

  unfoldable pub persist : CurrentUser → Text → AgentState → Option ℕ → Exec Query
  persist current question state conversation_id = do
    query ← gets (new_query current question state conversation_id)
    id ← new_id
    now ← gets (λ s. s.now)
    modify (λ db. touch conversation_id now (record db { queries = db.queries ++ query ∷ [] }))
    pure query

  -- `_to_query_read`: a token that does not decrypt raises.
  abbrev read_with : Query → Option Text → Option (Option Text) → Option QueryRead
  read_with q none answer = none
  read_with q (some question) none = none
  read_with q (some question) (some answer) = some (record {
    id = q.id;
    status = q.status;
    question = question;
    answer = answer;
    citations = or_empty q.citations;
    confidence = q.confidence;
    created_at = q.created_at;
    conversation_id = q.conversation_id;
    saved = q.saved;
  })

  abbrev read_answer : Option Text → Option (Option Text)
  read_answer none = some none
  read_answer (some t) = elim (decrypt_str t) [ none ↦ none | some a ↦ some (some a) ]

  unfoldable pub to_query_read : Query → Option QueryRead
  to_query_read q = read_with q (decrypt_str q.question_encrypted) (read_answer q.answer_encrypted)

  abbrev pub saved_if : Bool → Query → Bool
  saved_if saved_only q = if saved_only then q.saved else true

  -- `limit` is cut to 1 .. 200. An offset is not negative here.
  unfoldable pub list_queries : CurrentUser → ℕ → ℕ → Bool → Exec (List QueryRead)
  list_queries current limit offset saved_only = do
    rows ← gets (λ s. traverse to_query_read (
        take (max 1 (min limit 200)) (
          drop offset
            (newest_first (filter (λ q. is_own current q && saved_if saved_only q) s.queries)))))
    or_raise rows Error.encryption

  abbrev own_query : CurrentUser → Option Query → Option Query
  own_query current none = none
  own_query current (some q) = if is_own current q then some q else none

  abbrev pub update_query : ℕ → (Query → Query) → Db → Db
  update_query id f db = record db { queries = update (λ (q : Query). q.id == id) f db.queries }

  unfoldable pub set_query_saved : CurrentUser → ℕ → Bool → Exec QueryRead
  set_query_saved current query_id saved = do
    found ← gets (λ s. own_query current (find? (λ (q : Query). q.id == query_id) s.queries))
    query ← or_raise found Error.not_found
    modify (update_query query.id (λ q. record q { saved = saved }))
    or_raise (to_query_read (record query { saved = saved })) Error.encryption

  abbrev pub tenant_query : ℕ → Option Query → Option Query
  tenant_query tenant_id none = none
  tenant_query tenant_id (some q) = if q.tenant_id == tenant_id then some q else none

  -- `_load_pending`
  unfoldable pub load_pending : CurrentUser → ℕ → Exec Query
  load_pending current query_id = do
    found ←
        gets
          (λ s. tenant_query current.tenant_id (find? (λ (q : Query). q.id == query_id) s.queries))
    or_raise found Error.not_found

  unfoldable pub get_query : CurrentUser → ℕ → Exec QueryRead
  unfolding load_pending
  get_query current query_id = do
    query ← load_pending current query_id
    read ← or_raise (to_query_read query) Error.encryption
    pure (record read { conversation_id = none; saved = false })

  abbrev pub rejected : Query → Query
  rejected q = record q { status = QueryStatus.rejected }

  -- `require_role(UserRole.OWNER, UserRole.ADMIN)`
  abbrev pub manager_only : CurrentUser → Exec (Unit {0})
  manager_only current = raise_if (not (is_privileged current.role)) Error.authorization

  unfoldable pub reject_query : CurrentUser → ℕ → Exec QueryRead
  unfolding load_pending
  reject_query current query_id = do
    manager_only current
    query ← load_pending current query_id
    modify (update_query query.id rejected)
    write_event (query_event current AuditAction.query_rejected (some query.id))
    question ← or_raise (decrypt_str query.question_encrypted) Error.encryption
    pure (record {
      id = query.id;
      status = QueryStatus.rejected;
      question = question;
      answer = none;
      citations = [];
      confidence = query.confidence;
      created_at = query.created_at;
      conversation_id = none;
      saved = false;
    })

  module _ {Client : Type 0} {E : Engine} (base : Runner E Client) where
    abbrev pub runner_as : CurrentUser → UserRole → Option Text → Runner E Client
    runner_as current role trace_id = record base {
      tenant_id = current.tenant_id;
      user_id = current.id;
      role = role;
      trace_id = trace_id;
    }

    abbrev validate_if : CurrentUser → Option ℕ → Exec (Unit {0})
    validate_if current none = pure tt
    validate_if current (some k) = validate_conversation current k >>= λ convo. pure tt

    -- The workflow for the caller, from the initial state.
    abbrev pub answer_for : CurrentUser → Text → List (Text × Text) → Exec AgentState
    answer_for current question history s =
        catch
          (run_workflow (runner_as current current.role s.trace_id)
            (initial question history (some QueryStatus.processing)))
          (on_routing_error current) s

    -- What `ask` does before the workflow.
    unfoldable pub submit : CurrentUser → Option ℕ → Exec (List (Text × Text))
    submit current conversation_id = do
      enforce_quota current.tenant_id Resource.queries
      write_event (query_event current AuditAction.query_submitted none)
      validate_if current conversation_id
      load_history current conversation_id history_turns

    abbrev pub response_of : AgentState → Query → AnswerResponse
    response_of state query = record {
      query_id = query.id;
      status = query.status;
      requires_approval = is_set state.requires_approval;
      answer = state.answer;
      citations = or_empty state.citations;
      confidence = confidence state;
      conversation_id = query.conversation_id;
    }

    -- What it does after.
    unfoldable pub record_answer : CurrentUser → Text → Option ℕ → AgentState → Exec AnswerResponse
    unfolding persist
    record_answer current question conversation_id state = do
      query ← persist current question state conversation_id
      write_event
          (record (query_event current (asked_action (is_set state.requires_approval))
            (some query.id)) {
              event_metadata =
                  ("confidence", number_or_null (confidence state))
                  ∷ (
                    "document_ids",
                    Json.nums (map (λ (c : Citation). c.document_id) (or_empty state.citations)),
                  )
                  ∷ (
                    "chunk_ids",
                    Json.nums (map (λ (c : Citation). c.chunk_id) (or_empty state.citations)),
                  )
                  ∷ [];
            })
      pure (response_of state query)

    unfoldable pub ask : CurrentUser → Text → Option ℕ → Exec AnswerResponse
    ask current question conversation_id = do
      history ← submit current conversation_id
      state ← answer_for current question history
      record_answer current question conversation_id state

    -- The nodes that an approval runs: no verifier, and no review.
    unfoldable pub rerun : Runner E Client → AgentState → Exec AgentState
    rerun runner state = do
      planned_state ← planner runner state
      retrieved_state ← retriever runner planned_state
      answered_state ← synthesizer runner retrieved_state
      source_attributor runner answered_state

    abbrev pub approved : Text → AgentState → Query → Query
    approved answer state q = record q {
      answer_encrypted = some (encrypt_str answer);
      citations = some (or_empty state.citations);
      status = QueryStatus.completed;
    }

    -- What `approve_query` does before the nodes run.
    unfoldable pub load_question : CurrentUser → ℕ → Exec (Query × Text)
    unfolding load_pending
    load_question current query_id = do
      manager_only current
      query ← load_pending current query_id
      question ← or_raise (decrypt_str query.question_encrypted) Error.encryption
      pure (query, question)

    -- The nodes, as the owner.
    abbrev pub answer_again : CurrentUser → Text → Exec AgentState
    answer_again current question s =
        catch (rerun (runner_as current UserRole.owner s.trace_id) (initial question [] none))
          (on_routing_error current) s

    -- What it does after: `state["answer"]` raises where there is none.
    unfoldable pub complete : CurrentUser → Query → AgentState → Exec AnswerResponse
    complete current query state = do
      answer ← or_raise state.answer Error.key_missing
      modify (update_query query.id (approved answer state))
      write_event (query_event current AuditAction.query_approved (some query.id))
      pure (record {
        query_id = query.id;
        status = QueryStatus.completed;
        requires_approval = false;
        answer = some answer;
        citations = or_empty state.citations;
        confidence = query.confidence;
        conversation_id = none;
      })

    unfoldable pub approve_query : CurrentUser → ℕ → Exec AnswerResponse
    approve_query current query_id = do
      found ← load_question current query_id
      state ← answer_again current found.1
      complete current found.0 state
