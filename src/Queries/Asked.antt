-- ===== src/Queries/Asked.antt =====
-- What an answered question leaves in the table of queries.
use enterprise_document_inte.Base.{
  ℕ, ◌≡◌, refl, inl, inr, Option, none, some, List, [], ◌∷◌, ◌++◌, Text, arith, traverse, take,
  filter, Option-cases,
}
use mathlib.Core.Path.{subst}
use enterprise_document_inte.Errors.{Error}
use enterprise_document_inte.Models.{Db, Query, QueryStatus, AuditAction}
use enterprise_document_inte.Session.{Exec, Session, Result, transaction, ok, err, catch, ◌>>=◌}
use enterprise_document_inte.Session.Post.{
  Post, Post-bind, Post_both, Post_mono, Post_of_ok, Post_session,
}
use enterprise_document_inte.Audit.{write_event}
use enterprise_document_inte.Billing.{enforce_quota, Resource}
use enterprise_document_inte.Documents.{CurrentUser}
use enterprise_document_inte.Crypto.Envelope.{Cipher}
use enterprise_document_inte.Retrieval.{Engine}
use enterprise_document_inte.Workflow.{AgentState, Runner, run_workflow}
use enterprise_document_inte.Workflow.Outcome.{Ended, run_workflow-Ended}
use enterprise_document_inte.Queries.{
  AnswerResponse, initial, on_routing_error, runner_as, answer_for, validate_if, history_turns,
  query_event, new_query, persist, ask, submit, record_answer, response_of, validate_conversation,
  load_history, turn, newest_first, is_turn,
}
use enterprise_document_inte.Queries.Row.{NewRow, Shows, new_query-NewRow}
use enterprise_document_inte.Queries.Quiet.{
  Quiet, Quiet-refl, Quiet-trans, run_workflow-Quiet, enforce_quota-Quiet, write_event-Quiet,
  catch-Quiet, catch_ok,
}

module _ (cipher : Cipher) {Client : Type 0} {E : Engine} (base : Runner E Client) where
  -- A run of the workflow for a question: as the caller, with the turns of the thread, and to its end.
  pub data Ran (current : CurrentUser) (question : Text) (conversation_id : Option ℕ) (s : Session)
      (state : AgentState) : Type 0 where
    ran :
        (history : List (Text × Text)) (s1 : Session)
        → Quiet s s1
        → (load_history cipher current conversation_id history_turns s).0 ≡ ok history
        → (run_workflow
            (runner_as cipher base current current.role s.trace_id)
            (initial question history (some QueryStatus.processing))
            s1).0
          ≡ ok state
        → Ended
            (runner_as cipher base current current.role s.trace_id)
            (initial question history (some QueryStatus.processing))
            state
        → Ran current question conversation_id s state

  -- What an asked question leaves: nothing in the table of queries or of threads where it raises; and
  -- where it is answered, one more row, of the state in which the workflow ended.
  pub data Recorded (current : CurrentUser) (question : Text) (conversation_id : Option ℕ)
      (s : Session) : Result AnswerResponse → Db → Type 0 where
    refused :
        {e : Error} {db : Db}
        → db.queries ≡ s.queries
        → db.conversations ≡ s.conversations
        → Recorded current question conversation_id s (err e) db
    answered :
        {db : Db} {response : AnswerResponse} (state : AgentState) (q : Query)
        → Ran current question conversation_id s state
        → NewRow cipher current question conversation_id s state q
        → Shows state q response
        → db.queries ≡ s.queries ++ q ∷ []
        → Recorded current question conversation_id s (ok response) db

  validate_if-Quiet :
      (current : CurrentUser) (conversation_id : Option ℕ) (s : Session)
      → Quiet s (validate_if cipher base current conversation_id s).1
  unfolding validate_conversation
  validate_if-Quiet current none s = Quiet-refl s
  validate_if-Quiet current (some k) s = ground arith

  load_history-Quiet :
      (current : CurrentUser) (conversation_id : Option ℕ) (limit : ℕ) (s : Session)
      → Quiet s (load_history cipher current conversation_id limit s).1
  unfolding load_history
  load_history-Quiet current none limit s = Quiet-refl s
  load_history-Quiet current (some k) limit s = ground arith

  load_history-Loaded :
      (current : CurrentUser) (conversation_id : Option ℕ) (s s' : Session)
      → Quiet s s'
      → Post (load_history cipher current conversation_id history_turns s') (λ history s''.
        Quiet s s''
        × ((load_history cipher current conversation_id history_turns s).0 ≡ ok history))
  unfolding load_history
  load_history-Loaded current none s s' quiet = (quiet, refl)
  load_history-Loaded current (some k) s s' quiet =
      elim (Option-cases (
        traverse (turn cipher)
          (take history_turns (newest_first (filter (is_turn current k) s.queries))))) [
            | inl unread ↦ ground (arith, quiet.queries)
            | inr (turns, read) ↦ ground (arith, quiet.queries, quiet)
          ]

  submit-Loaded :
      (current : CurrentUser) (conversation_id : Option ℕ) (s : Session)
      → Post (submit cipher base current conversation_id s) (λ history s'.
        Quiet s s' × ((load_history cipher current conversation_id history_turns s).0 ≡ ok history))
  unfolding submit
  submit-Loaded current conversation_id s =
      let load : Exec (List (Text × Text)) =
        load_history cipher current conversation_id history_turns in
      let Q : List (Text × Text) → Session → Type 0 =
        λ history s'. Quiet s s' × ((load s).0 ≡ ok history) in
      let Quietly : Session → Type 0 = λ s'. Quiet s s' in
      let submitted = query_event current AuditAction.query_submitted none in
      let validate = validate_if cipher base current conversation_id in
      Post-bind Q (enforce_quota current.tenant_id Resource.queries)
        (λ u. write_event submitted >>= λ u. validate >>= λ u. load) s
        (Post_session Quietly (enforce_quota current.tenant_id Resource.queries s)
          (enforce_quota-Quiet current.tenant_id Resource.queries s))
        (λ u s1 q1.
          Post-bind Q (write_event submitted) (λ u. validate >>= λ u. load) s1
            (Post_session Quietly (write_event submitted s1)
              (Quiet-trans q1 (write_event-Quiet submitted s1)))
            (λ u s2 q2.
              Post-bind Q validate (λ u. load) s2
                (Post_session Quietly (validate s2)
                  (Quiet-trans q2 (validate_if-Quiet current conversation_id s2)))
                (λ u s3 q3. load_history-Loaded current conversation_id s s3 q3)))

  record_answer_lem :
      (current : CurrentUser) (question : Text) (conversation_id : Option ℕ) (state : AgentState)
      (s s' : Session)
      → Quiet s s'
      → ((record_answer cipher base current question conversation_id state s').0
          ≡ ok (
              response_of cipher base state
                (new_query cipher current question state conversation_id s)))
        × ((record_answer cipher base current question conversation_id state s').1.queries
            ≡ s.queries ++ new_query cipher current question state conversation_id s ∷ [])
  unfolding record_answer persist write_event
  record_answer_lem current question none state s s' h =
      ground (arith, h.queries, h.next_id, h.now, h.trace_id)
  record_answer_lem current question (some k) state s s' h =
      ground (arith, h.queries, h.next_id, h.now, h.trace_id)

  -- What an answered question leaves, where the run is known.
  abbrev Answered : CurrentUser → Text → Option ℕ → Session → AnswerResponse → Session → Type 0
  Answered current question conversation_id s response s' =
      (state : AgentState) × (q : Query) × Ran current question conversation_id s state
      × NewRow cipher current question conversation_id s state q
      × Shows state q response
      × (s'.queries ≡ s.queries ++ q ∷ [])

  has_status :
      (runner : Runner E Client) (before state : AgentState)
      → Ended runner before state
      → (status : QueryStatus) × (state.status ≡ some status)
  has_status runner before state (Ended.held status review answer cited) =
      (QueryStatus.pending_approval, status)
  has_status runner before state (Ended.failed message status e answer cited) =
      (QueryStatus.failed, status)
  has_status runner before state (Ended.completed text status answer cited) =
      (QueryStatus.completed, status)

  Ran-status :
      (current : CurrentUser) (question : Text) (conversation_id : Option ℕ) (s : Session)
      (state : AgentState)
      → Ran current question conversation_id s state
      → (status : QueryStatus) × (state.status ≡ some status)
  Ran-status current question conversation_id s state (ran history s1 quiet loaded run ended) =
      has_status _ _ state ended

  record_answer-Answered :
      (current : CurrentUser) (question : Text) (conversation_id : Option ℕ) (state : AgentState)
      (s s' : Session)
      → Quiet s s'
      → Ran current question conversation_id s state
      → Post
          (record_answer cipher base current question conversation_id state s')
          (Answered current question conversation_id s)
  record_answer-Answered current question conversation_id state s s' quiet run =
      let found = record_answer_lem current question conversation_id state s s' quiet in
      let row = new_query cipher current question state conversation_id s in
      let (status, same) = Ran-status current question conversation_id s state run in
      Post_of_ok (Answered current question conversation_id s) _ (response_of cipher base state row)
        found.0
        (
          state,
          row,
          run,
          new_query-NewRow cipher current question conversation_id s state status same,
          record {
            query_id = refl;
            status = refl;
            review = refl;
            answer = refl;
            cited = refl;
            thread = refl;
          },
          found.1,
        )

  answer_for-Ran :
      (current : CurrentUser) (question : Text) (conversation_id : Option ℕ)
      (history : List (Text × Text)) (s s' : Session)
      → Quiet s s'
      → (load_history cipher current conversation_id history_turns s).0 ≡ ok history
      → Post
          (answer_for cipher base current question history s')
          (λ state s''. Quiet s s'' × Ran current question conversation_id s state)
  answer_for-Ran current question conversation_id history s s' quiet loaded =
      let runner = runner_as cipher base current current.role in
      let before = initial question history (some QueryStatus.processing) in
      let run = run_workflow (runner s'.trace_id) before in
      let Quietly : Session → Type 0 = λ s''. Quiet s s'' in
      Post_mono
        (λ state s''. ((catch run (on_routing_error current) s').0 ≡ ok state) × Quiet s s'')
        (λ state s''. Quiet s s'' × Ran current question conversation_id s state)
        (catch run (on_routing_error current) s')
        (λ state s'' h.
          let done = catch_ok run current s' state h.0 in
          (
            h.1,
            ran history s' quiet loaded
                (subst (λ t. (run_workflow (runner t) before s').0 ≡ ok state) quiet.trace_id done)
                (subst (λ t. Ended (runner t) before state) quiet.trace_id
                  (run_workflow-Ended (runner s'.trace_id) before state s' done)),
          ))
        (Post_both Quietly (catch run (on_routing_error current) s') (
          Quiet-trans quiet
            (catch-Quiet run current s' (run_workflow-Quiet (runner s'.trace_id) before s'))))

  ask-Answered :
      (current : CurrentUser) (question : Text) (conversation_id : Option ℕ) (s : Session)
      → Post
          (ask cipher base current question conversation_id s)
          (Answered current question conversation_id s)
  unfolding ask
  ask-Answered current question conversation_id s =
      let rest : List (Text × Text) → Exec AnswerResponse = λ history.
        answer_for cipher base current question history
        >>= record_answer cipher base current question conversation_id in
      Post-bind (Answered current question conversation_id s)
        (submit cipher base current conversation_id) rest s
        (submit-Loaded current conversation_id s)
        (λ history s' h.
          Post-bind (Answered current question conversation_id s)
            (answer_for cipher base current question history)
            (record_answer cipher base current question conversation_id) s'
            (answer_for-Ran current question conversation_id history s s' h.0 h.1)
            (λ state s'' k.
              record_answer-Answered current question conversation_id state s s'' k.0 k.1))

  committed_of :
      (current : CurrentUser) (question : Text) (conversation_id : Option ℕ) (s : Session)
      (x : Result AnswerResponse × Session)
      → Post x (Answered current question conversation_id s)
      → Recorded current question conversation_id s
          (transaction (λ (s' : Session). x) s).0
          (transaction (λ (s' : Session). x) s).1
  unfolding transaction
  committed_of current question conversation_id s (err e, s') h = refused refl refl
  committed_of current question conversation_id s (ok r, s') (state, q, run, row, shown, queries) =
      answered state q run row shown queries

  pub ask-Recorded :
      (current : CurrentUser) (question : Text) (conversation_id : Option ℕ) (s : Session)
      → Recorded current question conversation_id s
          (transaction (ask cipher base current question conversation_id) s).0
          (transaction (ask cipher base current question conversation_id) s).1
  unfolding transaction
  ask-Recorded current question conversation_id s =
      committed_of current question conversation_id s
        (ask cipher base current question conversation_id s)
        (ask-Answered current question conversation_id s)
