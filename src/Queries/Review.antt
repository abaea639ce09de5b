-- ===== src/Queries/Review.antt =====
-- What an approval does to a query.
use enterprise_document_inte.Base.{
  ℕ, ◌≡◌, ◌⊎◌, refl, inl, inr, true, false, Option, none, some, [], Text, arith, find?, update,
  ◌==◌, Bool-cases, Option-cases, List, ◌∙◌, ap, find?-holds,
}
use mathlib.Core.Path.{subst}
use enterprise_document_inte.Errors.{Error}
use enterprise_document_inte.Models.{Db, Query, QueryStatus, UserRole}
use enterprise_document_inte.Session.{Session, Result, ok, err, transaction, catch, ◌>>=◌}
use enterprise_document_inte.Session.Post.{Post, Post-bind, Post_of_ok, Post_both, Post_mono}
use enterprise_document_inte.Audit.{write_event}
use enterprise_document_inte.Authz.{is_privileged}
use enterprise_document_inte.Documents.{CurrentUser}
use enterprise_document_inte.Crypto.Envelope.{Cipher}
use enterprise_document_inte.Retrieval.{Engine}
use enterprise_document_inte.Workflow.{
  AgentState, Runner, or_empty, planner, retriever, synthesizer, source_attributor,
}
use enterprise_document_inte.Queries.{
  AnswerResponse, initial, runner_as, rerun, load_pending, load_question, answer_again, complete,
  approve_query, approved, on_routing_error,
}
use enterprise_document_inte.Queries.Row.{
  row_of, OthersKept, CompletedRow, row_of-update, update-OthersKept, approved-CompletedRow,
}
use enterprise_document_inte.Queries.Quiet.{
  Quiet, catch_ok, Quiet-refl, Quiet-trans, Quiet-bind, catch-Quiet, planner-Quiet, retriever-Quiet,
  synthesizer-Quiet, source_attributor-Quiet,
}

-- A query that the caller may judge: any query of the tenant, for a manager. Its status is not asked.
pub record MayJudge (current : CurrentUser) (query_id : ℕ) (s : Session) (q : Query) : Type 0 where
  pub manager : is_privileged current.role ≡ true
  pub found : find? (λ (r : Query). r.id == query_id) s.queries ≡ some q
  pub own : (q.tenant_id == current.tenant_id) ≡ true

module _ (cipher : Cipher) {Client : Type 0} {E : Engine} (base : Runner E Client) where
  open cipher use {encrypt_str, decrypt_str}

  rerun-Quiet :
      (runner : Runner E Client) (state : AgentState) (s : Session)
      → Quiet s (rerun cipher base runner state s).1
  unfolding rerun
  rerun-Quiet runner state s =
      Quiet-bind (planner runner state)
        (λ a. retriever runner a >>= λ b. synthesizer runner b >>= source_attributor runner) s
        (planner-Quiet runner state s)
        (λ a s1.
          Quiet-bind (retriever runner a) (λ b. synthesizer runner b >>= source_attributor runner)
            s1 (retriever-Quiet runner a s1)
            (λ b s2.
              Quiet-bind (synthesizer runner b) (source_attributor runner) s2
                (synthesizer-Quiet runner b s2) (source_attributor-Quiet runner)))

  -- A run of the nodes for a verdict: as the owner, from the stored question, with no history.
  pub data Rerun (current : CurrentUser) (question : Text) (s : Session) (state : AgentState)
      : Type 0 where
    rerun_done :
        (s1 : Session)
        → Quiet s s1
        → (rerun cipher base
            (runner_as cipher base current UserRole.owner s.trace_id)
            (initial question [] none)
            s1).0
          ≡ ok state
        → Rerun current question s state

  -- The table after an approval, as an update.
  pub data Rewritten (current : CurrentUser) (query_id : ℕ) (s : Session)
      : Result AnswerResponse → Db → Type 0 where
    kept : {e : Error} {db : Db} → db.queries ≡ s.queries → Rewritten current query_id s (err e) db
    rewritten :
        {response : AnswerResponse} {db : Db} (q : Query) (question answer : Text)
        (state : AgentState)
        → MayJudge current query_id s q
        → decrypt_str q.question_encrypted ≡ some question
        → Rerun current question s state
        → state.answer ≡ some answer
        → db.queries
          ≡ update (λ (r : Query). r.id == query_id) (approved cipher base answer state) s.queries
        → response.answer ≡ some answer
        → response.citations ≡ or_empty state.citations
        → response.status ≡ QueryStatus.completed
        → Rewritten current query_id s (ok response) db

  -- What an approval leaves: where it raises the committed queries are as they were; where it returns,
  -- the row of the query holds the answer of the run, and every other row is the row that it was.
  pub data Approved (current : CurrentUser) (query_id : ℕ) (s : Session)
      : Result AnswerResponse → Db → Type 0 where
    refused :
        {e : Error} {db : Db} → db.queries ≡ s.queries → Approved current query_id s (err e) db
    completed :
        {response : AnswerResponse} {db : Db} (q q' : Query) (question answer : Text)
        (state : AgentState)
        → MayJudge current query_id s q
        → decrypt_str q.question_encrypted ≡ some question
        → Rerun current question s state
        → state.answer ≡ some answer
        → row_of query_id db.queries ≡ some q'
        → CompletedRow cipher q answer state q'
        → OthersKept query_id s.queries db.queries
        → response.answer ≡ some answer
        → response.citations ≡ or_empty state.citations
        → response.status ≡ QueryStatus.completed
        → Approved current query_id s (ok response) db

  abbrev Judged : CurrentUser → ℕ → Session → Query × Text → Session → Type 0
  Judged current query_id s found s' =
      Quiet s s'
      × MayJudge current query_id s found.0
      × (decrypt_str found.0.question_encrypted ≡ some found.1)

  -- The caller is not a manager, or there is no such query in the tenant, or its question is not read;
  -- or it is returned.
  load_question_exact :
      (current : CurrentUser) (query_id : ℕ) (s : Session)
      → ((e : Error) × (load_question cipher base current query_id s ≡ (err e, s)))
        ⊎ ((q : Query) × (question : Text) × (load_question cipher base current query_id s
              ≡ (ok (q, question), s))
            × MayJudge current query_id s q
            × (decrypt_str q.question_encrypted ≡ some question))
  unfolding load_question load_pending
  load_question_exact current query_id s = elim (Bool-cases (is_privileged current.role)) [
    | inl manager ↦ elim (Option-cases (find? (λ (r : Query). r.id == query_id) s.queries)) [
      | inl absent ↦ inl (Error.not_found, ground arith)
      | inr (q, found) ↦ elim (Bool-cases (q.tenant_id == current.tenant_id)) [
        | inl own ↦ elim (Option-cases (decrypt_str q.question_encrypted)) [
          | inl unread ↦ inl (Error.encryption, ground arith)
          | inr (question, read) ↦ inr (
            q,
            question,
            ground arith,
            record { manager = manager; found = found; own = own },
            read,
          )
        ]
        | inr other ↦ inl (Error.not_found, ground arith)
      ]
    ]
    | inr other ↦ inl (Error.authorization, ground arith)
  ]

  load_question-Judged :
      (current : CurrentUser) (query_id : ℕ) (s : Session)
      → Post (load_question cipher base current query_id s) (Judged current query_id s)
  load_question-Judged current query_id s = elim (load_question_exact current query_id s) [
    | inl (e, raises) ↦ rw raises tt
    | inr (q, question, same, may, read) ↦ rw same (Quiet-refl s, may, read)
  ]

  -- What an approval that returns has done.
  abbrev Completed : CurrentUser → ℕ → Session → AnswerResponse → Session → Type 0
  Completed current query_id s response s' =
      (q : Query) × (question : Text) × (answer : Text) × (state : AgentState) × MayJudge current
        query_id s q
      × (decrypt_str q.question_encrypted ≡ some question)
      × Rerun current question s state
      × (state.answer ≡ some answer)
      × (s'.queries
          ≡ update (λ (r : Query). r.id == query_id) (approved cipher base answer state) s.queries)
      × (response.answer ≡ some answer)
      × (response.citations ≡ or_empty state.citations)
      × (response.status ≡ QueryStatus.completed)

  complete-Completed :
      (current : CurrentUser) (query_id : ℕ) (q : Query) (question : Text) (state : AgentState)
      (s s' : Session)
      → Quiet s s'
      → MayJudge current query_id s q
      → decrypt_str q.question_encrypted ≡ some question
      → Rerun current question s state
      → (answer : Option Text) → state.answer ≡ answer
      → Post (complete cipher base current q state s') (Completed current query_id s)
  unfolding complete write_event
  complete-Completed current query_id q question state s s' quiet may read run none e = ground arith
  complete-Completed current query_id q question state s s' quiet may read run (some answer) e =
      let same : q.id ≡ query_id =
        ground (arith, find?-holds (λ (r : Query). r.id == query_id) s.queries q may.found) in
      let write : ℕ → List Query → List Query =
        λ id. update (λ (r : Query). r.id == id) (approved cipher base answer state) in
      let done : (complete cipher base current q state s').1.queries ≡ write q.id s'.queries =
        ground arith in
      Post_of_ok (Completed current query_id s) (complete cipher base current q state s')
        (record {
          query_id = q.id;
          status = QueryStatus.completed;
          requires_approval = false;
          answer = some answer;
          citations = or_empty state.citations;
          confidence = q.confidence;
          conversation_id = none;
        })
        (ground arith)
        (
          q,
          question,
          answer,
          state,
          may,
          read,
          run,
          e,
          done ∙ (λ i. write (same i) (quiet.queries i)),
          refl,
          refl,
          refl,
        )

  answer_again-Rerun :
      (current : CurrentUser) (question : Text) (s s1 : Session)
      → Quiet s s1
      → Post
          (answer_again cipher base current question s1)
          (λ state s'. Quiet s s' × Rerun current question s state)
  answer_again-Rerun current question s s1 quiet =
      let runner = runner_as cipher base current UserRole.owner in
      let before = initial question [] none in
      let run = rerun cipher base (runner s1.trace_id) before in
      let Quietly : Session → Type 0 = λ s'. Quiet s s' in
      Post_mono (λ state s'. ((catch run (on_routing_error current) s1).0 ≡ ok state) × Quiet s s')
        (λ state s'. Quiet s s' × Rerun current question s state)
        (catch run (on_routing_error current) s1)
        (λ state s' h. (
          h.1,
          rerun_done s1 quiet (
              subst (λ t. (rerun cipher base (runner t) before s1).0 ≡ ok state) quiet.trace_id
                (catch_ok run current s1 state h.0)),
        ))
        (Post_both Quietly (catch run (on_routing_error current) s1) (
          Quiet-trans quiet
            (catch-Quiet run current s1 (rerun-Quiet (runner s1.trace_id) before s1))))

  approve_query-Completed :
      (current : CurrentUser) (query_id : ℕ) (s : Session)
      → Post (approve_query cipher base current query_id s) (Completed current query_id s)
  unfolding approve_query
  approve_query-Completed current query_id s =
      Post-bind (Completed current query_id s) (load_question cipher base current query_id)
        (λ found. answer_again cipher base current found.1 >>= complete cipher base current found.0)
        s (load_question-Judged current query_id s)
        (λ found s1 h.
          Post-bind (Completed current query_id s) (answer_again cipher base current found.1)
            (complete cipher base current found.0) s1 (answer_again-Rerun current found.1 s s1 h.0)
            (λ state s2 k.
              complete-Completed current query_id found.0 found.1 state s s2 k.0 h.1 h.2 k.1
                state.answer refl))

  committed_of :
      (current : CurrentUser) (query_id : ℕ) (s : Session) (x : Result AnswerResponse × Session)
      → Post x (Completed current query_id s)
      → Rewritten current query_id s
          (transaction (λ (s' : Session). x) s).0
          (transaction (λ (s' : Session). x) s).1
  unfolding transaction
  committed_of current query_id s (err e, s') h = kept refl
  committed_of current query_id s (ok r, s')
        (q, question, answer, state, may, read, run, had, queries, shown, cited, status) =
      rewritten q question answer state may read run had queries shown cited status

  pub approve_query-Rewritten :
      (current : CurrentUser) (query_id : ℕ) (s : Session)
      → Rewritten current query_id s
          (transaction (approve_query cipher base current query_id) s).0
          (transaction (approve_query cipher base current query_id) s).1
  unfolding transaction
  approve_query-Rewritten current query_id s =
      committed_of current query_id s (approve_query cipher base current query_id s)
        (approve_query-Completed current query_id s)

  Rewritten-Approved :
      (current : CurrentUser) (query_id : ℕ) (s : Session) {r : Result AnswerResponse} {db : Db}
      → Rewritten current query_id s r db
      → Approved current query_id s r db
  Rewritten-Approved current query_id s (kept same) = refused same
  Rewritten-Approved current query_id s {db = db}
        (rewritten q question answer state may read run had same shown cited status) =
      completed q (approved cipher base answer state q) question answer state may read run had
        (ap (row_of query_id) same
          ∙ row_of-update query_id (approved cipher base answer state) s.queries q (λ r. refl)
              may.found)
        (approved-CompletedRow cipher base q answer state)
        (λ other ne.
          ap (row_of other) same
          ∙ update-OthersKept query_id (approved cipher base answer state) s.queries (λ r. refl)
              other ne)
        shown cited status

  -- An approval is for managers, and of a query of their tenant, whatever its status was. Where it
  -- returns, the nodes were run again on the question that the row's token decrypts to, and gave an
  -- answer. The row of the query then holds a token that decrypts to that answer, has the citations of
  -- that run and is complete, with its question, tenant and user as before; every other row is as
  -- before; and the response shows the answer. Where it raises (no answer was synthesized, for one) the
  -- committed queries are as they were.
  pub approve_query-Approved :
      (current : CurrentUser) (query_id : ℕ) (s : Session)
      → Approved current query_id s
          (transaction (approve_query cipher base current query_id) s).0
          (transaction (approve_query cipher base current query_id) s).1
  approve_query-Approved current query_id s =
      Rewritten-Approved current query_id s (approve_query-Rewritten current query_id s)
