-- ===== src/Queries/Log.antt =====
-- The table of queries as a record of what was asked: a log that requests only append to.
use enterprise_document_inte.Base.{
  ℕ, ◌≡◌, refl, ap, sym, ◌∙◌, Bool, Option, some, List, [], ◌∷◌, ◌++◌, map, map-update,
  Option-cases, Text, arith, update, find?, ◌==◌, Bool-cases, inl, inr,
}
use mathlib.Core.List.{map-append}
use enterprise_document_inte.Models.{Db, Query}
use enterprise_document_inte.Session.{Exec, Session, Result, transaction}
use enterprise_document_inte.Documents.{CurrentUser}
use enterprise_document_inte.Crypto.Envelope.{Cipher}
use enterprise_document_inte.Retrieval.{Engine}
use enterprise_document_inte.Workflow.{Runner}
use enterprise_document_inte.Authz.{is_privileged}
use mathlib.Core.Path.{subst}
use enterprise_document_inte.Audit.{write_event}
use enterprise_document_inte.Queries.{
  AnswerResponse, ask, set_query_saved, approve_query, reject_query, load_pending, approved,
  rejected, own_query, tenant_query, to_query_read,
}
use enterprise_document_inte.Queries.Asked.{Recorded, ask-Recorded}
use enterprise_document_inte.Queries.Review.{Rewritten, approve_query-Rewritten}

-- What was asked, by whom.
abbrev pub Entry : Type 0
Entry = ℕ × ℕ × ℕ × Text

abbrev pub entry : Query → Entry
entry q = (q.id, q.tenant_id, q.user_id, q.question_encrypted)

-- What a request asks for: an answer to a question of a user, or a change to a query that there is.
pub data Label : Type 0 where
  asking : (tenant_id user_id : ℕ) → (question : Text) → Label
  changing : Label

module _ (cipher : Cipher) where
  open cipher use {decrypt_str}

  -- A step of the abstract log. A question appends one entry or none: the asker's, with a token that
  -- decrypts to the question. Other requests leave the log as it is.
  pub data LogStep : Label → List Entry → List Entry → Type 0 where
    unchanged : {label : Label} {log : List Entry} → LogStep label log log
    appended :
        {tenant_id user_id : ℕ} {question : Text} {log : List Entry} (id : ℕ) (token : Text)
        → decrypt_str token ≡ some question
        → LogStep
            (asking tenant_id user_id question)
            log
            (log ++ (id, tenant_id, user_id, token) ∷ [])

  -- The steps of a sequence of requests, of which the labels are listed from the last one.
  pub data Appends : List Label → List Entry → List Entry → Type 0 where
    at_first : {log : List Entry} → Appends [] log log
    and_then :
        {label : Label} {labels : List Label} {a b c : List Entry}
        → Appends labels a b
        → LogStep label b c
        → Appends (label ∷ labels) a c

-- The session in which the next request is served.
abbrev pub after : {A : Type 0} → Exec A → Session → Session
after m s = record (m s).1 { db = (transaction m s).1; committed = [] }

module _ (cipher : Cipher) {Client : Type 0} {E : Engine} (base : Runner E Client) where
  -- The requests on questions.
  pub data Request : Label → Session → Session → Type 0 where
    asks :
        {s : Session} (current : CurrentUser) (question : Text) (conversation_id : Option ℕ)
        → Request
            (asking current.tenant_id current.id question)
            s
            (after (ask cipher base current question conversation_id) s)
    saves :
        {s : Session} (current : CurrentUser) (query_id : ℕ) (saved : Bool)
        → Request changing s (after (set_query_saved cipher current query_id saved) s)
    approves :
        {s : Session} (current : CurrentUser) (query_id : ℕ)
        → Request changing s (after (approve_query cipher base current query_id) s)
    rejects :
        {s : Session} (current : CurrentUser) (query_id : ℕ)
        → Request changing s (after (reject_query cipher current query_id) s)

  -- A sequence of requests, of which the labels are listed from the last one.
  pub data Requests : List Label → Session → Session → Type 0 where
    none_yet : {s : Session} → Requests [] s s
    one_more :
        {label : Label} {labels : List Label} {a b c : Session}
        → Requests labels a b
        → Request label b c
        → Requests (label ∷ labels) a c

  abbrev pub log : Session → List Entry
  log s = map entry s.queries

  map-entry-update :
      (id : ℕ) (f : Query → Query) (qs : List Query)
      → ((q : Query) → entry (f q) ≡ entry q)
      → map entry (update (λ (r : Query). r.id == id) f qs) ≡ map entry qs
  map-entry-update id f qs keep = map-update entry (λ (r : Query). r.id == id) f qs keep

  saves_same :
      (current : CurrentUser) (query_id : ℕ) (saved : Bool) (s : Session)
      → log (after (set_query_saved cipher current query_id saved) s) ≡ log s
  unfolding set_query_saved transaction
  saves_same current query_id saved s =
      elim (Option-cases
        (own_query cipher current (find? (λ (q : Query). q.id == query_id) s.queries))) [
          | inl absent ↦ ground arith
          | inr (q, found) ↦
              elim (Option-cases (to_query_read cipher (record q { saved = saved }))) [
                | inl unread ↦ ground arith
                | inr (read, same) ↦ ground (
                  arith,
                  map-entry-update q.id (λ r. record r { saved = saved }) s.queries (λ r. refl),
                )
              ]
        ]

  rejects_same :
      (current : CurrentUser) (query_id : ℕ) (s : Session)
      → log (after (reject_query cipher current query_id) s) ≡ log s
  unfolding reject_query transaction load_pending write_event
  rejects_same current query_id s = elim (Bool-cases (is_privileged current.role)) [
    | inl manager ↦
        elim (Option-cases (
          tenant_query cipher current.tenant_id
            (find? (λ (q : Query). q.id == query_id) s.queries))) [
              | inl absent ↦ ground arith
              | inr (q, found) ↦ elim (Option-cases (cipher.decrypt_str q.question_encrypted)) [
                | inl unread ↦ ground arith
                | inr (question, same) ↦
                    ground (arith, map-entry-update q.id (rejected cipher) s.queries (λ r. refl))
              ]
            ]
    | inr other ↦ ground arith
  ]

  approves_same :
      (current : CurrentUser) (query_id : ℕ) (s : Session) {r : Result AnswerResponse} {db : Db}
      → Rewritten cipher base current query_id s r db
      → map entry db.queries ≡ log s
  approves_same current query_id s (Rewritten.kept same) = ap (map entry) same
  approves_same current query_id s
        (Rewritten.rewritten q question answer state may read run had same a b c) =
      ap (map entry) same
      ∙ map-entry-update query_id (approved cipher base answer state) s.queries (λ r. refl)

  asks-LogStep :
      (current : CurrentUser) (question : Text) (conversation_id : Option ℕ) (s : Session)
      {r : Result AnswerResponse} {db : Db}
      → Recorded cipher base current question conversation_id s r db
      → LogStep cipher (asking current.tenant_id current.id question) (log s) (map entry db.queries)
  asks-LogStep current question conversation_id s (Recorded.refused same a) =
      subst (LogStep cipher (asking current.tenant_id current.id question) (log s))
        (sym (ap (map entry) same)) LogStep.unchanged
  asks-LogStep current question conversation_id s (Recorded.answered state q run row shown same) =
      subst (LogStep cipher (asking current.tenant_id current.id question) (log s))
        (sym (
          ap (map entry) same
          ∙ map-append entry s.queries (q ∷ [])
          ∙ (λ i. log s ++ (q.id, row.tenant i, row.user i, q.question_encrypted) ∷ [])))
        (LogStep.appended q.id q.question_encrypted row.asked)

  request-LogStep :
      {label : Label} {s s' : Session} → Request label s s' → LogStep cipher label (log s) (log s')
  request-LogStep (asks {s} current question conversation_id) =
      asks-LogStep current question conversation_id s
        (ask-Recorded cipher base current question conversation_id s)
  request-LogStep (saves {s} current query_id saved) =
      subst (LogStep cipher changing (log s)) (sym (saves_same current query_id saved s))
        LogStep.unchanged
  request-LogStep (approves {s} current query_id) =
      subst (LogStep cipher changing (log s))
        (sym (
          approves_same current query_id s
            (approve_query-Rewritten cipher base current query_id s)))
        LogStep.unchanged
  request-LogStep (rejects {s} current query_id) =
      subst (LogStep cipher changing (log s)) (sym (rejects_same current query_id s))
        LogStep.unchanged

  -- The table of queries implements an append-only log of what was asked. In any sequence of
  -- questions, saves, approvals and rejections, by any users, each request is one step of the log: a
  -- question leaves it or appends exactly one entry, with the tenant and the user who asked and a token
  -- that decrypts to the question; and every other request leaves it as it is.
  pub Requests-Appends :
      {labels : List Label} {s s' : Session}
      → Requests labels s s'
      → Appends cipher labels (log s) (log s')
  Requests-Appends none_yet = Appends.at_first
  Requests-Appends (one_more steps step) =
      Appends.and_then (Requests-Appends steps) (request-LogStep step)
