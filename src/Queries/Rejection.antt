-- ===== src/Queries/Rejection.antt =====
-- What a rejection does to a query.
use enterprise_document_inte.Base.{
  ℕ, ◌≡◌, refl, ap, ◌∙◌, inl, inr, false, none, some, [], Text, arith, find?, find?-holds, update,
  ◌==◌, Bool-cases, Option-cases,
}
use enterprise_document_inte.Errors.{Error}
use enterprise_document_inte.Models.{Db, Query, QueryStatus}
use enterprise_document_inte.Session.{Session, Result, ok, err, transaction}
use enterprise_document_inte.Audit.{write_event}
use enterprise_document_inte.Authz.{is_privileged}
use enterprise_document_inte.Documents.{CurrentUser}
use enterprise_document_inte.Crypto.Envelope.{Cipher}
use enterprise_document_inte.Queries.{QueryRead, load_pending, rejected, reject_query}
use enterprise_document_inte.Queries.Row.{
  row_of, OthersKept, RejectedRow, row_of-update, update-OthersKept, rejected-RejectedRow,
}
use enterprise_document_inte.Queries.Review.{MayJudge}

module _ (cipher : Cipher) where
  open cipher use {decrypt_str}

  -- What a rejection leaves, whatever the status of the query was.
  pub data Rejected (current : CurrentUser) (query_id : ℕ) (s : Session)
      : Result QueryRead → Db → Type 0 where
    refused :
        {e : Error} {db : Db}
        → ((q : Query) (question : Text)
            → MayJudge current query_id s q
            → ¬ (decrypt_str q.question_encrypted ≡ some question))
        → db.queries ≡ s.queries
        → Rejected current query_id s (err e) db
    rejects :
        {read : QueryRead} {db : Db} (q q' : Query) (question : Text)
        → MayJudge current query_id s q
        → decrypt_str q.question_encrypted ≡ some question
        → row_of query_id db.queries ≡ some q'
        → RejectedRow cipher q q'
        → OthersKept query_id s.queries db.queries
        → read.status ≡ QueryStatus.rejected
        → Rejected current query_id s (ok read) db

  abbrev Outcome : CurrentUser → ℕ → Session → Type 0
  Outcome current query_id s =
      Rejected current query_id s (transaction (reject_query cipher current query_id) s).0
        (transaction (reject_query cipher current query_id) s).1

  rejects_judged :
      (current : CurrentUser) (query_id : ℕ) (s : Session) (q : Query) (question : Text)
      → MayJudge current query_id s q
      → decrypt_str q.question_encrypted ≡ some question
      → Outcome current query_id s
  unfolding reject_query load_pending write_event transaction
  rejects_judged current query_id s q question may read =
      let same : q.id ≡ query_id =
        ground (arith, find?-holds (λ (r : Query). r.id == query_id) s.queries q may.found) in
      let write = λ (id : ℕ). update (λ (r : Query). r.id == id) (rejected cipher) s.queries in
      let ran : transaction (reject_query cipher current query_id) s ≡ (
        ok (record {
          id = q.id;
          status = QueryStatus.rejected;
          question = question;
          answer = none;
          citations = [];
          confidence = q.confidence;
          created_at = q.created_at;
          conversation_id = none;
          saved = false;
        }),
        (transaction (reject_query cipher current query_id) s).1,
      ) =
        ground (arith, may.manager, may.found, may.own) in
      let wrote : (transaction (reject_query cipher current query_id) s).1.queries
          ≡ write query_id =
        ground (arith, may.manager, may.found, may.own, same) in
      rw ran (
        rejects q (rejected cipher q) question may read
          (ap (row_of query_id) wrote
            ∙ row_of-update query_id (rejected cipher) s.queries q (λ r. refl) may.found)
          (rejected-RejectedRow cipher q)
          (λ other ne.
            ap (row_of other) wrote
            ∙ update-OthersKept query_id (rejected cipher) s.queries (λ r. refl) other ne)
          refl)

  -- A manager rejects any query of the tenant whose question can be read, and no others, whatever its
  -- status, a completed or a rejected one too. Where it returns, the row of the query has the status
  -- `rejected` and its answer, citations, question, tenant and user as before, and every other row is
  -- as before. Where it raises, there is no such query to judge, and the committed queries are as they
  -- were.
  pub reject_query_any_status :
      (current : CurrentUser) (query_id : ℕ) (s : Session)
      → Rejected current query_id s
          (transaction (reject_query cipher current query_id) s).0
          (transaction (reject_query cipher current query_id) s).1
  unfolding reject_query load_pending write_event transaction
  reject_query_any_status current query_id s = elim (Bool-cases (is_privileged current.role)) [
    | inl manager ↦ elim (Option-cases (find? (λ (r : Query). r.id == query_id) s.queries)) [
      | inl absent ↦
          rw (manager, absent) (refused (λ q question may read. ground (arith, may.found)) refl)
      | inr (q, found) ↦ elim (Bool-cases (q.tenant_id == current.tenant_id)) [
        | inl own ↦ elim (Option-cases (decrypt_str q.question_encrypted)) [
          | inl unread ↦
              rw (manager, found, own, unread)
                (refused (λ q' question may read. ground (arith, may.found)) refl)
          | inr (question, read) ↦
              rejects_judged current query_id s q question
                (record { manager = manager; found = found; own = own }) read
        ]
        | inr other ↦
            rw (manager, found, other)
              (refused (λ q' question may read. ground (arith, may.found, may.own)) refl)
      ]
    ]
    | inr member ↦ rw member (refused (λ q question may read. ground (arith, may.manager)) refl)
  ]
