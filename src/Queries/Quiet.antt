-- ===== src/Queries/Quiet.antt =====
-- What the agents of a run leave alone: everything but the audit log.
use enterprise_document_inte.Base.{ℕ, ◌≡◌, refl, ◌∙◌, inl, inr, List, [], ◌∷◌, arith}
use enterprise_document_inte.Errors.{Error}
use enterprise_document_inte.Models.{AuditLog}
use enterprise_document_inte.Session.{Exec, Session, Result, ok, err, catch, ◌>>=◌}
use enterprise_document_inte.Audit.{write_event, record_event_committed}
use enterprise_document_inte.Billing.{enforce_quota, Resource}
use enterprise_document_inte.Billing.Quota.{enforce_quota_exact}
use enterprise_document_inte.Documents.{CurrentUser}
use enterprise_document_inte.Retrieval.{Engine}
use enterprise_document_inte.Workflow.{
  AgentState, RetrievedChunk, Runner, or_empty, verify_chunks, run_workflow, planner, retriever,
  verifier, synthesizer, source_attributor, conclude,
}
use enterprise_document_inte.Workflow.Outcome.{conclude_gate}
use enterprise_document_inte.Queries.{on_routing_error}

-- What an agent leaves alone: everything but the audit log.
pub record Quiet (s s' : Session) : Type 0 where
  pub queries : s'.queries ≡ s.queries
  pub conversations : s'.conversations ≡ s.conversations
  pub next_id : s'.next_id ≡ s.next_id
  pub now : s'.now ≡ s.now
  pub trace_id : s'.trace_id ≡ s.trace_id

pub Quiet-refl : (s : Session) → Quiet s s
Quiet-refl s = record {
  queries = refl;
  conversations = refl;
  next_id = refl;
  now = refl;
  trace_id = refl;
}

pub Quiet-trans : {a b c : Session} → Quiet a b → Quiet b c → Quiet a c
Quiet-trans p q = record {
  queries = q.queries ∙ p.queries;
  conversations = q.conversations ∙ p.conversations;
  next_id = q.next_id ∙ p.next_id;
  now = q.now ∙ p.now;
  trace_id = q.trace_id ∙ p.trace_id;
}

pub Quiet-bind :
    {A B : Type 0} (m : Exec A) (f : A → Exec B) (s : Session)
    → Quiet s (m s).1
    → ((a : A) (s' : Session) → Quiet s' (f a s').1)
    → Quiet s ((m >>= f) s).1
Quiet-bind {A} {B} m f s h k = at_pair (m s) h
  where
    at_pair : (x : Result A × Session) → Quiet s x.1 → Quiet s (((λ (s' : Session). x) >>= f) s).1
    at_pair (ok a, s') h = Quiet-trans h (k a s')
    at_pair (err e, s') h = h

module _ {Client : Type 0} {E : Engine} (runner : Runner E Client) where
  pub planner-Quiet : (state : AgentState) (s : Session) → Quiet s (planner runner state s).1
  unfolding planner write_event
  planner-Quiet state s = ground arith

  pub retriever-Quiet : (state : AgentState) (s : Session) → Quiet s (retriever runner state s).1
  unfolding retriever
  retriever-Quiet state s = Quiet-refl s

  verify_chunks-Quiet :
      (state : AgentState) (chunks : List RetrievedChunk) (s : Session)
      → Quiet s (verify_chunks runner state chunks s).1
  unfolding write_event
  verify_chunks-Quiet state [] s = Quiet-refl s
  verify_chunks-Quiet state (c ∷ chunks) s = ground arith

  verifier-Quiet : (state : AgentState) (s : Session) → Quiet s (verifier runner state s).1
  unfolding verifier
  verifier-Quiet state s = verify_chunks-Quiet state (or_empty state.chunks) s

  pub synthesizer-Quiet :
      (state : AgentState) (s : Session) → Quiet s (synthesizer runner state s).1
  unfolding synthesizer write_event
  synthesizer-Quiet state s = ground arith

  pub source_attributor-Quiet :
      (state : AgentState) (s : Session) → Quiet s (source_attributor runner state s).1
  unfolding source_attributor
  source_attributor-Quiet state s = Quiet-refl s

  conclude-Quiet : (state : AgentState) (s : Session) → Quiet s (conclude runner state s).1
  conclude-Quiet state s = elim (conclude_gate runner state s) [
    | inl stop ↦ rw stop.1 (Quiet-refl s)
    | inr go ↦ rw go.1 (
        Quiet-bind (synthesizer runner state) (source_attributor runner) s
          (synthesizer-Quiet state s) source_attributor-Quiet)
  ]

  pub run_workflow-Quiet :
      (state : AgentState) (s : Session) → Quiet s (run_workflow runner state s).1
  unfolding run_workflow
  run_workflow-Quiet state s =
      Quiet-bind (planner runner state)
        (λ a. retriever runner a >>= λ b. verifier runner b >>= conclude runner) s
        (planner-Quiet state s)
        (λ a s1.
          Quiet-bind (retriever runner a) (λ b. verifier runner b >>= conclude runner) s1
            (retriever-Quiet a s1)
            (λ b s2.
              Quiet-bind (verifier runner b) (conclude runner) s2 (verifier-Quiet b s2)
                conclude-Quiet))

pub enforce_quota-Quiet :
    (tenant_id : ℕ) (resource : Resource) (s : Session)
    → Quiet s (enforce_quota tenant_id resource s).1
enforce_quota-Quiet tenant_id resource s = elim (enforce_quota_exact tenant_id resource s) [
  | inl room ↦ rw room.0 (Quiet-refl s)
  | inr (limit, limited, full, refused) ↦ rw refused (Quiet-refl s)
]

pub write_event-Quiet : (log : AuditLog) (s : Session) → Quiet s (write_event log s).1
unfolding write_event
write_event-Quiet log s = ground arith

-- A raise of the routing is audited apart, and raised again.
on_routing_error-Quiet :
    (A : Type 0) (current : CurrentUser) (e : Error) (s : Session)
    → Quiet s (on_routing_error {A = A} current e s).1
unfolding record_event_committed
on_routing_error-Quiet A current e s = ground arith

pub catch-Quiet :
    {A : Type 0} (m : Exec A) (current : CurrentUser) (s : Session)
    → Quiet s (m s).1
    → Quiet s (catch m (on_routing_error current) s).1
catch-Quiet {A} m current s h = at_pair (m s) h
  where
    at_pair :
        (x : Result A × Session)
        → Quiet s x.1
        → Quiet s (catch (λ (s' : Session). x) (on_routing_error current) s).1
    at_pair (ok a, s') h = h
    at_pair (err e, s') h = Quiet-trans h (on_routing_error-Quiet A current e s')

on_routing_error_raises :
    {A : Type 0} (current : CurrentUser) (e : Error) (s : Session) (a : A)
    → ¬ ((on_routing_error {A = A} current e s).0 ≡ ok a)
on_routing_error_raises current e s a h = ground arith

pub catch_ok :
    {A : Type 0} (m : Exec A) (current : CurrentUser) (s : Session) (a : A)
    → (catch m (on_routing_error current) s).0 ≡ ok a
    → (m s).0 ≡ ok a
catch_ok {A} m current s a h = at_pair (m s) h
  where
    at_pair :
        (x : Result A × Session)
        → (catch (λ (s' : Session). x) (on_routing_error current) s).0 ≡ ok a
        → x.0 ≡ ok a
    at_pair (ok b, s') h = h
    at_pair (err e, s') h = absurd (on_routing_error_raises current e s' a h)
