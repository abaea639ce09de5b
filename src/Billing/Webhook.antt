-- ===== src/Billing/Webhook.antt =====
-- What a billing webhook does to the subscriptions.
use enterprise_document_inte.Base.{
  ◌+◌, ◌≡◌, refl, ap, ◌∙◌, inl, inr, Text, Option, none, some, List, [], ◌∷◌, ◌++◌, arith, find?,
  find?-update, find?-append_none, update, ◌==◌, Option-cases,
}
use enterprise_document_inte.Models.{
  Subscription, AuditLog, AuditAction, Json, event as audit_event,
}
use enterprise_document_inte.Errors.{Error}
use enterprise_document_inte.Session.{Session, Result, ok, err}
use enterprise_document_inte.Billing.Subscriptions.{
  subscription_for, BillingEvent, apply_to, new_row, apply_webhook_event, status_value,
  billing_webhook,
}

abbrev with_subscriptions : Session → List Subscription → Session
with_subscriptions s xs = record s { db = record s.db { subscriptions = xs } }

module _ (e : BillingEvent) (s : Session) where
  webhook_found :
      (sub : Subscription)
      → subscription_for s.db e.tenant_id ≡ some sub
      → apply_webhook_event e s ≡ (
        ok (apply_to e sub),
        with_subscriptions s
            (update (λ (x : Subscription). x.id == sub.id) (apply_to e) s.subscriptions),
      )
  unfolding apply_webhook_event
  webhook_found sub h = ground arith

  webhook_absent :
      subscription_for s.db e.tenant_id ≡ none
      → apply_webhook_event e s ≡ (
        ok (apply_to e (new_row e s.next_id)),
        record s {
          next_id = s.next_id + 1;
          db = record s.db {
            subscriptions = s.subscriptions ++ apply_to e (new_row e s.next_id) ∷ [];
          };
        },
      )
  unfolding apply_webhook_event
  webhook_absent h = ground arith

  found_after :
      (sub : Subscription)
      → subscription_for s.db e.tenant_id ≡ some sub
      → find?
          (λ (x : Subscription). x.tenant_id == e.tenant_id)
          (update (λ (x : Subscription). x.id == sub.id) (apply_to e) s.subscriptions)
        ≡ some (apply_to e sub)
  unfolding subscription_for apply_to
  found_after sub h =
      find?-update (λ (x : Subscription). x.tenant_id == e.tenant_id)
        (λ (x : Subscription). x.id == sub.id) (apply_to e) s.subscriptions (λ x. refl) sub h
        (ground arith)

  -- The row that the event leaves is the answer, it is the tenant's row from then on, and it has the
  -- plan and the status of the event.
  pub apply_webhook_event_upserts :
      let (r, s') = apply_webhook_event e s in
      (sub : Subscription) × (r ≡ ok sub)
      × (subscription_for s'.db e.tenant_id ≡ some sub)
      × (sub.plan_key ≡ e.plan_key)
      × (sub.status ≡ e.status)
  unfolding subscription_for apply_to
  apply_webhook_event_upserts = elim (Option-cases (subscription_for s.db e.tenant_id)) [
    | inl absent ↦
        let sub = apply_to e (new_row e s.next_id) in
        (
          sub,
          ap (λ r. r.0) (webhook_absent absent),
          ap (λ r. subscription_for r.1.db e.tenant_id) (webhook_absent absent)
              ∙ find?-append_none (λ (x : Subscription). x.tenant_id == e.tenant_id) s.subscriptions
                  (sub ∷ []) absent
              ∙ ground arith,
          refl,
          refl,
        )
    | inr (sub, found) ↦ (
      apply_to e sub,
      ap (λ r. r.0) (webhook_found sub found),
      ap (λ r. subscription_for r.1.db e.tenant_id) (webhook_found sub found)
          ∙ found_after sub found,
      refl,
      refl,
    )
  ]

abbrev webhook_log : BillingEvent → Subscription → AuditLog
webhook_log e sub = record (audit_event e.tenant_id AuditAction.subscription_updated) {
  resource_type = some "subscription";
  resource_id = some sub.id;
  event_metadata =
      ("plan_key", Json.word sub.plan_key) ∷ ("status", Json.word (status_value sub.status)) ∷ [];
}

-- The audit row of a delivery.
pub record IsUpdate (e : BillingEvent) (sub : Subscription) (log : AuditLog) : Type 0 where
  pub tenant : log.tenant_id ≡ e.tenant_id
  pub action : log.action ≡ AuditAction.subscription_updated
  pub nobody : log.actor_user_id ≡ none
  pub type : log.resource_type ≡ some "subscription"
  pub row : log.resource_id ≡ some sub.id
  pub metadata :
      log.event_metadata
      ≡ ("plan_key", Json.word e.plan_key) ∷ ("status", Json.word (status_value e.status)) ∷ []

module _ (parse_webhook : Text → Text → Option BillingEvent) (payload signature : Text) where
  abbrev deliver : Session → Result (Unit {0}) × Session
  deliver = billing_webhook parse_webhook payload signature

  -- What two deliveries of a payload do.
  pub data DeliveredTwice (s : Session) : Type 0 where
    unparsed :
        parse_webhook payload signature ≡ none → deliver s ≡ (err Error.app, s) → DeliveredTwice s
    parsed :
        (e : BillingEvent) (sub : Subscription) (log log' : AuditLog)
        → parse_webhook payload signature ≡ some e
        → (deliver s).0 ≡ ok tt
        → subscription_for (deliver s).1.db e.tenant_id ≡ some sub
        → sub.plan_key ≡ e.plan_key
        → sub.status ≡ e.status
        → IsUpdate e sub log
        → (deliver s).1.audit_logs ≡ s.audit_logs ++ log ∷ []
        → IsUpdate e sub log'
        → deliver (deliver s).1 ≡ (
          ok tt,
          record (deliver s).1 {
            db = record (deliver s).1.db { audit_logs = (deliver s).1.audit_logs ++ log' ∷ [] };
          },
        )
        → DeliveredTwice s
