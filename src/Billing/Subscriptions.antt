-- ===== src/Billing/Subscriptions.antt =====
-- backend/app/services/billing_service.py
use Prim.Native.String.{String}
use enterprise_document_inte.Base.{
  ℕ, ◌+◌, Option, none, some, [], ◌∷◌, ◌++◌, Text, find?, update, ◌==◌, leb, if◌then◌else◌,
}
use enterprise_document_inte.Errors.{Error}
use enterprise_document_inte.Models.{
  Db, Subscription, SubscriptionStatus, AuditAction, Json, event as audit_event,
}
use enterprise_document_inte.Session.{
  Settings, Exec, ok, err, pure, gets, modify, new_id, or_raise, ◌>>=◌, ◌>>◌,
}
use enterprise_document_inte.Audit.{write_event}
use enterprise_document_inte.Billing.Plans.{Plan, get_plan, trial}
use enterprise_document_inte.Billing.Usage.{
  count_active_users, count_documents, count_queries_this_period, count_pending_invites,
}

pub data Resource : Type 0 where
  seats documents queries : Resource

unfoldable pub subscription_for : Db → ℕ → Option Subscription
subscription_for db tenant_id =
    find? (λ (s : Subscription). s.tenant_id == tenant_id) db.subscriptions

abbrev pub or_else : {A : Type 0} → Option A → A → A
or_else none b = b
or_else (some a) b = a

-- The configured trial plan, or the first plan if the key names none.
unfoldable pub default_plan : String → Plan
default_plan key = or_else (get_plan key) trial

unfoldable pub plan_for : Settings → Option Subscription → Plan
unfolding default_plan
plan_for settings none = default_plan settings.default_plan_key
plan_for settings (some sub) =
    or_else (get_plan sub.plan_key) (default_plan settings.default_plan_key)

-- `existing`, or a new row that the tenant's plan fills.
abbrev create_unless : ℕ → String → SubscriptionStatus → Option Subscription → Exec Subscription
create_unless tenant_id key status (some existing) = pure existing
create_unless tenant_id key status none = do
  id ← new_id
  let plan = default_plan key
  let sub : Subscription = record {
    id = id;
    tenant_id = tenant_id;
    plan_key = plan.key;
    status = status;
    seats = or_else plan.limits.seats 0;
    stripe_customer_id = none;
    stripe_subscription_id = none;
    current_period_end = none;
  }
  modify (λ db. record db { subscriptions = db.subscriptions ++ sub ∷ [] })
  pure sub

-- An absent or empty `plan_key` is the default key.
abbrev pub key_or : Option String → String → String
key_or none default = default
key_or (some String.[]) default = default
key_or (some (String.◌∷◌ c s)) default = String.◌∷◌ c s

unfoldable pub ensure_subscription : ℕ → Option String → SubscriptionStatus → Exec Subscription
ensure_subscription tenant_id plan_key status = do
  existing ← gets (λ s. subscription_for s.db tenant_id)
  key ← gets (λ s. key_or plan_key s.settings.default_plan_key)
  create_unless tenant_id key status existing

unfoldable pub current_count : Db → ℕ → ℕ → Resource → ℕ
current_count db now tenant_id Resource.documents = count_documents db tenant_id
current_count db now tenant_id Resource.queries = count_queries_this_period db now tenant_id
current_count db now tenant_id Resource.seats =
    count_active_users db tenant_id + count_pending_invites db tenant_id

unfoldable pub limit_for : Plan → Resource → Option ℕ
limit_for plan Resource.seats = plan.limits.seats
limit_for plan Resource.documents = plan.limits.documents
limit_for plan Resource.queries = plan.limits.queries_per_month

abbrev pub resource_name : Resource → String
resource_name Resource.seats = "seats"
resource_name Resource.documents = "documents"
resource_name Resource.queries = "queries"

-- The test of a limit that is there: 402 once the count has reached it.
abbrev pub check_limit : String → Option ℕ → ℕ → String → Exec (Unit {0})
check_limit name none used resource s = (ok tt, s)
check_limit name (some limit) used resource s =
    if leb limit used then (err (Error.plan_limit name limit resource), s) else (ok tt, s)

unfoldable pub enforce_quota : ℕ → Resource → Exec (Unit {0})
enforce_quota tenant_id resource s =
    if s.settings.enable_billing
    then (let plan = plan_for s.settings (subscription_for s.db tenant_id) in
        check_limit plan.name (limit_for plan resource)
          (current_count s.db s.now tenant_id resource) (resource_name resource) s)
    else (ok tt, s)

abbrev pub status_value : SubscriptionStatus → String
status_value SubscriptionStatus.trialing = "trialing"
status_value SubscriptionStatus.active = "active"
status_value SubscriptionStatus.past_due = "past_due"
status_value SubscriptionStatus.canceled = "canceled"

-- A billing state change, from a provider's webhook.
pub record BillingEvent : Type 0 where
  pub tenant_id : ℕ
  pub plan_key : String
  pub status : SubscriptionStatus
  pub stripe_customer_id : Option Text
  pub stripe_subscription_id : Option Text
  pub current_period_end : Option ℕ

-- `if event.x: sub.x = event.x`, where `None` and the empty text are false.
abbrev pub or_keep : Option Text → Option Text → Option Text
or_keep none old = old
or_keep (some []) old = old
or_keep (some (c ∷ t)) old = some (c ∷ t)

abbrev pub or_keep_time : Option ℕ → Option ℕ → Option ℕ
or_keep_time none old = old
or_keep_time (some t) old = some t

abbrev pub seats_or : Option Plan → ℕ → ℕ
seats_or none old = old
seats_or (some plan) old = or_else plan.limits.seats old

-- What the webhook writes into the row.
unfoldable pub apply_to : BillingEvent → Subscription → Subscription
apply_to event sub = record sub {
  plan_key = event.plan_key;
  status = event.status;
  stripe_customer_id = or_keep event.stripe_customer_id sub.stripe_customer_id;
  stripe_subscription_id = or_keep event.stripe_subscription_id sub.stripe_subscription_id;
  current_period_end = or_keep_time event.current_period_end sub.current_period_end;
  seats = seats_or (get_plan event.plan_key) sub.seats;
}

abbrev pub new_row : BillingEvent → ℕ → Subscription
new_row event id = record {
  id = id;
  tenant_id = event.tenant_id;
  plan_key = event.plan_key;
  status = event.status;
  seats = 0;
  stripe_customer_id = none;
  stripe_subscription_id = none;
  current_period_end = none;
}

abbrev write_to : BillingEvent → Option Subscription → Exec Subscription
write_to event (some sub) = do
  modify (λ db. record db {
    subscriptions = update (λ (x : Subscription). x.id == sub.id) (apply_to event) db.subscriptions;
  })
  pure (apply_to event sub)
write_to event none = do
  id ← new_id
  let sub = apply_to event (new_row event id)
  modify (λ db. record db { subscriptions = db.subscriptions ++ sub ∷ [] })
  pure sub

unfoldable pub apply_webhook_event : BillingEvent → Exec Subscription
apply_webhook_event event = do
  sub ← gets (λ s. subscription_for s.db event.tenant_id)
  write_to event sub

-- `billing_webhook` of backend/app/api/v1/billing.py. `parse_webhook` of the provider gives the event,
-- or raises.
unfoldable pub billing_webhook : (Text → Text → Option BillingEvent) → Text → Text → Exec (Unit {0})
unfolding apply_webhook_event
billing_webhook parse_webhook payload signature = do
  event ← or_raise (parse_webhook payload signature) Error.app
  sub ← apply_webhook_event event
  write_event (record (audit_event event.tenant_id AuditAction.subscription_updated) {
    resource_type = some "subscription";
    resource_id = some sub.id;
    event_metadata =
        ("plan_key", Json.word sub.plan_key) ∷ ("status", Json.word (status_value sub.status)) ∷ [];
  })
