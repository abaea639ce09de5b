-- ===== src/Billing.antt =====
-- Plans, usage counters and the subscription of a tenant: backend/app/services/plans_data.py,
-- usage_service.py and billing_service.py. The payment provider is a third party; its webhooks
-- come in as `BillingEvent`.
mod Plans
mod Usage
mod Subscriptions
pub mod Webhook
pub mod Quota
unfoldable pub use Plans.*
unfoldable pub use Usage.*
unfoldable pub use Subscriptions.*
