-- ===== src/Billing/Usage.antt =====
-- backend/app/services/usage_service.py: counts over a tenant's own rows.
use enterprise_document_inte.Base.{
  ℕ, ◌+◌, ◌-◌, ◌*◌, ◌/◌, ◌%◌, Bool, not, ◌&&◌, count, is_some, ◌==◌, leb,
}
use enterprise_document_inte.Models.{Db, User, Query, Document, Invitation, is_pending}

-- The day of the month, less one, of a day counted from 1970-01-01, by the civil calendar: a year
-- begins in March, and an era has 400 years.
unfoldable pub day_of_month : ℕ → ℕ
day_of_month days =
    let doe = (days + 719468) % 146097 in
    let yoe = (doe - doe / 1460 + doe / 36524 - doe / 146096) / 365 in
    let doy = doe + yoe / 100 - (365 * yoe + yoe / 4) in
    let mp = (5 * doy + 2) / 153 in doy - (153 * mp + 2) / 5

-- `ref.replace(day=1, hour=0, minute=0, second=0, microsecond=0)`, in seconds.
unfoldable pub current_period_start : ℕ → ℕ
unfolding day_of_month
current_period_start now = (now / 86400 - day_of_month (now / 86400)) * 86400

abbrev pub is_active_user : ℕ → User → Bool
is_active_user tenant_id u = u.tenant_id == tenant_id && not (is_some u.deleted_at) && u.is_active

unfoldable pub count_active_users : Db → ℕ → ℕ
count_active_users db tenant_id = count (is_active_user tenant_id) db.users

unfoldable pub count_documents : Db → ℕ → ℕ
count_documents db tenant_id =
    count (λ (d : Document). d.tenant_id == tenant_id && not (is_some d.deleted_at)) db.documents

unfoldable pub count_queries_this_period : Db → ℕ → ℕ → ℕ
unfolding current_period_start
count_queries_this_period db now tenant_id =
    count (λ (q : Query). q.tenant_id == tenant_id && leb (current_period_start now) q.created_at)
      db.queries

-- The pending invitations of a tenant, which reserve a seat each (billing_service.py).
abbrev pub is_pending_invite : ℕ → Invitation → Bool
is_pending_invite tenant_id i = i.tenant_id == tenant_id && is_pending i.status

unfoldable pub count_pending_invites : Db → ℕ → ℕ
count_pending_invites db tenant_id = count (is_pending_invite tenant_id) db.invitations

pub record UsageSnapshot : Type 0 where
  pub users : ℕ
  pub documents : ℕ
  pub queries_this_period : ℕ

unfoldable pub snapshot : Db → ℕ → ℕ → UsageSnapshot
unfolding count_active_users count_documents count_queries_this_period
snapshot db now tenant_id = record {
  users = count_active_users db tenant_id;
  documents = count_documents db tenant_id;
  queries_this_period = count_queries_this_period db now tenant_id;
}
