-- ===== src/Billing/Quota.antt =====
-- The limits that plans put on seats, documents and queries.
use enterprise_document_inte.Base.{
  ℕ, ◌≡◌, ◌<◌, ◌≤◌, ◌⊎◌, inl, inr, Option, none, some, arith, leb, if◌then◌else◌, Option-cases,
  Bool-cases,
}
use enterprise_document_inte.Errors.{Error}
use enterprise_document_inte.Session.{Session, ok, err}
use enterprise_document_inte.Billing.Subscriptions.{
  Resource, subscription_for, plan_for, limit_for, current_count, resource_name, enforce_quota,
}

-- A count is below a limit; there is always room below none.
abbrev pub HasRoom : Option ℕ → ℕ → Type 0
HasRoom none used = Unit
HasRoom (some limit) used = used < limit

-- The limit that the plan of a tenant puts on a resource, where billing is on.
abbrev pub limit_in : Session → ℕ → Resource → Option ℕ
limit_in s tenant_id resource =
    if s.settings.enable_billing
    then limit_for (plan_for s.settings (subscription_for s.db tenant_id)) resource
    else none

abbrev pub used_in : Session → ℕ → Resource → ℕ
used_in s tenant_id resource = current_count s.db s.now tenant_id resource

module _ (tenant_id : ℕ) (resource : Resource) (s : Session) where
  abbrev the_limit : Option ℕ
  the_limit = limit_for (plan_for s.settings (subscription_for s.db tenant_id)) resource

  pub enforce_quota_exact :
      ((enforce_quota tenant_id resource s ≡ (ok tt, s))
        × HasRoom (limit_in s tenant_id resource) (used_in s tenant_id resource))
      ⊎ ((limit : ℕ) × (limit_in s tenant_id resource ≡ some limit)
          × (limit ≤ used_in s tenant_id resource)
          × (enforce_quota tenant_id resource s ≡ (
            err (
                Error.plan_limit
                  (plan_for s.settings (subscription_for s.db tenant_id)).name
                  limit
                  (resource_name resource)),
            s,
          )))
  unfolding enforce_quota
  enforce_quota_exact = elim (Bool-cases s.settings.enable_billing) [
    | inl on ↦ elim (Option-cases the_limit) [
      | inl unlimited ↦ inl (ground arith, ground arith)
      | inr (limit, limited) ↦ elim (Bool-cases (leb limit (used_in s tenant_id resource))) [
        | inl full ↦ inr (limit, ground arith, ground arith, ground arith)
        | inr room ↦ inl (ground arith, ground arith)
      ]
    ]
    | inr off ↦ inl (rw off, rw off tt)
  ]
