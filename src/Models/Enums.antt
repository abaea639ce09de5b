-- ===== src/Models/Enums.antt =====
-- The enumerations of backend/app/models and of services/authz.py.
use enterprise_document_inte.Base.{ℕ, Bool, true, false, ◌≡◌, arith, ◌==◌}

-- user.py
pub data UserRole : Type 0 where
  owner admin member : UserRole

-- document.py
pub data ContentVisibility : Type 0 where
  rep_visible manager_only : ContentVisibility

pub data SalesContentType : Type 0 where
  product pricing objections battlecard case_study script : SalesContentType

pub data ClassificationLevel : Type 0 where
  public internal confidential privileged : ClassificationLevel

pub data IngestionStatus : Type 0 where
  pending processing completed failed : IngestionStatus

-- document_access_control.py
pub data PrincipalType : Type 0 where
  user group : PrincipalType

-- group.py
pub data GroupType : Type 0 where
  department matter client team custom : GroupType

-- invitation.py
pub data InvitationStatus : Type 0 where
  pending accepted revoked : InvitationStatus

-- subscription.py
pub data SubscriptionStatus : Type 0 where
  trialing active past_due canceled : SubscriptionStatus

-- query.py, and the values of `QueryState` in agents/state.py
pub data QueryStatus : Type 0 where
  pending processing completed pending_approval rejected failed : QueryStatus

-- services/authz.py
pub data Permission : Type 0 where
  view query delete review manage : Permission

permission_rank : Permission → ℕ
permission_rank Permission.view = 0
permission_rank Permission.query = 1
permission_rank Permission.delete = 2
permission_rank Permission.review = 3
permission_rank Permission.manage = 4

-- `==` of two permissions.
unfoldable pub permission_eq : Permission → Permission → Bool
unfolding permission_rank
permission_eq p q = permission_rank p == permission_rank q

pub permission_eq_refl : (p : Permission) → permission_eq p p ≡ true
unfolding permission_eq
permission_eq_refl p = ground arith

abbrev pub is_rep_visible : ContentVisibility → Bool
is_rep_visible ContentVisibility.rep_visible = true
is_rep_visible ContentVisibility.manager_only = false

abbrev pub is_pending : InvitationStatus → Bool
is_pending InvitationStatus.pending = true
is_pending InvitationStatus.accepted = false
is_pending InvitationStatus.revoked = false
