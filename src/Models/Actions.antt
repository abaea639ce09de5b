-- ===== src/Models/Actions.antt =====
-- `AuditAction` and `AuditLog` of backend/app/models/audit_log.py.
use Prim.Native.String.{String}
use enterprise_document_inte.Base.{ℕ, Bool, Option, none, some, List, [], Text}

pub data AuditAction : Type 0 where
  tenant_registered : AuditAction
  user_registered : AuditAction
  login_succeeded : AuditAction
  login_failed : AuditAction
  token_refreshed : AuditAction
  audit_read : AuditAction
  document_uploaded : AuditAction
  document_ingested : AuditAction
  document_ingestion_failed : AuditAction
  document_viewed : AuditAction
  document_listed : AuditAction
  search_performed : AuditAction
  query_submitted : AuditAction
  query_answered : AuditAction
  query_pending_approval : AuditAction
  query_approved : AuditAction
  query_rejected : AuditAction
  llm_call : AuditAction
  eval_run_started : AuditAction
  eval_run_completed : AuditAction
  eval_results_viewed : AuditAction
  group_created : AuditAction
  group_deleted : AuditAction
  group_member_added : AuditAction
  group_member_removed : AuditAction
  user_created : AuditAction
  user_updated : AuditAction
  user_deactivated : AuditAction
  permission_granted : AuditAction
  permission_revoked : AuditAction
  document_acl_viewed : AuditAction
  document_deleted : AuditAction
  access_denied : AuditAction
  audit_exported : AuditAction
  api_key_created : AuditAction
  api_key_revoked : AuditAction
  mcp_tool_called : AuditAction
  dsr_received : AuditAction
  dsr_fulfilled : AuditAction
  compliance_config_viewed : AuditAction
  tenant_settings_updated : AuditAction
  llm_route_denied : AuditAction
  ramp_topic_created : AuditAction
  ramp_topic_updated : AuditAction
  ramp_topic_deleted : AuditAction
  objection_created : AuditAction
  objection_updated : AuditAction
  objection_deleted : AuditAction
  segment_created : AuditAction
  segment_updated : AuditAction
  segment_deleted : AuditAction
  document_segments_updated : AuditAction
  template_applied : AuditAction
  url_imported : AuditAction
  connector_token_set : AuditAction
  connector_synced : AuditAction
  user_invited : AuditAction
  invite_accepted : AuditAction
  invite_revoked : AuditAction
  password_reset_requested : AuditAction
  password_reset_completed : AuditAction
  subscription_created : AuditAction
  subscription_updated : AuditAction
  checkout_started : AuditAction
  billing_portal_opened : AuditAction
  analytics_viewed : AuditAction
  analytics_exported : AuditAction

-- The values of the JSON object `event_metadata`, and of the JSON columns.
pub data Json : Type 0 where
  word : String → Json
  text : Text → Json
  num : ℕ → Json
  flag : Bool → Json
  words : List String → Json
  nums : List ℕ → Json
  null : Json

-- A number, or `null`.
abbrev pub number_or_null : Option ℕ → Json
number_or_null none = Json.null
number_or_null (some n) = Json.num n

pub record AuditLog : Type 0 where
  pub tenant_id : ℕ
  pub actor_user_id : Option ℕ
  pub action : AuditAction
  pub resource_type : Option String
  pub resource_id : Option ℕ
  pub event_metadata : List (String × Json)
  pub ip_address : Option Text
  pub trace_id : Option Text
  pub outcome : Option String

-- The keyword arguments of an audit call, the optional ones left out.
abbrev pub event : ℕ → AuditAction → AuditLog
event tenant_id action = record {
  tenant_id = tenant_id;
  actor_user_id = none;
  action = action;
  resource_type = none;
  resource_id = none;
  event_metadata = [];
  ip_address = none;
  trace_id = none;
  outcome = none;
}
