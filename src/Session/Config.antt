-- ===== src/Session/Config.antt =====
-- backend/app/core/config.py: the settings that the modelled services read. Confidence is counted
-- in thousandths.
use Prim.Native.String.{String}
use enterprise_document_inte.Base.{ℕ, Bool, List, Text}

pub record Settings : Type 0 where
  pub enable_billing : Bool
  pub enable_human_review : Bool
  pub enable_bm25 : Bool
  pub default_plan_key : String
  pub invite_token_ttl_hours : ℕ
  pub reset_token_ttl_hours : ℕ
  pub access_token_expire_minutes : ℕ
  pub refresh_token_expire_days : ℕ
  pub confidence_threshold : ℕ
  pub deployment_mode : String
  pub planner_model : String
  pub verifier_model : String
  pub synthesizer_model : String
  pub self_hosted_llm_model : String
  pub max_subqueries : ℕ
  pub final_top_k : ℕ
  pub hybrid_vector_candidates : ℕ
  pub hybrid_bm25_candidates : ℕ
  pub enable_connectors : Bool
  pub max_upload_bytes : ℕ
  pub allowed_upload_extensions : List Text
