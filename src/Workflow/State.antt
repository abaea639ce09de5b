-- ===== src/Workflow/State.antt =====
-- backend/app/agents/state.py. A key that the dictionary lacks is `none`. A confidence is a number of
-- thousandths.
use enterprise_document_inte.Base.{ℕ, Bool, Option, List, Text}
use enterprise_document_inte.Models.{QueryStatus}
pub use enterprise_document_inte.Models.{Citation}

pub record Verification : Type 0 where
  pub confidence : ℕ
  pub is_grounded : Bool
  pub confidentiality_concern : Bool
  pub issues : List Text

pub record RetrievedChunk : Type 0 where
  pub chunk_id : ℕ
  pub document_id : ℕ
  pub chunk_index : ℕ
  pub text : Text
  pub filename : Text

pub record AgentState : Type 0 where
  pub question : Text
  pub history : List (Text × Text)
  pub subqueries : Option (List Text)
  pub chunks : Option (List RetrievedChunk)
  pub verification : Option Verification
  pub requires_approval : Option Bool
  pub answer : Option Text
  pub citations : Option (List Citation)
  pub status : Option QueryStatus
  pub error : Option Text
