-- ===== src/Models/Rows.antt =====
-- The rows of backend/app/models, with the columns that the services read or write.
use Prim.Native.String.{String}
use enterprise_document_inte.Base.{ℕ, Bool, Option, List, Text}
use enterprise_document_inte.Models.Enums.{
  UserRole, SalesContentType, GroupType, ContentVisibility, IngestionStatus, PrincipalType,
  InvitationStatus, SubscriptionStatus, QueryStatus, Permission,
}

-- tenant.py
pub record Tenant : Type 0 where
  pub id : ℕ
  pub name : Text
  pub slug : Text
  pub is_active : Bool

-- user.py
pub record User : Type 0 where
  pub id : ℕ
  pub tenant_id : ℕ
  pub email : Text
  pub hashed_password : Text
  pub role : UserRole
  pub is_active : Bool
  pub deleted_at : Option ℕ

-- document.py
pub record Document : Type 0 where
  pub id : ℕ
  pub tenant_id : ℕ
  pub owner_user_id : ℕ
  pub filename : Text
  pub mime_type : Text
  pub size_bytes : ℕ
  pub storage_key : Text
  pub content_type : SalesContentType
  pub visibility : ContentVisibility
  pub status : IngestionStatus
  pub error_message : Option Text
  pub page_count : Option ℕ
  pub chunk_count : ℕ
  pub created_at : ℕ
  pub deleted_at : Option ℕ

-- document_access_control.py
pub record DocumentAccessControl : Type 0 where
  pub id : ℕ
  pub tenant_id : ℕ
  pub document_id : ℕ
  pub principal_type : PrincipalType
  pub principal_id : ℕ
  pub permissions : List Permission
  pub granted_by_user_id : ℕ

-- group.py, group_membership.py
pub record Group : Type 0 where
  pub id : ℕ
  pub tenant_id : ℕ
  pub name : Text
  pub group_type : GroupType
  pub description : Option Text

pub record GroupMembership : Type 0 where
  pub tenant_id : ℕ
  pub group_id : ℕ
  pub user_id : ℕ

-- segment.py, document_segment.py, objection_segment.py
pub record Segment : Type 0 where
  pub id : ℕ
  pub tenant_id : ℕ
  pub name : Text
  pub sort_order : ℕ

pub record DocumentSegment : Type 0 where
  pub tenant_id : ℕ
  pub document_id : ℕ
  pub segment_id : ℕ

pub record ObjectionSegment : Type 0 where
  pub tenant_id : ℕ
  pub objection_id : ℕ
  pub segment_id : ℕ

-- invitation.py
pub record Invitation : Type 0 where
  pub id : ℕ
  pub tenant_id : ℕ
  pub email : Text
  pub role : UserRole
  pub token_hash : Text
  pub expires_at : ℕ
  pub status : InvitationStatus
  pub invited_by_user_id : ℕ
  pub accepted_at : Option ℕ

-- subscription.py
pub record Subscription : Type 0 where
  pub id : ℕ
  pub tenant_id : ℕ
  pub plan_key : String
  pub status : SubscriptionStatus
  pub seats : ℕ
  pub stripe_customer_id : Option Text
  pub stripe_subscription_id : Option Text
  pub current_period_end : Option ℕ

-- password_reset_token.py
pub record PasswordResetToken : Type 0 where
  pub id : ℕ
  pub tenant_id : ℕ
  pub user_id : ℕ
  pub token_hash : Text
  pub expires_at : ℕ
  pub used_at : Option ℕ

-- `Citation` of agents/state.py, which `citations` of query.py holds.
pub record Citation : Type 0 where
  pub marker : ℕ
  pub document_id : ℕ
  pub chunk_id : ℕ
  pub filename : Text
  pub snippet : Text

-- query.py
pub record Query : Type 0 where
  pub id : ℕ
  pub tenant_id : ℕ
  pub user_id : ℕ
  pub conversation_id : Option ℕ
  pub saved : Bool
  pub question_encrypted : Text
  pub answer_encrypted : Option Text
  pub citations : Option (List Citation)
  pub confidence : Option ℕ
  pub status : QueryStatus
  pub created_at : ℕ
  pub trace_id : Option Text

-- conversation.py
pub record Conversation : Type 0 where
  pub id : ℕ
  pub tenant_id : ℕ
  pub user_id : ℕ
  pub title : Option Text
  pub created_at : ℕ
  pub updated_at : ℕ

-- api_key.py
pub record ApiKey : Type 0 where
  pub id : ℕ
  pub tenant_id : ℕ
  pub user_id : ℕ
  pub name : Text
  pub prefix : Text
  pub key_hash : Text
  pub scopes : List String
  pub last_used_at : Option ℕ
  pub expires_at : Option ℕ
  pub revoked_at : Option ℕ

-- ramp_topic.py, saved_objection.py
pub record RampTopic : Type 0 where
  pub id : ℕ
  pub tenant_id : ℕ
  pub title : Text
  pub suggested_question : Text
  pub sort_order : ℕ

pub record SavedObjection : Type 0 where
  pub id : ℕ
  pub tenant_id : ℕ
  pub label : Text
  pub prompt : Text
  pub sort_order : ℕ

-- document_chunk.py
pub record DocumentChunk : Type 0 where
  pub id : ℕ
  pub tenant_id : ℕ
  pub document_id : ℕ
  pub chunk_index : ℕ
  pub content_encrypted : Text
