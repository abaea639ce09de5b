-- ===== src/Models/Tables.antt =====
-- The tables, as one record.
use enterprise_document_inte.Base.{List}
use enterprise_document_inte.Models.Actions.{AuditLog}
use enterprise_document_inte.Models.Rows.{
  Tenant, User, Document, DocumentAccessControl, Group, GroupMembership, Segment, DocumentSegment,
  ObjectionSegment, Invitation, Subscription, PasswordResetToken, Query, DocumentChunk,
  Conversation, ApiKey, RampTopic, SavedObjection,
}

pub record Db : Type 0 where
  pub tenants : List Tenant
  pub users : List User
  pub documents : List Document
  pub access_controls : List DocumentAccessControl
  pub groups : List Group
  pub memberships : List GroupMembership
  pub segments : List Segment
  pub document_segments : List DocumentSegment
  pub objection_segments : List ObjectionSegment
  pub invitations : List Invitation
  pub subscriptions : List Subscription
  pub reset_tokens : List PasswordResetToken
  pub queries : List Query
  pub conversations : List Conversation
  pub api_keys : List ApiKey
  pub ramp_topics : List RampTopic
  pub saved_objections : List SavedObjection
  pub chunks : List DocumentChunk
  pub audit_logs : List AuditLog
