-- ===== src/Lib.antt =====
-- A document intelligence service: a tenant's users upload documents, ask questions, and get answers
-- with citations, within the limits of a plan. The backend is an asynchronous Python web service; this
-- library models its core in backend/app.
--
-- How the parts interact. A request carries a user of one tenant. Access to a document is decided by
-- authorization, from the role, the owner, the visibility and the grants. A question runs the agent
-- workflow: the planner writes sub-queries, the retriever searches the chunks of the documents that the
-- caller may query, the verifier rates them, and the answer is written, or held for a reviewer. Each
-- call of a language model is routed to the cloud or to the self-hosted profile. Users and invitations
-- take seats, which the quota of the plan limits. What matters is written to the audit log.
--
-- Which file models which part:
-- - Models.antt and its children: the tables of backend/app/models, with the columns that are read or
--   written here. An id is a number, and a time is a number of seconds.
-- - Session.antt, Session/Config.antt, Errors.antt: backend/app/db/session.py, core/config.py and
--   errors.py. A handler is a function from a session to a result and a session; `transaction` is
--   `get_session`. `new_id` is `uuid4`, a supply of ids.
-- - Audit.antt: backend/app/services/audit_service.py.
-- - Authz.antt: backend/app/services/authz.py.
-- - Documents.antt: deletion and grants in backend/app/api/v1/documents.py; Uploads.antt: its other
--   handlers, with backend/app/services/ingestion_intake.py and malware_scan.py.
-- - Billing.antt and its children: backend/app/services/plans_data.py, usage_service.py and
--   billing_service.py, with the webhook handler of backend/app/api/v1/billing.py.
-- - Security.antt, Security/Tokens.antt: backend/app/core/security.py.
-- - Invitations.antt, Invitations/Keys.antt: backend/app/services/invitation_service.py.
-- - Members.antt: the administration of users in backend/app/api/v1/admin.py.
-- - Retrieval.antt and its children: backend/app/services/retrieval.py and keyword_search.py.
-- - Router.antt: backend/app/services/model_router.py.
-- - Workflow.antt and its children: backend/app/agents. Fixtures.antt and Examples.antt hold a small
--   workspace and the theorems on it.
-- - Passwords.antt: backend/app/services/password_reset_service.py.
-- - Auth.antt: backend/app/services/auth_service.py and `get_current_user` of backend/app/core/deps.py.
-- - Crypto.antt: backend/app/core/crypto.py.
-- - Queries.antt: backend/app/api/v1/query.py.
-- - Segments.antt: backend/app/services/segment_service.py and backend/app/api/v1/segments.py.
-- - Ingestion.antt, Ingestion/Extraction.antt: backend/app/services/ingestion.py, extraction.py and
--   chunking.py.
-- - ApiKeys.antt: backend/app/services/api_key_service.py, the documents' tools of mcp_tools.py, and the
--   key handlers of backend/app/api/v1/admin.py.
-- - Groups.antt: the groups and the invitations of backend/app/api/v1/admin.py.
-- - Knowledge.antt: backend/app/api/v1/objections.py and ramp.py.
-- - Templates.antt, Templates/Starters.antt: backend/app/services/template_service.py and
--   templates_data.py.
-- The functions have the names of the source, without a leading underscore.
--
-- Parameters: the password hash, the signature of tokens, the text of an id, floating-point numbers, the operators of
-- PostgreSQL, AES-GCM and the encoding of its tokens, the parsers of documents, the splitter, the object
-- storage as it is read, the embedder, the reranker's model and the language models. Their records
-- state what is relied on: a password verifies against its own hash and against no other password's,
-- and a signed token decodes to its claims until it expires. Random characters and salts are
-- arguments. Confidence is counted in thousandths.
--
-- The flush of a session is modelled where its order shows: the tags of a document or an objection are
-- replaced in one flush, of which the inserts come before the deletes, so that a tag which is there
-- already breaks the unique key. Digits of an answer's markers are the decimal digits of Unicode 14.
--
-- Bounds. No function runs on fuel: every loop is over a list, or over the four groups of a key. The
-- numbers of the source are Python's, which do not overflow.
--
-- Not modelled: payment providers, writes to the object storage, e-mail and the other network clients,
-- the streaming forms of an answer, and the web layer; they are calls of libraries or wiring. Email
-- texts are compared by the letters of ASCII. The handlers of conversations, search and tenant settings,
-- and the services for compliance, analytics and evaluation are not modelled either.
pub mod Base
pub mod Errors
pub mod Models
pub mod Session
pub mod Audit
pub mod Authz
pub mod Documents
pub mod Billing
pub mod Security
pub mod Invitations
pub mod Members
pub mod Passwords
pub mod Auth
pub mod Retrieval
pub mod Router
pub mod Crypto
pub mod Workflow
pub mod Queries
pub mod Segments
pub mod Ingestion
pub mod Uploads
pub mod ApiKeys
pub mod Groups
pub mod Knowledge
pub mod Templates
pub mod Fixtures
pub mod Examples
