-- ===== src/Examples/Questions.antt =====
-- Questions, their review, the encryption and the keys at concrete inputs.
use enterprise_document_inte.Base.{ℕ, ◌≡◌, refl, true, false, none, some, List, [], ◌∷◌, codes}
use enterprise_document_inte.Models.{Query, QueryStatus, ApiKey, User, UserRole}
use enterprise_document_inte.Session.{Session, transaction, ok}
use enterprise_document_inte.Audit.{write_event}
use enterprise_document_inte.Queries.{QueryRead, ask, approve_query, reject_query}
use enterprise_document_inte.Queries.Review.{Approved, approve_query-Approved}
use enterprise_document_inte.Queries.Rejection.{Rejected, reject_query_any_status}
use enterprise_document_inte.Queries.Log.{
  Appends, Label, Request, Requests, after, log, Requests-Appends,
}
use enterprise_document_inte.Crypto.{Fresh, KeyRing, encrypt_str, decrypt_str}
use enterprise_document_inte.Crypto.Envelope.{decrypt_str-encrypt_str}
use enterprise_document_inte.ApiKeys.{FreshKey, authenticate_key, revoke_api_key}
use enterprise_document_inte.ApiKeys.Access.{authenticate_key_after_revoke}
use enterprise_document_inte.Passwords.{before_dot}
use enterprise_document_inte.Authz.{is_privileged}
use enterprise_document_inte.Fixtures.{
  db, session, owner, member, runner, open_cipher, plain, no_aead, lengths,
}

abbrev question : List ℕ
question = codes "What is the notice period?"

-- A completed question of the member.
abbrev stored : Query
stored = record {
  id = 60;
  tenant_id = 1;
  user_id = 11;
  conversation_id = none;
  saved = false;
  question_encrypted = question;
  answer_encrypted = some (codes "Thirty days [1].");
  citations = some [];
  confidence = some 900;
  status = QueryStatus.completed;
  created_at = 900;
  trace_id = none;
}

abbrev asked_session : Session
asked_session = record session { db = record db { queries = stored ∷ [] } }

Requests-Appends_example :
    Appends open_cipher
      (Label.changing ∷ Label.asking 1 11 question ∷ [])
      (log open_cipher runner asked_session)
      (log open_cipher runner (
        after
          (reject_query open_cipher owner 60)
          (after (ask open_cipher runner member question none) asked_session)))
Requests-Appends_example = Requests-Appends open_cipher runner (
    Requests.one_more (Requests.one_more Requests.none_yet (Request.asks member question none))
      (Request.rejects owner 60))

approve_query-Approved_example :
    Approved open_cipher runner owner 60 asked_session
      (transaction (approve_query open_cipher runner owner 60) asked_session).0
      (transaction (approve_query open_cipher runner owner 60) asked_session).1
approve_query-Approved_example = approve_query-Approved open_cipher runner owner 60 asked_session

reject_query_any_status_example :
    Rejected open_cipher owner 60 asked_session
      (transaction (reject_query open_cipher owner 60) asked_session).0
      (transaction (reject_query open_cipher owner 60) asked_session).1
reject_query_any_status_example = reject_query_any_status open_cipher owner 60 asked_session

abbrev shown : QueryRead
shown = record {
  id = 60;
  status = QueryStatus.completed;
  question = question;
  answer = some (codes "Thirty days [1].");
  citations = [];
  confidence = some 900;
  created_at = 900;
  conversation_id = none;
  saved = false;
}

abbrev fresh : FreshKey
fresh = record { token_hex = codes "ab12"; secret = codes "s3cret"; salt = 0 }

abbrev member_row : User
member_row = record {
  id = 11;
  tenant_id = 1;
  email = codes "member@acme.io";
  hashed_password = codes "secret";
  role = UserRole.member;
  is_active = true;
  deleted_at = none;
}

abbrev key_row : ApiKey
key_row = record {
  id = 70;
  tenant_id = 1;
  user_id = 11;
  name = codes "ci";
  prefix = codes "edip_ab12";
  key_hash = codes "s3cret";
  scopes = [];
  last_used_at = none;
  expires_at = some 2000;
  revoked_at = none;
}

abbrev keyed_session : Session
keyed_session = record session { db = record db { api_keys = key_row ∷ [] } }

authenticate_key_after_revoke_example :
    (authenticate_key plain
      (codes "edip_ab12.s3cret")
      (revoke_api_key plain owner 70 keyed_session).1).0
    ≡ ok none
unfolding revoke_api_key write_event before_dot is_privileged
authenticate_key_after_revoke_example =
    authenticate_key_after_revoke plain owner 70 keyed_session key_row (codes "edip_ab12.s3cret")
      refl refl refl

abbrev ring : KeyRing
ring = record { encryption_key_version = 1; master_kek_bytes = codes "master" }

abbrev drawn : Fresh
drawn = record {
  dek = codes "0123456789abcdef0123456789abcdef";
  data_nonce = codes "n1";
  dek_nonce = codes "n2";
}

decrypt_str-encrypt_str_example :
    (token : List ℕ) × (encrypt_str no_aead lengths ring drawn question none ≡ some token)
    × (decrypt_str no_aead lengths ring token ≡ some question)
decrypt_str-encrypt_str_example = decrypt_str-encrypt_str no_aead lengths ring drawn question refl
