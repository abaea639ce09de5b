-- ===== src/Fixtures.antt =====
-- A small workspace for examples: the tables, the settings, and stand-ins for the libraries.
use enterprise_document_inte.Base.{
  ap, arith, ◌∙◌, ◌++◌, take, drop, take-length-append, drop-length-append, length, contains, ℕ,
  ◌+◌, ◌-◌, ◌*◌, ◌/◌, zero, suc, ◌≡◌, refl, Bool, true, false, Option, none, some, [], ◌∷◌, Text,
  codes, text_eq, text_eq_refl, eq_of_text_eq, ltb, ◌==◌, if◌then◌else◌,
}
use enterprise_document_inte.Models.{
  Db, Tenant, User, Document, DocumentChunk, UserRole, ContentVisibility, SalesContentType,
  IngestionStatus, PrincipalType, InvitationStatus, Permission,
}
use enterprise_document_inte.Session.{Session, Settings}
use enterprise_document_inte.Security.{PasswordContext, Jwt, TokenPayload, TokenType}
use enterprise_document_inte.Documents.{CurrentUser}
use enterprise_document_inte.Retrieval.{Engine}
use enterprise_document_inte.Passwords.{Uuid}
use enterprise_document_inte.Router.{Sensitive}
use enterprise_document_inte.Crypto.{Aead, Encoding, EncryptedBlob}
use mathlib.Core.Option.{some-injective}
use enterprise_document_inte.Crypto.Envelope.{Cipher}
use enterprise_document_inte.Workflow.{Verification, Models, Runner, Reply}

-- A password stands for its own hash.
abbrev pub plain : PasswordContext
plain = record {
  hash = λ salt p. p;
  verify = text_eq;
  verify-hash = λ salt p. text_eq_refl p;
  eq_of_verify = λ salt p q h. eq_of_text_eq p q h;
}

abbrev role_code : UserRole → ℕ
role_code UserRole.owner = 0
role_code UserRole.admin = 1
role_code UserRole.member = 2

abbrev role_of : ℕ → UserRole
role_of zero = UserRole.owner
role_of (suc zero) = UserRole.admin
role_of (suc (suc n)) = UserRole.member

abbrev type_code : TokenType → ℕ
type_code TokenType.access = 0
type_code TokenType.refresh = 1

abbrev type_of : ℕ → TokenType
type_of zero = TokenType.access
type_of (suc n) = TokenType.refresh

-- A token is the list of its claims.
abbrev encode_claims : TokenPayload → Text
encode_claims c =
    c.sub ∷ c.tenant_id ∷ role_code c.role ∷ type_code c.type ∷ c.jti ∷ c.iat ∷ c.exp ∷ []

abbrev decode_claims : ℕ → Text → Option TokenPayload
decode_claims now (sub ∷ tenant_id ∷ role ∷ type ∷ jti ∷ iat ∷ exp ∷ []) =
    if ltb exp now
    then none
    else some (record {
      sub = sub;
      tenant_id = tenant_id;
      role = role_of role;
      type = type_of type;
      jti = jti;
      iat = iat;
      exp = exp;
    })
decode_claims now _ = none

role_of-role_code : (r : UserRole) → role_of (role_code r) ≡ r
role_of-role_code UserRole.owner = refl
role_of-role_code UserRole.admin = refl
role_of-role_code UserRole.member = refl

type_of-type_code : (t : TokenType) → type_of (type_code t) ≡ t
type_of-type_code TokenType.access = refl
type_of-type_code TokenType.refresh = refl

pub decode-encode_claims :
    (now : ℕ) (c : TokenPayload)
    → decode_claims now (encode_claims c) ≡ (if ltb c.exp now then none else some c)
decode-encode_claims now c i =
    if ltb c.exp now
    then none
    else some (record c { role = role_of-role_code c.role i; type = type_of-type_code c.type i })

abbrev pub claims : Jwt
claims = record {
  encode = encode_claims;
  decode = decode_claims;
  decode-encode = decode-encode_claims;
}

-- Numbers stand for floating-point numbers, and every passage is as relevant as its length.
abbrev pub numbers : Engine
numbers = record {
  Float = ℕ;
  add = λ x y. x + y;
  sub = λ x y. x - y;
  mul = λ x y. x * y;
  div = λ x y. x / y;
  log = λ x. x;
  sqrt = λ x. x;
  lt = ltb;
  is_zero = λ x. x == 0;
  of_ℕ = λ n. n;
  decimal = λ n k. n;
  embedding = λ c. c.chunk_index ∷ [];
  cosine_distance = λ a b. 0;
  ts_match = λ query c. true;
  ts_rank = λ query c. c.chunk_index;
  decrypt_str = λ t. t;
  relevance = λ query t. 1;
}

abbrev ones : ℕ → Text
ones zero = []
ones (suc n) = b'1' ∷ ones n

abbrev count_tail : Text → Option ℕ
count_tail [] = none
count_tail (c ∷ text) = some (length text)

length-ones : (n : ℕ) → length (ones n) ≡ n
length-ones zero = refl
length-ones (suc n) = omega (arith, length-ones n)

contains-ones : (n : ℕ) → contains b'.' (ones n) ≡ false
contains-ones zero = refl
contains-ones (suc n) = contains-ones n

pub count_tail-ones : (n : ℕ) → count_tail (b'0' ∷ ones n) ≡ some n
count_tail-ones n = ap (λ m. some m) (length-ones n)

pub contains_dot-ones : (n : ℕ) → contains b'.' (b'0' ∷ ones n) ≡ false
contains_dot-ones n = contains-ones n

-- The text of an id, in unary.
abbrev pub unary : Uuid
unary = record {
  hex = λ n. b'0' ∷ ones n;
  of_hex = count_tail;
  of_hex-hex = count_tail-ones;
  no_dot = contains_dot-ones;
  not_empty = λ n. refl;
}

abbrev pub settings : Settings
settings = record {
  enable_billing = true;
  enable_human_review = true;
  enable_bm25 = true;
  default_plan_key = "trial";
  invite_token_ttl_hours = 72;
  reset_token_ttl_hours = 1;
  access_token_expire_minutes = 30;
  refresh_token_expire_days = 7;
  confidence_threshold = 700;
  deployment_mode = "saas";
  planner_model = "small";
  verifier_model = "small";
  synthesizer_model = "large";
  self_hosted_llm_model = "local";
  max_subqueries = 4;
  final_top_k = 8;
  hybrid_vector_candidates = 20;
  hybrid_bm25_candidates = 20;
  enable_connectors = true;
  max_upload_bytes = 1000;
  allowed_upload_extensions = codes "pdf" ∷ codes "txt" ∷ [];
}

abbrev user : ℕ → Text → UserRole → Bool → User
user id email role is_active = record {
  id = id;
  tenant_id = 1;
  email = email;
  hashed_password = codes "secret";
  role = role;
  is_active = is_active;
  deleted_at = none;
}

abbrev document : ℕ → ContentVisibility → Document
document id visibility = record {
  id = id;
  tenant_id = 1;
  owner_user_id = 10;
  filename = codes "a.pdf";
  mime_type = codes "pdf";
  size_bytes = 3;
  content_type = SalesContentType.product;
  created_at = id;
  storage_key = [];
  visibility = visibility;
  status = IngestionStatus.completed;
  error_message = none;
  page_count = none;
  chunk_count = 1;
  deleted_at = none;
}

abbrev chunk : ℕ → ℕ → ℕ → DocumentChunk
chunk id tenant_id document_id = record {
  id = id;
  tenant_id = tenant_id;
  document_id = document_id;
  chunk_index = id;
  content_encrypted = codes "notice period";
}

abbrev pub acme : Tenant
acme = record { id = 1; name = codes "Acme"; slug = codes "acme"; is_active = true }

-- An owner, a member, a user who was deactivated, and one pending invitation.
abbrev pub db : Db
db = record {
  tenants = acme ∷ [];
  users =
      user 10 (codes "owner@acme.io") UserRole.owner true
      ∷ user 11 (codes "member@acme.io") UserRole.member true
      ∷ user 12 (codes "former@acme.io") UserRole.member false
      ∷ [];
  documents =
      document 20 ContentVisibility.rep_visible ∷ document 21 ContentVisibility.manager_only ∷ [];
  access_controls =
      (record {
        id = 40;
        tenant_id = 1;
        document_id = 21;
        principal_type = PrincipalType.user;
        principal_id = 11;
        permissions = Permission.view ∷ [];
        granted_by_user_id = 10;
      })
      ∷ [];
  groups = [];
  memberships = [];
  segments = [];
  document_segments = [];
  objection_segments = [];
  invitations =
      (record {
        id = 50;
        tenant_id = 1;
        email = codes "new@acme.io";
        role = UserRole.member;
        token_hash = codes "ABCDE";
        expires_at = 5000;
        status = InvitationStatus.pending;
        invited_by_user_id = 10;
        accepted_at = none;
      })
      ∷ [];
  subscriptions = [];
  reset_tokens = [];
  queries = [];
  conversations = [];
  api_keys = [];
  ramp_topics = [];
  saved_objections = [];
  chunks = chunk 30 1 20 ∷ chunk 31 1 21 ∷ chunk 32 2 29 ∷ [];
  audit_logs = [];
}

abbrev pub session : Session
session = record {
  settings = settings;
  trace_id = none;
  now = 1000;
  next_id = 100;
  db = db;
  committed = [];
  tasks = [];
}

abbrev pub owner : CurrentUser
owner = record { id = 10; tenant_id = 1; role = UserRole.owner; ip = none }

abbrev pub sure : Verification
sure = record { confidence = 900; is_grounded = true; confidentiality_concern = false; issues = [] }

abbrev pub models : Models ℕ
models = record {
  plan = λ client model history question. Reply.returned (codes "notice" ∷ codes " " ∷ []);
  verify = λ client model question chunks. Reply.returned sure;
  complete = λ client model question chunks. Reply.returned (codes "Thirty days [1].");
}

abbrev pub runner : Runner numbers ℕ
runner = record {
  tenant_id = 1;
  user_id = 11;
  role = UserRole.member;
  trace_id = none;
  router = record { cloud_client = 7; self_hosted_client = none };
  tenant_settings = record {
    require_self_hosted_llm = false;
    sensitive_classification = Sensitive.confidential;
  };
  deployment_mode = "saas";
  models = models;
  embed_query = λ text. 1 ∷ [];
  rerank_weight = 0;
  postgres = true;
}

-- A text stands for its own token.
abbrev pub open_cipher : Cipher
open_cipher = record {
  encrypt_str = λ t. t;
  decrypt_str = λ t. some t;
  decrypt-encrypt = λ t. refl;
}

abbrev pub member : CurrentUser
member = record { id = 11; tenant_id = 1; role = UserRole.member; ip = none }

-- No cipher at all keeps the two laws.
abbrev pub no_aead : Aead
no_aead = record {
  encrypt = λ key nonce plain. plain;
  decrypt = λ key nonce text. some text;
  decrypt-encrypt = λ key nonce plain. refl;
  eq_of_decrypt = λ key nonce text plain h. some-injective text plain h;
}

abbrev blob_text : EncryptedBlob → Text
blob_text b =
    b.key_version
    ∷ length b.ciphertext
    ∷ length b.nonce
    ∷ length b.wrapped_dek
    ∷ (b.ciphertext ++ (b.nonce ++ (b.wrapped_dek ++ b.dek_nonce)))

abbrev text_blob : Text → Option EncryptedBlob
text_blob (version ∷ a ∷ b ∷ c ∷ rest) = some (record {
  ciphertext = take a rest;
  nonce = take b (drop a rest);
  wrapped_dek = take c (drop b (drop a rest));
  dek_nonce = drop c (drop b (drop a rest));
  key_version = version;
})
text_blob _ = none

pub text_blob-blob_text : (b : EncryptedBlob) → text_blob (blob_text b) ≡ some b
text_blob-blob_text b =
    let tail = b.wrapped_dek ++ b.dek_nonce in
    let first = take-length-append b.ciphertext (b.nonce ++ tail) in
    let after_first = drop-length-append b.ciphertext (b.nonce ++ tail) in
    let after_second = ap (drop (length b.nonce)) after_first ∙ drop-length-append b.nonce tail in
    let second = ap (take (length b.nonce)) after_first ∙ take-length-append b.nonce tail in
    let third =
      ap (take (length b.wrapped_dek)) after_second
      ∙ take-length-append b.wrapped_dek b.dek_nonce in
    let fourth =
      ap (drop (length b.wrapped_dek)) after_second
      ∙ drop-length-append b.wrapped_dek b.dek_nonce in
    λ i. some (record {
      ciphertext = first i;
      nonce = second i;
      wrapped_dek = third i;
      dek_nonce = fourth i;
      key_version = b.key_version;
    })

abbrev pub lengths : Encoding
lengths = record {
  to_token = blob_text;
  from_token = text_blob;
  from_token-to_token = text_blob-blob_text;
}
