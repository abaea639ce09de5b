-- ===== src/Queries/Row.antt =====
-- What a row of queries says of an answer, of a new question and of a verdict.
use enterprise_document_inte.Base.{
  ℕ, ◌≡◌, refl, true, false, Option, none, some, List, [], ◌∷◌, Text, arith, find?, update,
  find?-update, find?-update_other, find?-holds, All, ◌==◌,
}
use enterprise_document_inte.Models.{Query, QueryStatus}
use enterprise_document_inte.Session.{Session}
use enterprise_document_inte.Documents.{CurrentUser}
use enterprise_document_inte.Crypto.Envelope.{Cipher}
use enterprise_document_inte.Workflow.{AgentState, Verification, Runner, or_empty}
use enterprise_document_inte.Retrieval.{Engine}
use enterprise_document_inte.Queries.{
  AnswerResponse, is_set, new_query, encrypt_answer, approved, rejected,
}

-- The row with an id.
abbrev pub row_of : ℕ → List Query → Option Query
row_of id queries = find? (λ (q : Query). q.id == id) queries

-- Every other row is the row that it was.
abbrev pub OthersKept : ℕ → List Query → List Query → Type 0
OthersKept id queries queries' =
    (other : ℕ) → (other == id) ≡ false → row_of other queries' ≡ row_of other queries

-- What a verdict leaves of a row, whichever it is.
pub record SameQuestion (q q' : Query) : Type 0 where
  pub id : q'.id ≡ q.id
  pub tenant : q'.tenant_id ≡ q.tenant_id
  pub user : q'.user_id ≡ q.user_id
  pub thread : q'.conversation_id ≡ q.conversation_id
  pub question : q'.question_encrypted ≡ q.question_encrypted
  pub created : q'.created_at ≡ q.created_at
  pub saved : q'.saved ≡ q.saved

apart :
    (id other : ℕ) (qs : List Query)
    → (other == id) ≡ false
    → All (λ (q : Query). (q.id == id) ≡ true → (q.id == other) ≡ false) qs
apart id other [] h = tt
apart id other (q ∷ qs) h = (λ e. ground arith, apart id other qs h)

pub update-OthersKept :
    (id : ℕ) (f : Query → Query) (qs : List Query)
    → ((q : Query) → (f q).id ≡ q.id)
    → OthersKept id qs (update (λ (q : Query). q.id == id) f qs)
update-OthersKept id f qs keep other h =
    find?-update_other (λ (q : Query). q.id == other) (λ (q : Query). q.id == id) f qs
      (λ q. ground (arith, keep q)) (apart id other qs h)

pub row_of-update :
    (id : ℕ) (f : Query → Query) (qs : List Query) (q : Query)
    → ((q : Query) → (f q).id ≡ q.id)
    → row_of id qs ≡ some q
    → row_of id (update (λ (q : Query). q.id == id) f qs) ≡ some (f q)
row_of-update id f qs q keep h =
    find?-update (λ (q : Query). q.id == id) (λ (q : Query). q.id == id) f qs
      (λ q. ground (arith, keep q)) q h (find?-holds (λ (q : Query). q.id == id) qs q h)

module _ (cipher : Cipher) where
  open cipher use {decrypt_str, decrypt-encrypt}

  -- A column holds a token that decrypts to the text.
  abbrev pub Holds : Text → Option Text → Type 0
  Holds text stored = (token : Text) × (stored ≡ some token) × (decrypt_str token ≡ some text)

  -- How an answer is stored: encrypted, and not at all where there is none, or an empty one.
  abbrev pub Keeps : Option Text → Option Text → Type 0
  Keeps none stored = stored ≡ none
  Keeps (some []) stored = stored ≡ none
  Keeps (some (c ∷ text)) stored = Holds (c ∷ text) stored

  abbrev pub Judges : Option Verification → Option ℕ → Type 0
  Judges none confidence = confidence ≡ none
  Judges (some ver) confidence = confidence ≡ some ver.confidence

  -- The row of a question that the caller asked in a session, and that a state answers.
  pub record NewRow (current : CurrentUser) (question : Text) (conversation_id : Option ℕ)
      (s : Session) (state : AgentState) (q : Query) : Type 0 where
    pub id : q.id ≡ s.next_id
    pub tenant : q.tenant_id ≡ current.tenant_id
    pub user : q.user_id ≡ current.id
    pub thread : q.conversation_id ≡ conversation_id
    pub unsaved : q.saved ≡ false
    pub asked : decrypt_str q.question_encrypted ≡ some question
    pub answer : Keeps state.answer q.answer_encrypted
    pub cited : q.citations ≡ some (or_empty state.citations)
    pub judged : Judges state.verification q.confidence
    pub status : state.status ≡ some q.status
    pub created : q.created_at ≡ s.now

  encrypt_answer-Keeps : (answer : Option Text) → Keeps answer (encrypt_answer cipher answer)
  encrypt_answer-Keeps none = refl
  encrypt_answer-Keeps (some []) = refl
  encrypt_answer-Keeps (some (c ∷ text)) =
      (cipher.encrypt_str (c ∷ text), refl, decrypt-encrypt (c ∷ text))

  confidence-Judges :
      (ver : Option Verification)
      → Judges ver (elim ver [ none ↦ none | some v ↦ some v.confidence ])
  confidence-Judges none = refl
  confidence-Judges (some ver) = refl

  pub new_query-NewRow :
      (current : CurrentUser) (question : Text) (conversation_id : Option ℕ) (s : Session)
      (state : AgentState) (status : QueryStatus)
      → state.status ≡ some status
      → NewRow current question conversation_id s state
          (new_query cipher current question state conversation_id s)
  new_query-NewRow current question conversation_id s state status h = record {
    id = refl;
    tenant = refl;
    user = refl;
    thread = refl;
    unsaved = refl;
    asked = decrypt-encrypt question;
    answer = encrypt_answer-Keeps state.answer;
    cited = refl;
    judged = confidence-Judges state.verification;
    status = ground (arith, h);
    created = refl;
  }

  -- The row of a query that an approval completes with the answer of a state.
  pub record CompletedRow (q : Query) (answer : Text) (state : AgentState) (q' : Query)
      : Type 0 where
    pub same : SameQuestion q q'
    pub stored : Holds answer q'.answer_encrypted
    pub cited : q'.citations ≡ some (or_empty state.citations)
    pub status : q'.status ≡ QueryStatus.completed

  -- The row of a query that a rejection leaves: with the answer that it had.
  pub record RejectedRow (q q' : Query) : Type 0 where
    pub same : SameQuestion q q'
    pub kept : q'.answer_encrypted ≡ q.answer_encrypted
    pub cited : q'.citations ≡ q.citations
    pub status : q'.status ≡ QueryStatus.rejected

  pub approved-CompletedRow :
      {Client : Type 0} {E : Engine} (base : Runner E Client) (q : Query) (answer : Text)
      (state : AgentState)
      → CompletedRow q answer state (approved cipher base answer state q)
  approved-CompletedRow base q answer state = record {
    same = record {
      id = refl;
      tenant = refl;
      user = refl;
      thread = refl;
      question = refl;
      created = refl;
      saved = refl;
    };
    stored = (cipher.encrypt_str answer, refl, decrypt-encrypt answer);
    cited = refl;
    status = refl;
  }

  pub rejected-RejectedRow : (q : Query) → RejectedRow q (rejected cipher q)
  rejected-RejectedRow q = record {
    same = record {
      id = refl;
      tenant = refl;
      user = refl;
      thread = refl;
      question = refl;
      created = refl;
      saved = refl;
    };
    kept = refl;
    cited = refl;
    status = refl;
  }

-- The response says what the row and the state say.
pub record Shows (state : AgentState) (q : Query) (response : AnswerResponse) : Type 0 where
  pub query_id : response.query_id ≡ q.id
  pub status : response.status ≡ q.status
  pub review : response.requires_approval ≡ is_set state.requires_approval
  pub answer : response.answer ≡ state.answer
  pub cited : response.citations ≡ or_empty state.citations
  pub thread : response.conversation_id ≡ q.conversation_id
