-- ===== src/Retrieval/Scoped.antt =====
-- Tenant isolation and the document filter hold on every leg of a search.
use enterprise_document_inte.Base.{
  ℕ, ◌≡◌, inl, inr, Bool, true, false, ◌&&◌, ◌||◌, Option, List, [], ◌∷◌, arith, Text, map, filter,
  All, All-filter, All-take, ◌==◌, Bool-cases,
}
use enterprise_document_inte.Models.{DocumentChunk, Db}
use enterprise_document_inte.Session.{Settings}
use enterprise_document_inte.Retrieval.{
  Engine, ScoredChunk, sort_by, insert_by, scores_less, ranks_less, admits, scoped_chunks,
  search_python, search_pg, search, vector_pg, vector_python, vector_search, Candidate, put, merge,
  gather_dense, gather_sparse, blend, hybrid_search, k_or, is_blank, denies_all,
}

module _ {ℓ κ} {A : Type ℓ} (P : A → Type κ) where
  All-insert_by :
      (later : A → A → Bool) (x : A) (xs : List A) → P x → All P xs → All P (insert_by later x xs)
  unfolding insert_by
  All-insert_by later x [] p h = (p, tt)
  All-insert_by later x (y ∷ ys) p h = elim (Bool-cases (later x y)) [
    | inl behind ↦ rw behind (h.0, All-insert_by later x ys p h.1)
    | inr ahead ↦ rw ahead (p, h)
  ]

  pub All-sort_by : (later : A → A → Bool) (xs : List A) → All P xs → All P (sort_by later xs)
  unfolding sort_by
  All-sort_by later [] h = tt
  All-sort_by later (x ∷ xs) h =
      All-insert_by later x (sort_by later xs) h.0 (All-sort_by later xs h.1)

  pub All-filter_rest : (q : A → Bool) (xs : List A) → All P xs → All P (filter q xs)
  All-filter_rest q [] h = tt
  All-filter_rest q (x ∷ xs) h = elim (Bool-cases (q x)) [
    | inl kept ↦ rw kept (h.0, All-filter_rest q xs h.1)
    | inr dropped ↦ rw dropped (All-filter_rest q xs h.1)
  ]

pub All-map {ℓ κ η} :
    {A : Type ℓ} {B : Type κ} (P : B → Type η) (f : A → B) (xs : List A)
    → All (λ x. P (f x)) xs
    → All P (map f xs)
All-map P f [] h = tt
All-map P f (x ∷ xs) h = (h.0, All-map P f xs h.1)

-- What holds of every chunk that the tenant and the filter admit holds of every chunk found.
module _ (E : Engine) (P : DocumentChunk → Type 0) where
  open E use {Float}

  abbrev Ranked : List (DocumentChunk × Float) → Type 0
  Ranked rs = All (λ r. P r.0) rs

  abbrev Scored : List (ScoredChunk E) → Type 0
  Scored rs = All (λ r. P r.chunk) rs

  abbrev Candidates : List (Candidate E) → Type 0
  Candidates cs = All (λ c. P c.chunk) cs

  module _ (db : Db) (t : ℕ) (allowed : Option (List ℕ))
      (h : All P (scoped_chunks db t allowed)) where
    search_python-Ranked :
        (query : Text) (limit : ℕ) → Ranked (search_python E db t query limit allowed)
    unfolding search_python
    search_python-Ranked query limit =
        All-take (λ r. P r.0) limit _
          (All-sort_by (λ r. P r.0) (ranks_less E) _
            (All-filter_rest (λ r. P r.0) _ _ (All-map (λ r. P r.0) _ _ h)))

    search_pg-Ranked : (query : Text) (limit : ℕ) → Ranked (search_pg E db t query limit allowed)
    unfolding search_pg
    search_pg-Ranked query limit =
        All-take (λ r. P r.0) limit _
          (All-sort_by (λ r. P r.0) (ranks_less E) _
            (All-map (λ r. P r.0) _ _ (All-filter_rest P _ _ h)))

    search-Ranked :
        (postgres : Bool) (query : Text) (limit : ℕ)
        → Ranked (search E postgres db t query limit allowed)
    unfolding search
    search-Ranked true query limit = elim (Bool-cases (is_blank query || denies_all allowed)) [
      | inl stop ↦ rw stop tt
      | inr go ↦ rw go (search_pg-Ranked query limit)
    ]
    search-Ranked false query limit = elim (Bool-cases (is_blank query || denies_all allowed)) [
      | inl stop ↦ rw stop tt
      | inr go ↦ rw go (search_python-Ranked query limit)
    ]

    vector_pg-Scored : (emb : List Float) (k : ℕ) → Scored (vector_pg E db t emb k allowed)
    unfolding vector_pg
    vector_pg-Scored emb k = All-map (λ r. P r.chunk) _ _ (All-take P k _ (All-sort_by P _ _ h))

    vector_python-Scored : (emb : List Float) (k : ℕ) → Scored (vector_python E db t emb k allowed)
    unfolding vector_python
    vector_python-Scored emb k =
        All-take (λ r. P r.chunk) k _
          (All-sort_by (λ r. P r.chunk) (scores_less E) _ (All-map (λ r. P r.chunk) _ _ h))

    vector_search-Scored :
        (postgres : Bool) (emb : List Float) (k : ℕ)
        → Scored (vector_search E postgres db t emb k allowed)
    unfolding vector_search
    vector_search-Scored true emb k = elim (Bool-cases (denies_all allowed)) [
      | inl stop ↦ rw stop tt
      | inr go ↦ rw go (vector_pg-Scored emb k)
    ]
    vector_search-Scored false emb k = elim (Bool-cases (denies_all allowed)) [
      | inl stop ↦ rw stop tt
      | inr go ↦ rw go (vector_python-Scored emb k)
    ]

  put-Candidates :
      (x : Candidate E) (cs : List (Candidate E))
      → P x.chunk
      → Candidates cs
      → Candidates (put E x cs)
  put-Candidates x [] p h = (p, tt)
  put-Candidates x (c ∷ cs) p h = elim (Bool-cases (c.chunk.id == x.chunk.id)) [
    | inl same ↦ rw same (p, h.1)
    | inr other ↦ rw other (h.0, put-Candidates x cs p h.1)
  ]

  merge-Candidates :
      (chunk : DocumentChunk) (score : Float) (cs : List (Candidate E))
      → P chunk
      → Candidates cs
      → Candidates (merge E chunk score cs)
  merge-Candidates chunk score [] p h = (p, tt)
  merge-Candidates chunk score (c ∷ cs) p h = elim (Bool-cases (c.chunk.id == chunk.id)) [
    | inl same ↦ rw same h
    | inr other ↦ rw other (h.0, merge-Candidates chunk score cs p h.1)
  ]

  gather_dense-Candidates :
      (rs : List (ScoredChunk E)) (cs : List (Candidate E))
      → Scored rs
      → Candidates cs
      → Candidates (gather_dense E rs cs)
  unfolding gather_dense
  gather_dense-Candidates [] cs h k = k
  gather_dense-Candidates (r ∷ rs) cs h k =
      gather_dense-Candidates rs _ h.1 (put-Candidates _ cs h.0 k)

  gather_sparse-Candidates :
      (rs : List (DocumentChunk × Float)) (cs : List (Candidate E))
      → Ranked rs
      → Candidates cs
      → Candidates (gather_sparse E rs cs)
  unfolding gather_sparse
  gather_sparse-Candidates [] cs h k = k
  gather_sparse-Candidates ((c, x) ∷ rs) cs h k =
      gather_sparse-Candidates rs _ h.1 (merge-Candidates c x cs h.0 k)

  blend-Scored :
      (w : Float) (fusion : List (ℕ × Float)) (cs : List (Candidate E)) (rs ns : List Float)
      → Candidates cs
      → Scored (blend E w fusion cs rs ns)
  unfolding blend
  blend-Scored w fusion [] rs ns h = tt
  blend-Scored w fusion (c ∷ cs) [] ns h = tt
  blend-Scored w fusion (c ∷ cs) (r ∷ rs) [] h = tt
  blend-Scored w fusion (c ∷ cs) (r ∷ rs) (n ∷ ns) h = (h.0, blend-Scored w fusion cs rs ns h.1)

module _ (E : Engine) (P : DocumentChunk → Type 0) where
  open E use {Float}

  pub hybrid_search-keeps :
      (settings : Settings) (w : Float) (postgres : Bool) (db : Db) (t : ℕ) (query : Text)
      (emb : List Float) (vector_k bm25_k final_k : Option ℕ) (allowed : Option (List ℕ))
      → All P (scoped_chunks db t allowed)
      → All
          (λ (r : ScoredChunk E). P r.chunk)
          (hybrid_search E settings w postgres db t query emb vector_k bm25_k final_k allowed)
  unfolding hybrid_search
  hybrid_search-keeps settings w postgres db t query emb vector_k bm25_k final_k allowed h =
      let dense =
        vector_search-Scored E P db t allowed h postgres emb
          (k_or vector_k settings.hybrid_vector_candidates) in
      let sparse =
        search-Ranked E P db t allowed h postgres query
          (k_or bm25_k settings.hybrid_bm25_candidates) in
      let finish = λ (rows : List (DocumentChunk × Float)) (k : All (λ r. P r.0) rows).
        gather_sparse-Candidates E P rows _ k (gather_dense-Candidates E P _ [] dense tt) in
      elim (Bool-cases (denies_all allowed)) [
        | inl stop ↦ rw stop tt
        | inr go ↦ elim (Bool-cases settings.enable_bm25) [
          | inl on ↦
              rw (go, on)
                (All-take (λ (r : ScoredChunk E). P r.chunk) _ _
                  (All-sort_by (λ (r : ScoredChunk E). P r.chunk) (scores_less E) _
                    (blend-Scored E P w _ _ _ _ (finish _ sparse))))
          | inr off ↦
              rw (go, off)
                (All-take (λ (r : ScoredChunk E). P r.chunk) _ _
                  (All-sort_by (λ (r : ScoredChunk E). P r.chunk) (scores_less E) _
                    (blend-Scored E P w _ _ _ _ (finish [] tt))))
        ]
      ]

-- A chunk of the tenant, in a document that the filter lets through.
abbrev pub InScope : ℕ → Option (List ℕ) → DocumentChunk → Type 0
InScope t allowed c = (c.tenant_id ≡ t) × (admits allowed c.document_id ≡ true)

scoped_chunks-InScope :
    (db : Db) (t : ℕ) (allowed : Option (List ℕ))
    → All (InScope t allowed) (scoped_chunks db t allowed)
unfolding scoped_chunks
scoped_chunks-InScope db t allowed =
    All-filter (λ (c : DocumentChunk). c.tenant_id == t && admits allowed c.document_id) db.chunks
      (λ c h. ground arith)

-- Every chunk that a hybrid search returns is the tenant's, and its document is one that the caller
-- is let see, whatever the query, the weights, the dialect and the limits.
pub hybrid_search-InScope :
    (E : Engine) (settings : Settings) (w : E.Float) (postgres : Bool) (db : Db) (t : ℕ)
    (query : Text) (emb : List E.Float) (vector_k bm25_k final_k : Option ℕ)
    (allowed : Option (List ℕ))
    → All
        (λ (r : ScoredChunk E). InScope t allowed r.chunk)
        (hybrid_search E settings w postgres db t query emb vector_k bm25_k final_k allowed)
hybrid_search-InScope E settings w postgres db t query emb vector_k bm25_k final_k allowed =
    hybrid_search-keeps E (InScope t allowed) settings w postgres db t query emb vector_k bm25_k
      final_k allowed (scoped_chunks-InScope db t allowed)
