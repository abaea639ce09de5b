-- ===== src/Retrieval/Hybrid.antt =====
-- backend/app/services/retrieval.py
use enterprise_document_inte.Base.{
  ℕ, Bool, true, false, Option, none, some, List, [], ◌∷◌, map, Text, take, any, ◌==◌,
  if◌then◌else◌,
}
use enterprise_document_inte.Models.{DocumentChunk, Db}
use enterprise_document_inte.Session.{Settings}
use enterprise_document_inte.Retrieval.Interface.{Engine}
use enterprise_document_inte.Retrieval.Ranking.{
  Method, ScoredChunk, scores_less, sort_by, cosine_similarity, minmax, fusion_scores, fused,
}
use enterprise_document_inte.Retrieval.Keyword.{denies_all, scoped_chunks, search}

-- `k or default`: an absent or zero limit is the default's.
abbrev pub k_or : Option ℕ → ℕ → ℕ
k_or none default = default
k_or (some k) default = if k == 0 then default else k

module _ (E : Engine) where
  open E use {Float, add, sub, mul, lt, of_ℕ, embedding, cosine_distance, decrypt_str, relevance}

  abbrev by_vector : (DocumentChunk → Float) → DocumentChunk → ScoredChunk E
  by_vector score c = record { chunk = c; score = score c; methods = Method.vector ∷ [] }

  -- The rows of least distance first.
  unfoldable pub vector_pg : Db → ℕ → List Float → ℕ → Option (List ℕ) → List (ScoredChunk E)
  unfolding scoped_chunks sort_by
  vector_pg db tenant_id query_embedding top_k allowed =
      map (by_vector (λ c. sub (of_ℕ 1) (cosine_distance (embedding c) query_embedding))) (
        take top_k (
          sort_by
            (λ a b.
              lt (cosine_distance (embedding b) query_embedding)
                (cosine_distance (embedding a) query_embedding))
            (scoped_chunks db tenant_id allowed)))

  unfoldable pub vector_python : Db → ℕ → List Float → ℕ → Option (List ℕ) → List (ScoredChunk E)
  unfolding scoped_chunks sort_by cosine_similarity
  vector_python db tenant_id query_embedding top_k allowed = take top_k (
      sort_by (scores_less E) (
        map (by_vector (λ c. cosine_similarity E query_embedding (embedding c)))
          (scoped_chunks db tenant_id allowed)))

  unfoldable pub vector_search :
      Bool → Db → ℕ → List Float → ℕ → Option (List ℕ) → List (ScoredChunk E)
  vector_search postgres db tenant_id query_embedding top_k allowed =
      if denies_all allowed
      then []
      else if postgres
      then vector_pg db tenant_id query_embedding top_k allowed
      else vector_python db tenant_id query_embedding top_k allowed

  -- `_Candidate`, and the dictionary of candidates by the id of their chunk.
  pub record Candidate : Type 0 where
    pub chunk : DocumentChunk
    pub methods : List Method
    pub vector_score : Option Float
    pub bm25_score : Option Float

  -- `candidates[chunk.id] = ...`
  abbrev pub put : Candidate → List Candidate → List Candidate
  put x [] = x ∷ []
  put x (c ∷ cs) = if c.chunk.id == x.chunk.id then x ∷ cs else c ∷ put x cs

  unfoldable pub gather_dense : List (ScoredChunk E) → List Candidate → List Candidate
  gather_dense [] cands = cands
  gather_dense (sc ∷ dense) cands = gather_dense dense (
      put
        (record {
          chunk = sc.chunk;
          methods = Method.vector ∷ [];
          vector_score = some sc.score;
          bm25_score = none;
        })
        cands)

  abbrev is_bm25 : Method → Bool
  is_bm25 Method.bm25 = true
  is_bm25 Method.vector = false

  -- A set of methods, sorted by name: "bm25" stands before "vector".
  abbrev add_bm25 : List Method → List Method
  add_bm25 ms = if any is_bm25 ms then ms else Method.bm25 ∷ ms

  -- One row of the sparse leg: its candidate is completed, or is added.
  abbrev pub merge : DocumentChunk → Float → List Candidate → List Candidate
  merge chunk score [] =
      (record {
        chunk = chunk;
        methods = Method.bm25 ∷ [];
        vector_score = none;
        bm25_score = some score;
      })
      ∷ []
  merge chunk score (c ∷ cs) =
      if c.chunk.id == chunk.id
      then record c { methods = add_bm25 c.methods; bm25_score = some score } ∷ cs
      else c ∷ merge chunk score cs

  unfoldable pub gather_sparse : List (DocumentChunk × Float) → List Candidate → List Candidate
  gather_sparse [] cands = cands
  gather_sparse ((chunk, score) ∷ sparse) cands = gather_sparse sparse (merge chunk score cands)

  -- The blended score of the candidates, one by one with their reranker's scores and those after
  -- normalization.
  unfoldable pub blend :
      Float → List (ℕ × Float) → List Candidate → List Float → List Float → List (ScoredChunk E)
  blend w fusion [] rerank_scores rr_norm = []
  blend w fusion (c ∷ cands) [] rr_norm = []
  blend w fusion (c ∷ cands) (r ∷ rerank_scores) [] = []
  blend w fusion (c ∷ cands) (r ∷ rerank_scores) (n ∷ rr_norm) =
      (record {
        chunk = c.chunk;
        score =
            if lt w (of_ℕ 1)
            then add (mul w n) (mul (sub (of_ℕ 1) w) (fused E c.chunk.id fusion))
            else r;
        methods = c.methods;
      })
      ∷ blend w fusion cands rerank_scores rr_norm

  unfoldable pub hybrid_search :
      Settings
      → Float
      → Bool
      → Db
      → ℕ
      → Text
      → List Float
      → Option ℕ
      → Option ℕ
      → Option ℕ
      → Option (List ℕ)
      → List (ScoredChunk E)
  hybrid_search settings w postgres db tenant_id query query_embedding vector_k bm25_k final_k
        allowed =
      if denies_all allowed
      then []
      else (let dense =
            vector_search postgres db tenant_id query_embedding
              (k_or vector_k settings.hybrid_vector_candidates) allowed in
          let sparse =
            if settings.enable_bm25
            then search E postgres db tenant_id query (k_or bm25_k settings.hybrid_bm25_candidates)
                allowed
            else [] in
          let merged = gather_sparse sparse (gather_dense dense []) in
          let rerank_scores =
            map (λ (c : Candidate). relevance query (decrypt_str c.chunk.content_encrypted))
              merged in
          let fusion =
            fusion_scores E (map (λ (r : ScoredChunk E). r.chunk.id) dense)
              (map (λ (r : DocumentChunk × Float). r.0.id) sparse) in
          take (k_or final_k settings.final_top_k) (
            sort_by (scores_less E) (blend w fusion merged rerank_scores (minmax E rerank_scores))))
