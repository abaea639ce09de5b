-- ===== src/Retrieval/Results.antt =====
-- Bounds on what a hybrid search returns, and what it never returns.
use enterprise_document_inte.Base.{
  ℕ, ◌≡◌, ◌≤◌, refl, inl, inr, Bool, false, ◌&&◌, Option, some, List, [], ◌∷◌, arith, Text, length,
  length-take, filter, All, any, ◌==◌, Bool-cases,
}
use enterprise_document_inte.Models.{DocumentChunk, Db}
use enterprise_document_inte.Session.{Session, Settings, ok}
use enterprise_document_inte.Documents.{CurrentUser, is_chunk_of, delete_document}
use enterprise_document_inte.Documents.Deletion.{delete_document_hides}
use enterprise_document_inte.Retrieval.{
  Engine, ScoredChunk, scoped_chunks, admits, hybrid_search, k_or, denies_all,
}
use enterprise_document_inte.Retrieval.Scoped.{hybrid_search-keeps}

module _ (E : Engine) (settings : Settings) (w : E.Float) (postgres : Bool) (db : Db) (t : ℕ)
    (query : Text) (emb : List E.Float) (vector_k bm25_k final_k : Option ℕ) where
  -- At most `final_k` results, or `FINAL_TOP_K` where that is absent or zero; and none at all for a
  -- caller who may see no document.
  pub length-hybrid_search :
      (allowed : Option (List ℕ))
      → (length (hybrid_search E settings w postgres db t query emb vector_k bm25_k final_k allowed)
          ≤ k_or final_k settings.final_top_k)
        × (hybrid_search E settings w postgres db t query emb vector_k bm25_k final_k (some [])
            ≡ [])
  unfolding hybrid_search
  length-hybrid_search allowed = (
    elim (Bool-cases (denies_all allowed)) [
      | inl stop ↦ rw stop (omega arith)
      | inr go ↦ rw go (omega (arith, length-take {0} (k_or final_k settings.final_top_k) _))
    ],
    refl,
  )

scoped_without :
    (t k : ℕ) (allowed : Option (List ℕ)) (cs : List DocumentChunk)
    → any (is_chunk_of t k) cs ≡ false
    → All
        (λ (c : DocumentChunk). (c.document_id == k) ≡ false)
        (filter (λ (c : DocumentChunk). c.tenant_id == t && admits allowed c.document_id) cs)
scoped_without t k allowed [] h = tt
scoped_without t k allowed (c ∷ cs) h = ground (arith, scoped_without t k allowed cs)

-- In the session that a deletion of a document leaves, no search in its tenant returns a chunk of it,
-- not even an unrestricted one.
pub hybrid_search_after_delete :
    (E : Engine) (settings : Settings) (w : E.Float) (postgres : Bool) (query : Text)
    (emb : List E.Float) (vector_k bm25_k final_k : Option ℕ) (allowed : Option (List ℕ))
    (current : CurrentUser) (k : ℕ) (s : Session)
    → (delete_document current k s).0 ≡ ok tt
    → All
        (λ (r : ScoredChunk E). (r.chunk.document_id == k) ≡ false)
        (hybrid_search E settings w postgres
          (delete_document current k s).1.db
          current.tenant_id
          query
          emb
          vector_k
          bm25_k
          final_k
          allowed)
unfolding scoped_chunks
hybrid_search_after_delete E settings w postgres query emb vector_k bm25_k final_k allowed current k
      s h =
    hybrid_search-keeps E (λ (c : DocumentChunk). (c.document_id == k) ≡ false) settings w postgres
      (delete_document current k s).1.db current.tenant_id query emb vector_k bm25_k final_k allowed
      (scoped_without current.tenant_id k allowed (delete_document current k s).1.chunks
        (delete_document_hides current k s h).0)
