-- ===== src/Workflow/Sources.antt =====
-- What the workflow reads: every chunk that it retrieves is one that the caller may query.
use enterprise_document_inte.Base.{
  ℕ, ◌≡◌, refl, inl, inr, Option, none, some, List, [], ◌∷◌, Text, map, take, All, Mem, Selected,
  filter-Selected, ◌&&◌, true, All-take, length, length-take, sym, ap, ◌≤◌, ◌==◌, Bool-cases, arith,
}
use enterprise_document_inte.Models.{DocumentChunk, Permission}
use enterprise_document_inte.Session.{Session, Result, ok, err}
use enterprise_document_inte.Authz.{accessible_document_ids}
use enterprise_document_inte.Retrieval.{
  Engine, ScoredChunk, scores_less, sort_by, admits, scoped_chunks,
}
use enterprise_document_inte.Retrieval.Scoped.{All-sort_by, hybrid_search-keeps}
use enterprise_document_inte.Workflow.State.{RetrievedChunk, AgentState}
use enterprise_document_inte.Workflow.Nodes.{
  Runner, or_empty, keep_best, merge_results, search_all, retrieved, retrieve, retriever,
}

ok_inj : {a b : AgentState} → ◌≡◌ {A = Result AgentState} (ok a) (ok b) → a ≡ b
ok_inj {a = a} h = ap (λ (r : Result AgentState). elim r [ ok x ↦ x | err e ↦ a ]) h

length-map : {A B : Type 0} (f : A → B) (xs : List A) → length (map f xs) ≡ length xs
length-map f [] = refl
length-map f (x ∷ xs) = omega (arith, length-map f xs)

module _ {Client : Type 0} {E : Engine} (runner : Runner E Client)
    (P : DocumentChunk → Type 0) where
  abbrev Scored : List (ScoredChunk E) → Type 0
  Scored rs = All (λ (r : ScoredChunk E). P r.chunk) rs

  keep_best-Scored :
      (sc : ScoredChunk E) (rs : List (ScoredChunk E))
      → P sc.chunk
      → Scored rs
      → Scored (keep_best runner sc rs)
  keep_best-Scored sc [] p h = (p, tt)
  keep_best-Scored sc (r ∷ rs) p h = elim (Bool-cases (r.chunk.id == sc.chunk.id)) [
    | inl same ↦ elim (Bool-cases (E.lt r.score sc.score)) [
      | inl less ↦ rw (same, less) (p, h.1)
      | inr more ↦ rw (same, more) h
    ]
    | inr other ↦ rw other (h.0, keep_best-Scored sc rs p h.1)
  ]

  merge_results-Scored :
      (results merged : List (ScoredChunk E))
      → Scored results
      → Scored merged
      → Scored (merge_results runner results merged)
  unfolding merge_results
  merge_results-Scored [] merged h k = k
  merge_results-Scored (sc ∷ results) merged h k =
      merge_results-Scored results (keep_best runner sc merged) h.1
        (keep_best-Scored sc merged h.0 k)

module _ {Client : Type 0} {E : Engine} (runner : Runner E Client) (s : Session) where
  -- What the scope of a caller holds: the chunks of the table, of the tenant, in the documents that the
  -- filter lets through.
  InTable : Option (List ℕ) → DocumentChunk → Type 0
  InTable allowed =
      Selected
        (λ (c : DocumentChunk). c.tenant_id == runner.tenant_id && admits allowed c.document_id)
        s.chunks

  search_all-InTable :
      (allowed : Option (List ℕ)) (subqueries : List Text) (merged : List (ScoredChunk E))
      → All (λ (r : ScoredChunk E). InTable allowed r.chunk) merged
      → All
          (λ (r : ScoredChunk E). InTable allowed r.chunk)
          (search_all runner s allowed subqueries merged)
  unfolding search_all scoped_chunks InTable
  search_all-InTable allowed [] merged h = h
  search_all-InTable allowed (sq ∷ subqueries) merged h = search_all-InTable allowed subqueries _ (
      merge_results-Scored runner (InTable allowed) _ merged
        (hybrid_search-keeps E (InTable allowed) s.settings runner.rerank_weight runner.postgres
          s.db runner.tenant_id sq (runner.embed_query sq) none none (some s.settings.final_top_k)
          allowed (filter-Selected _ s.chunks))
        h)

  abbrev pub may_query : Option (List ℕ)
  may_query =
      accessible_document_ids s.db runner.tenant_id runner.user_id runner.role Permission.query

  -- A passage of a stored chunk of the tenant, in a document that the caller may query.
  pub data MayQuery (c : RetrievedChunk) : Type 0 where
    passage :
        (chunk : DocumentChunk)
        → Mem chunk s.chunks
        → chunk.tenant_id ≡ runner.tenant_id
        → admits may_query chunk.document_id ≡ true
        → c.chunk_id ≡ chunk.id
        → c.document_id ≡ chunk.document_id
        → c.chunk_index ≡ chunk.chunk_index
        → c.text ≡ E.decrypt_str chunk.content_encrypted
        → MayQuery c

  retrieved-MayQuery :
      (r : ScoredChunk E) → InTable may_query r.chunk → MayQuery (retrieved runner s.db r)
  unfolding InTable retrieved
  retrieved-MayQuery r h =
      passage r.chunk h.1 (ground (arith, h.0)) (ground (arith, h.0)) refl refl refl refl

  passages :
      (rs : List (ScoredChunk E))
      → All (λ (r : ScoredChunk E). InTable may_query r.chunk) rs
      → All MayQuery (map (retrieved runner s.db) rs)
  passages [] h = tt
  passages (r ∷ rs) h = (retrieved-MayQuery r h.0, passages rs h.1)

  -- Every chunk that the retriever leaves in the state is a passage of a row of the table of chunks: a
  -- row of the tenant, in a document that the caller may query, with that row's id, place and decrypted
  -- text; and there are at most `FINAL_TOP_K`.
  pub retriever-MayQuery :
      (state after : AgentState)
      → (retriever runner state s).0 ≡ ok after
      → All MayQuery (or_empty after.chunks)
        × (length (or_empty after.chunks) ≤ s.settings.final_top_k)
  unfolding retriever retrieve
  retriever-MayQuery state after h =
      let Stored : ScoredChunk E → Type 0 = λ r. InTable may_query r.chunk in
      let found = search_all runner s may_query (or_empty state.subqueries) [] in
      let best = sort_by (scores_less E) found in
      let kept = passages (take s.settings.final_top_k best) (
        All-take Stored s.settings.final_top_k best (
          All-sort_by Stored (scores_less E) found
            (search_all-InTable may_query (or_empty state.subqueries) [] tt))) in
      let same = ok_inj h in
      rw (sym (ap (λ (st : AgentState). or_empty st.chunks) same)) (
        kept,
        omega (
          arith,
          length-take s.settings.final_top_k best,
          length-map (retrieved runner s.db) (take s.settings.final_top_k best),
        ),
      )
