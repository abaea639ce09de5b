-- ===== src/Retrieval/Ranking.antt =====
-- The numeric helpers of retrieval.py, and Python's stable sort by falling score.
use enterprise_document_inte.Base.{ℕ, ◌+◌, Bool, ◌||◌, List, [], ◌∷◌, map, ◌==◌, if◌then◌else◌}
use enterprise_document_inte.Models.{DocumentChunk}
use enterprise_document_inte.Retrieval.Interface.{Engine}

-- The ways in which a chunk was found.
pub data Method : Type 0 where
  bm25 vector : Method

-- Python's stable sort: an item goes behind those that it must come later than, and stays ahead of
-- the rest.
unfoldable pub insert_by {ℓ} : {A : Type ℓ} → (A → A → Bool) → A → List A → List A
insert_by later x [] = x ∷ []
insert_by later x (y ∷ ys) =
    let rest = insert_by later x ys in if later x y then y ∷ rest else x ∷ y ∷ ys

unfoldable pub sort_by {ℓ} : {A : Type ℓ} → (A → A → Bool) → List A → List A
unfolding insert_by
sort_by later [] = []
sort_by later (x ∷ xs) = insert_by later x (sort_by later xs)

module _ (E : Engine) where
  open E use {Float, add, sub, mul, div, sqrt, lt, is_zero, of_ℕ, decimal}

  pub record ScoredChunk : Type 0 where
    pub chunk : DocumentChunk
    pub score : Float
    pub methods : List Method

  -- `key=lambda s: s.score, reverse=True`: a lower score comes later.
  abbrev pub scores_less : ScoredChunk → ScoredChunk → Bool
  scores_less a b = lt a.score b.score

  abbrev pub ranks_less : DocumentChunk × Float → DocumentChunk × Float → Bool
  ranks_less a b = lt a.1 b.1

  abbrev sum_from : Float → List Float → Float
  sum_from acc [] = acc
  sum_from acc (x ∷ xs) = sum_from (add acc x) xs

  abbrev sum : List Float → Float
  sum xs = sum_from (of_ℕ 0) xs

  -- `x * y for x, y in zip(a, b, strict=False)`
  abbrev products : List Float → List Float → List Float
  products [] b = []
  products (x ∷ a) [] = []
  products (x ∷ a) (y ∷ b) = mul x y ∷ products a b

  unfoldable pub cosine_similarity : List Float → List Float → Float
  cosine_similarity a b =
      let na = sqrt (sum (products a a)) in
      let nb = sqrt (sum (products b b)) in
      if is_zero na || is_zero nb then of_ℕ 0 else div (sum (products a b)) (mul na nb)

  abbrev min_from : Float → List Float → Float
  min_from m [] = m
  min_from m (x ∷ xs) = min_from (if lt x m then x else m) xs

  abbrev max_from : Float → List Float → Float
  max_from m [] = m
  max_from m (x ∷ xs) = max_from (if lt m x then x else m) xs

  -- All 1.0 where the values do not differ by 1e-12.
  unfoldable pub minmax : List Float → List Float
  minmax [] = []
  minmax (v ∷ vs) =
      let lo = min_from v vs in
      let hi = max_from v vs in
      map (λ x. if lt (sub hi lo) (decimal 1 12) then of_ℕ 1 else div (sub x lo) (sub hi lo))
        (v ∷ vs)

  -- `scores[id] = scores.get(id, 0.0) + x`
  abbrev add_score : ℕ → Float → List (ℕ × Float) → List (ℕ × Float)
  add_score id x [] = (id, add (of_ℕ 0) x) ∷ []
  add_score id x ((j, y) ∷ scores) =
      if j == id then (j, add y x) ∷ scores else (j, y) ∷ add_score id x scores

  -- The reciprocal ranks of one list of ids, from a rank on, added to the scores.
  unfoldable pub add_ranks : ℕ → List ℕ → List (ℕ × Float) → List (ℕ × Float)
  add_ranks rank [] scores = scores
  add_ranks rank (id ∷ ids) scores =
      add_ranks (rank + 1) ids (add_score id (div (of_ℕ 1) (of_ℕ (60 + rank))) scores)

  abbrev rezip : List (ℕ × Float) → List Float → List (ℕ × Float)
  rezip [] norm = []
  rezip ((id, x) ∷ scores) [] = []
  rezip ((id, x) ∷ scores) (y ∷ norm) = (id, y) ∷ rezip scores norm

  unfoldable pub fusion_scores : List ℕ → List ℕ → List (ℕ × Float)
  unfolding add_ranks minmax
  fusion_scores dense sparse =
      let scores = add_ranks 0 sparse (add_ranks 0 dense []) in
      rezip scores (minmax (map (λ (e : ℕ × Float). e.1) scores))

  -- `fusion.get(id, 0.0)`
  abbrev pub fused : ℕ → List (ℕ × Float) → Float
  fused id [] = of_ℕ 0
  fused id ((j, x) ∷ scores) = if j == id then x else fused id scores
