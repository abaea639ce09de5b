-- ===== src/Workflow/Order.antt =====
-- The order of the citations of an answer.
use enterprise_document_inte.Base.{
  ℕ, ◌-◌, ◌<◌, inl, inr, Option, none, some, List, [], ◌∷◌, arith, Text, map, get_elem?, All, ◌==◌,
  ltb, Bool-cases,
}
use enterprise_document_inte.Workflow.State.{RetrievedChunk, Citation}
use enterprise_document_inte.Workflow.Citations.{
  Scan, insert_marker, markers, markers_from, advance, completed, insert_completed, cite_at,
  cite_all, build_citations,
}
use enterprise_document_inte.Workflow.Marks.{in_range}

-- Strictly rising.
abbrev pub Ascending : List ℕ → Type 0
Ascending [] = Unit
Ascending (m ∷ ms) = All (λ n. m < n) ms × Ascending ms

All-insert_marker :
    (k m : ℕ) (ms : List ℕ) → k < m → All (λ n. k < n) ms → All (λ n. k < n) (insert_marker m ms)
unfolding insert_marker
All-insert_marker k m [] lt h = (lt, tt)
All-insert_marker k m (n ∷ ms) lt h = ground (arith, h.0, h.1, All-insert_marker k m ms lt h.1)

All-less : (k m : ℕ) (ms : List ℕ) → k < m → All (λ n. m < n) ms → All (λ n. k < n) ms
All-less k m [] lt h = tt
All-less k m (n ∷ ms) lt h = (omega (arith, h.0), All-less k m ms lt h.1)

insert_marker-Ascending : (m : ℕ) (ms : List ℕ) → Ascending ms → Ascending (insert_marker m ms)
unfolding insert_marker
insert_marker-Ascending m [] h = (tt, tt)
insert_marker-Ascending m (n ∷ ms) h = elim (Bool-cases (ltb m n)) [
  | inl before ↦ rw before ((ground arith, All-less m n ms (ground arith) h.0), h)
  | inr behind ↦ elim (Bool-cases (m == n)) [
    | inl same ↦ rw (behind, same) h
    | inr other ↦
        rw (behind, other)
          (All-insert_marker n m ms (ground arith) h.0, insert_marker-Ascending m ms h.1)
  ]
]

insert_completed-Ascending :
    (o : Option ℕ) (ms : List ℕ) → Ascending ms → Ascending (insert_completed o ms)
insert_completed-Ascending none ms h = h
insert_completed-Ascending (some m) ms h = insert_marker-Ascending m ms h

markers_from-Ascending : (scan : Scan) (text : Text) → Ascending (markers_from scan text)
unfolding markers_from
markers_from-Ascending scan [] = tt
markers_from-Ascending scan (c ∷ text) =
    insert_completed-Ascending (completed scan c) _ (markers_from-Ascending (advance scan c) text)

All-cite_at :
    (k m : ℕ) (o : Option RetrievedChunk) (rest : List Citation)
    → k < m
    → All (λ n. k < n) (map (λ (c : Citation). c.marker) rest)
    → All (λ n. k < n) (map (λ (c : Citation). c.marker) (cite_at m o rest))
All-cite_at k m none rest lt h = h
All-cite_at k m (some c) rest lt h = (lt, h)

All-cite_all :
    (chunks : List RetrievedChunk) (k : ℕ) (ms : List ℕ)
    → All (λ n. k < n) ms
    → All (λ n. k < n) (map (λ (c : Citation). c.marker) (cite_all chunks ms))
unfolding cite_all
All-cite_all chunks k [] h = tt
All-cite_all chunks k (m ∷ ms) h = elim (Bool-cases (in_range chunks m)) [
  | inl within ↦
      rw within (All-cite_at k m (get_elem? chunks (m - 1)) _ h.0 (All-cite_all chunks k ms h.1))
  | inr beyond ↦ rw beyond (All-cite_all chunks k ms h.1)
]

cite_at-Ascending :
    (m : ℕ) (o : Option RetrievedChunk) (rest : List Citation)
    → All (λ n. m < n) (map (λ (c : Citation). c.marker) rest)
    → Ascending (map (λ (c : Citation). c.marker) rest)
    → Ascending (map (λ (c : Citation). c.marker) (cite_at m o rest))
cite_at-Ascending m none rest h k = k
cite_at-Ascending m (some c) rest h k = (h, k)

cite_all-Ascending :
    (chunks : List RetrievedChunk) (ms : List ℕ)
    → Ascending ms
    → Ascending (map (λ (c : Citation). c.marker) (cite_all chunks ms))
unfolding cite_all
cite_all-Ascending chunks [] h = tt
cite_all-Ascending chunks (m ∷ ms) h = elim (Bool-cases (in_range chunks m)) [
  | inl within ↦ rw within (
      cite_at-Ascending m (get_elem? chunks (m - 1)) _ (All-cite_all chunks m ms h.0)
        (cite_all-Ascending chunks ms h.1))
  | inr beyond ↦ rw beyond (cite_all-Ascending chunks ms h.1)
]

-- The citations stand in the order of their markers, and no marker has two citations.
pub build_citations-Ascending :
    (answer : Text) (chunks : List RetrievedChunk)
    → Ascending (map (λ (c : Citation). c.marker) (build_citations answer chunks))
unfolding build_citations markers
build_citations-Ascending answer chunks =
    cite_all-Ascending chunks (markers answer) (markers_from-Ascending Scan.outside answer)
