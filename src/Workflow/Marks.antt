-- ===== src/Workflow/Marks.antt =====
-- The citations of an answer and the markers that it holds.
use enterprise_document_inte.Base.{
  ℕ, ◌-◌, ◌≡◌, ◌≤◌, refl, inl, inr, Bool, true, ◌&&◌, Option, none, some, List, [], ◌∷◌, arith,
  Text, zero, suc, ◌||◌, length, get_elem?, take, All, any, contains, ◌==◌, leb, Bool-cases, ◌↔◌,
}
use enterprise_document_inte.Workflow.State.{RetrievedChunk, Citation}
use enterprise_document_inte.Workflow.Citations.{markers, cite_at, cite_all, build_citations}
use enterprise_document_inte.Workflow.Brackets.{IsMarked, markers_exact}

-- The chunk that a marker names: its place, counted from 1.
abbrev pub chunk_at : List RetrievedChunk → ℕ → Option RetrievedChunk
chunk_at chunks marker = get_elem? chunks (marker - 1)

-- A citation of a retrieved chunk: it has the chunk's place, ids and file name, and the first 300
-- characters of its text.
pub record IsSourced (chunks : List RetrievedChunk) (c : Citation) : Type 0 where
  pub from_one : 1 ≤ c.marker
  pub within : c.marker ≤ length chunks
  pub chunk : RetrievedChunk
  pub named : chunk_at chunks c.marker ≡ some chunk
  pub document : c.document_id ≡ chunk.document_id
  pub chunk_id : c.chunk_id ≡ chunk.chunk_id
  pub filename : c.filename ≡ chunk.filename
  pub snippet : c.snippet ≡ take 300 chunk.text

abbrev pub in_range : List RetrievedChunk → ℕ → Bool
in_range chunks m = leb 1 m && leb m (length chunks)

length_of_get_elem? : {A : Type 0} (xs : List A) (i : ℕ) → get_elem? xs i ≡ none → length xs ≤ i
length_of_get_elem? [] i h = omega arith
length_of_get_elem? (x ∷ xs) zero h = ground arith
length_of_get_elem? (x ∷ xs) (suc i) h = omega (arith, length_of_get_elem? xs i h)

module _ (chunks : List RetrievedChunk) where
  cite_at-IsSourced :
      (m : ℕ) (o : Option RetrievedChunk) (rest : List Citation)
      → get_elem? chunks (m - 1) ≡ o
      → in_range chunks m ≡ true
      → All (IsSourced chunks) rest
      → All (IsSourced chunks) (cite_at m o rest)
  cite_at-IsSourced m none rest h r k = k
  cite_at-IsSourced m (some c) rest h r k = (
    record {
      from_one = ground arith;
      within = ground arith;
      chunk = c;
      named = h;
      document = refl;
      chunk_id = refl;
      filename = refl;
      snippet = refl;
    },
    k,
  )

  cite_all-IsSourced : (ms : List ℕ) → All (IsSourced chunks) (cite_all chunks ms)
  unfolding cite_all
  cite_all-IsSourced [] = tt
  cite_all-IsSourced (m ∷ ms) = elim (Bool-cases (in_range chunks m)) [
    | inl within ↦
        rw within
          (cite_at-IsSourced m (get_elem? chunks (m - 1)) _ refl within (cite_all-IsSourced ms))
    | inr beyond ↦ rw beyond (cite_all-IsSourced ms)
  ]

  cite_at-marker :
      (n m : ℕ) (o : Option RetrievedChunk) (rest : List Citation)
      → get_elem? chunks (m - 1) ≡ o
      → in_range chunks m ≡ true
      → any (λ c. c.marker == n) (cite_at m o rest) ≡ ((m == n) || any (λ c. c.marker == n) rest)
  cite_at-marker n m none rest h r = absurd (ground (arith, length_of_get_elem? chunks (m - 1) h))
  cite_at-marker n m (some c) rest h r = refl

  cite_all-marker :
      (n : ℕ) (ms : List ℕ)
      → any (λ c. c.marker == n) (cite_all chunks ms) ≡ (in_range chunks n && contains n ms)
  unfolding cite_all
  cite_all-marker n [] = ground arith
  cite_all-marker n (m ∷ ms) = elim (Bool-cases (in_range chunks m)) [
    | inl within ↦ rw within (
        ground (
          arith,
          cite_at-marker n m (get_elem? chunks (m - 1)) (cite_all chunks ms) refl within,
          cite_all-marker n ms,
        ))
    | inr beyond ↦ rw beyond (ground (arith, cite_all-marker n ms))
  ]

-- A citation of the answer has the marker.
abbrev pub cites : ℕ → List Citation → Bool
cites n citations = any (λ (c : Citation). c.marker == n) citations

-- The citations are those of the numbers that stand in square brackets in the answer and that name a
-- retrieved chunk, from 1 to the number of chunks, no more and no fewer. Each repeats the ids, the file
-- name and the first 300 characters of the chunk that it names.
pub build_citations_exact :
    (answer : Text) (chunks : List RetrievedChunk)
    → All (IsSourced chunks) (build_citations answer chunks)
      × ((n : ℕ)
          → (cites n (build_citations answer chunks) ≡ true)
            ↔ (IsMarked answer n × (1 ≤ n) × (n ≤ length chunks)))
unfolding build_citations
build_citations_exact answer chunks = (
  cite_all-IsSourced chunks (markers answer),
  λ n.
      let same = cite_all-marker chunks n (markers answer) in
      let marked = markers_exact answer n in
      (
        λ h. (marked.0 (ground (arith, same, h)), ground (arith, same, h), ground (arith, same, h)),
        λ h. ground (arith, same, marked.1 h.0, h.1, h.2),
      ),
)
