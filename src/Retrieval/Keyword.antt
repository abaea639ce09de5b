-- ===== src/Retrieval/Keyword.antt =====
-- backend/app/services/keyword_search.py
use enterprise_document_inte.Base.{
  ℕ, ◌+◌, Bool, true, false, not, ◌&&◌, ◌||◌, Option, none, some, List, [], ◌∷◌, ◌++◌, map, Text,
  text_eq, lower, filter, take, length, any, count, contains, ◌==◌, leb, ltb, if◌then◌else◌,
}
use enterprise_document_inte.Models.{DocumentChunk, Db}
use enterprise_document_inte.Retrieval.Interface.{Engine}
use enterprise_document_inte.Retrieval.Ranking.{sort_by, ranks_less}

-- `[a-z0-9]`
abbrev is_word : ℕ → Bool
is_word c = (leb b'a' c && leb c b'z') || (leb b'0' c && leb c b'9')

abbrev flush : Text → List Text → List Text
flush [] rest = rest
flush (c ∷ word) rest = (c ∷ word) ∷ rest

-- `_TOKEN_RE.findall`, with the run of characters read so far.
unfoldable pub find_words : Text → Text → List Text
find_words word [] = flush word []
find_words word (c ∷ text) = elim (is_word c) [
  | true ↦ find_words (word ++ c ∷ []) text
  | false ↦ flush word (find_words [] text)
]

unfoldable pub tokenize : Text → List Text
unfolding find_words
tokenize text = filter (λ t. ltb 1 (length t)) (find_words [] (lower text))

-- `str.strip()` leaves nothing.
abbrev pub is_space : ℕ → Bool
is_space c = c == 32 || (leb 9 c && leb c 13) || (leb 28 c && leb c 31) || c == 133 || c == 160

unfoldable pub is_blank : Text → Bool
is_blank text = not (any (λ c. not (is_space c)) text)

-- `document_id in allowed`, where `None` is no restriction, and an empty set denies all.
abbrev pub admits : Option (List ℕ) → ℕ → Bool
admits none document_id = true
admits (some ids) document_id = contains document_id ids

abbrev pub denies_all : Option (List ℕ) → Bool
denies_all none = false
denies_all (some []) = true
denies_all (some (i ∷ ids)) = false

-- The rows of `select(DocumentChunk).where(...)`.
unfoldable pub scoped_chunks : Db → ℕ → Option (List ℕ) → List DocumentChunk
scoped_chunks db tenant_id allowed =
    filter (λ (c : DocumentChunk). c.tenant_id == tenant_id && admits allowed c.document_id)
      db.chunks

-- `set(...)`, in the order of first occurrence.
abbrev distinct : List Text → List Text
distinct [] = []
distinct (t ∷ ts) = t ∷ filter (λ x. not (text_eq x t)) (distinct ts)

abbrev sum_ℕ : List ℕ → ℕ
sum_ℕ [] = 0
sum_ℕ (n ∷ ns) = n + sum_ℕ ns

module _ (E : Engine) where
  open E use {
    Float, add, sub, mul, div, log, lt, is_zero, of_ℕ, decimal, ts_match, ts_rank, decrypt_str,
  }

  -- The share of one term of the query: its inverse document frequency, weighed by how often it stands
  -- in the chunk and by the chunk's length.
  unfoldable pub term_score : List (List Text) → Float → List Text → Text → Float
  term_score docs_tokens avgdl toks term =
      let df = count (λ d. any (text_eq term) d) docs_tokens in
      let n_docs = length docs_tokens in
      let freq = count (text_eq term) toks in
      let idf = log (
        add (of_ℕ 1)
          (div (add (sub (of_ℕ n_docs) (of_ℕ df)) (decimal 5 1)) (add (of_ℕ df) (decimal 5 1)))) in
      let denom = add (of_ℕ freq) (
        mul (decimal 15 1) (
          add (sub (of_ℕ 1) (decimal 75 2))
            (div (mul (decimal 75 2) (of_ℕ (length toks))) avgdl))) in
      div (mul idf (mul (of_ℕ freq) (add (decimal 15 1) (of_ℕ 1)))) denom

  -- The loop over the terms of the query; a term that the chunk lacks is passed over.
  unfoldable pub bm25_from : Float → List (List Text) → Float → List Text → List Text → Float
  bm25_from score docs_tokens avgdl toks [] = score
  bm25_from score docs_tokens avgdl toks (term ∷ terms) =
      bm25_from
        (if any (text_eq term) toks
          then add score (term_score docs_tokens avgdl toks term)
          else score)
        docs_tokens avgdl toks terms

  abbrev or_one : Float → Float
  or_one x = if is_zero x then of_ℕ 1 else x

  unfoldable pub tokens_of : DocumentChunk → List Text
  unfolding tokenize
  tokens_of c = tokenize (decrypt_str c.content_encrypted)

  unfoldable pub search_python : Db → ℕ → Text → ℕ → Option (List ℕ) → List (DocumentChunk × Float)
  unfolding scoped_chunks tokens_of bm25_from sort_by
  search_python db tenant_id query limit allowed =
      let chunks = scoped_chunks db tenant_id allowed in
      let docs_tokens = map tokens_of chunks in
      let avgdl =
        or_one (div (of_ℕ (sum_ℕ (map (λ ts. length ts) docs_tokens))) (of_ℕ (length chunks))) in
      let query_terms = distinct (tokenize query) in
      let scored =
        map (λ c. (c, bm25_from (of_ℕ 0) docs_tokens avgdl (tokens_of c) query_terms)) chunks in
      take limit
        (sort_by (ranks_less E) (filter (λ (r : DocumentChunk × Float). lt (of_ℕ 0) r.1) scored))

  unfoldable pub search_pg : Db → ℕ → Text → ℕ → Option (List ℕ) → List (DocumentChunk × Float)
  unfolding scoped_chunks sort_by
  search_pg db tenant_id query limit allowed = take limit (
      sort_by (ranks_less E) (
        map (λ c. (c, ts_rank query c))
          (filter (ts_match query) (scoped_chunks db tenant_id allowed))))

  -- `postgres` tells the dialect of the session.
  unfoldable pub search : Bool → Db → ℕ → Text → ℕ → Option (List ℕ) → List (DocumentChunk × Float)
  search postgres db tenant_id query limit allowed =
      if is_blank query || denies_all allowed
      then []
      else if postgres
      then search_pg db tenant_id query limit allowed
      else search_python db tenant_id query limit allowed
