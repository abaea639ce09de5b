-- ===== src/Workflow/Citations.antt =====
-- `build_citations` of backend/app/agents/nodes.py. `\d` and `int` take every decimal digit of Unicode,
-- in the version 14 of the Python of the image, 3.11.
use enterprise_document_inte.Base.{
  ℕ, ◌+◌, ◌-◌, ◌*◌, Bool, ◌&&◌, Option, none, some, List, [], ◌∷◌, Text, any, find?, take, length,
  get_elem?, ◌==◌, leb, ltb, if◌then◌else◌,
}
use enterprise_document_inte.Workflow.State.{RetrievedChunk, Citation}

-- The zeros of the scripts: nine digits follow each.
abbrev zeros : List ℕ
zeros =
    48 ∷ 1632 ∷ 1776 ∷ 1984 ∷ 2406 ∷ 2534 ∷ 2662 ∷ 2790 ∷ 2918 ∷ 3046 ∷ 3174 ∷ 3302 ∷ 3430 ∷ 3558
    ∷ 3664 ∷ 3792 ∷ 3872 ∷ 4160 ∷ 4240 ∷ 6112 ∷ 6160 ∷ 6470 ∷ 6608 ∷ 6784 ∷ 6800 ∷ 6992 ∷ 7088
    ∷ 7232 ∷ 7248 ∷ 42528 ∷ 43216 ∷ 43264 ∷ 43472 ∷ 43504 ∷ 43600 ∷ 44016 ∷ 65296 ∷ 66720 ∷ 68912
    ∷ 69734 ∷ 69872 ∷ 69942 ∷ 70096 ∷ 70384 ∷ 70736 ∷ 70864 ∷ 71248 ∷ 71360 ∷ 71472 ∷ 71904 ∷ 72016
    ∷ 72784 ∷ 73040 ∷ 73120 ∷ 92768 ∷ 92864 ∷ 93008 ∷ 120782 ∷ 120792 ∷ 120802 ∷ 120812 ∷ 120822
    ∷ 123200 ∷ 123632 ∷ 125264 ∷ 130032 ∷ []

abbrev is_digit_from : ℕ → ℕ → Bool
is_digit_from c z = leb z c && ltb c (z + 10)

abbrev value_or_zero : ℕ → Option ℕ → ℕ
value_or_zero c none = 0
value_or_zero c (some z) = c - z

unfoldable pub is_digit : ℕ → Bool
is_digit c = any (is_digit_from c) zeros

unfoldable pub digit_value : ℕ → ℕ
digit_value c = value_or_zero c (find? (is_digit_from c) zeros)

-- Where a scan for `\[(\d+)\]` stands.
pub data Scan : Type 0 where
  outside opened : Scan
  reading : ℕ → Scan

abbrev pub start : ℕ → Scan
start c = if c == b'[' then opened else outside

unfoldable pub advance : Scan → ℕ → Scan
advance outside c = start c
advance opened c = if is_digit c then reading (digit_value c) else start c
advance (reading n) c = if is_digit c then reading (n * 10 + digit_value c) else start c

-- The number that a character completes.
unfoldable pub completed : Scan → ℕ → Option ℕ
completed outside c = none
completed opened c = none
completed (reading n) c = if c == b']' then some n else none

-- `sorted({...})`: a number goes to its place, once.
unfoldable pub insert_marker : ℕ → List ℕ → List ℕ
insert_marker m [] = m ∷ []
insert_marker m (n ∷ ns) =
    let rest = insert_marker m ns in
    if ltb m n then m ∷ n ∷ ns else if m == n then n ∷ ns else n ∷ rest

abbrev pub insert_completed : Option ℕ → List ℕ → List ℕ
insert_completed none ms = ms
insert_completed (some m) ms = insert_marker m ms

unfoldable pub markers_from : Scan → Text → List ℕ
unfolding advance completed insert_marker
markers_from scan [] = []
markers_from scan (c ∷ text) =
    insert_completed (completed scan c) (markers_from (advance scan c) text)

unfoldable pub markers : Text → List ℕ
unfolding markers_from
markers answer = markers_from outside answer

abbrev pub cite : ℕ → RetrievedChunk → Citation
cite m c = record {
  marker = m;
  document_id = c.document_id;
  chunk_id = c.chunk_id;
  filename = c.filename;
  snippet = take 300 c.text;
}

abbrev pub cite_at : ℕ → Option RetrievedChunk → List Citation → List Citation
cite_at m none rest = rest
cite_at m (some c) rest = cite m c ∷ rest

-- A marker outside 1 .. len(chunks) has no citation.
unfoldable pub cite_all : List RetrievedChunk → List ℕ → List Citation
cite_all chunks [] = []
cite_all chunks (m ∷ ms) =
    let rest = cite_all chunks ms in
    if leb 1 m && leb m (length chunks) then cite_at m (get_elem? chunks (m - 1)) rest else rest

unfoldable pub build_citations : Text → List RetrievedChunk → List Citation
unfolding markers cite_all
build_citations answer chunks = cite_all chunks (markers answer)
