-- ===== src/Ingestion/Extraction.antt =====
-- backend/app/services/extraction.py and chunking.py. The parsers of PDF, DOCX and HTML and the
-- splitter are parameters: a parser returns, or it raises with a message. Bytes are numbers, and
-- `latin-1` reads a byte as its code point.
use mathlib.Core.List.{reverse}
use enterprise_document_inte.Base.{
  ℕ, ◌+◌, true, false, ◌||◌, Option, none, some, List, [], ◌∷◌, ◌++◌, Text, codes, text_eq, lower,
  starts_with, has_part, contains, length, if◌then◌else◌,
}
use enterprise_document_inte.Retrieval.{is_space, is_blank}
use enterprise_document_inte.Workflow.{Reply, returned, raised, strip}

pub record ExtractedDoc : Type 0 where
  pub text : Text
  pub page_count : Option ℕ

pub record Chunk : Type 0 where
  pub text : Text
  pub token_count : ℕ
  pub chunk_index : ℕ

-- pypdf (the text of each page), python-docx (of each paragraph), BeautifulSoup (of the soup without
-- the tags that are no content), UTF-8, `repr`, the sentence splitter and the token counter.
pub record Parsers : Type 0 where
  pub pdf_pages : Text → Reply (List Text)
  pub docx_paragraphs : Text → Reply (List Text)
  pub soup_text : Text → Reply Text
  pub decode_utf8 : Text → Option Text
  pub repr : Text → Text
  pub split_text : Text → List Text
  pub count_tokens : Text → ℕ

abbrev after_last_dot : Text → Text
after_last_dot [] = []
after_last_dot (c ∷ text) =
    let rest = after_last_dot text in if contains b'.' text then rest else text

-- `_ext` and `_extension`: `filename.rsplit(".", 1)[-1].lower()`, if there is a dot.
unfoldable pub ext : Text → Text
ext filename = if contains b'.' filename then lower (after_last_dot filename) else []

-- `sep.join(parts)`
abbrev pub join : Text → List Text → Text
join sep [] = []
join sep (t ∷ []) = t
join sep (t ∷ u ∷ rest) = t ++ sep ++ join sep (u ∷ rest)

abbrev put_word : Text → List Text → List Text
put_word [] rest = rest
put_word (c ∷ word) rest = reverse (c ∷ word) ∷ rest

abbrev words_from : Text → Text → List Text
words_from word [] = put_word word []
words_from word (c ∷ text) = elim (is_space c) [
  | true ↦ put_word word (words_from [] text)
  | false ↦ words_from (c ∷ word) text
]

-- `text.split()`
unfoldable pub words : Text → List Text
words text = words_from [] text

-- `if not text: raise ExtractionError(message)`
abbrev pub non_empty : Text → Option ℕ → Text → Reply ExtractedDoc
non_empty message page_count [] = raised message
non_empty message page_count (c ∷ text) =
    returned (record { text = c ∷ text; page_count = page_count })

abbrev failed_to : Text → Text → Text
failed_to what message = what ++ message

-- The first encoding that reads the bytes.
abbrev decoded : Option Text → Text → Text
decoded none content = content
decoded (some text) content = text

module _ (parsers : Parsers) where
  open parsers use {
    pdf_pages, docx_paragraphs, soup_text, decode_utf8, repr, split_text, count_tokens,
  }

  abbrev pdf_doc : Reply (List Text) → Reply ExtractedDoc
  pdf_doc (raised message) = raised (failed_to (codes "Failed to parse PDF: ") message)
  pdf_doc (returned pages) =
      non_empty (codes "PDF contained no extractable text (possibly scanned/image-only).")
        (some (length pages)) (strip (join (10 ∷ 10 ∷ []) pages))

  abbrev docx_doc : Reply (List Text) → Reply ExtractedDoc
  docx_doc (raised message) = raised (failed_to (codes "Failed to parse DOCX: ") message)
  docx_doc (returned paragraphs) =
      non_empty (codes "DOCX contained no extractable text.") none
        (strip (join (10 ∷ []) paragraphs))

  abbrev html_doc : Reply Text → Reply ExtractedDoc
  html_doc (raised message) = raised (failed_to (codes "Failed to parse HTML: ") message)
  html_doc (returned text) =
      non_empty (codes "HTML contained no extractable text.") none (join (codes " ") (words text))

  unfoldable pub extract_txt : Text → Reply ExtractedDoc
  extract_txt content =
      non_empty (codes "Text file was empty.") none (strip (decoded (decode_utf8 content) content))

  unfoldable pub extract_text : Text → Text → Text → Reply ExtractedDoc
  extract_text content content_type filename =
      let e = ext filename in
      let ct = lower content_type in
      if text_eq e (codes "pdf") || has_part (codes "pdf") ct
      then pdf_doc (pdf_pages content)
      else if text_eq e (codes "docx") || has_part (codes "wordprocessingml") ct
      then docx_doc (docx_paragraphs content)
      else if text_eq e (codes "txt") || starts_with ct (codes "text/plain")
      then extract_txt content
      else if text_eq e (codes "html") || (text_eq e (codes "htm") || has_part (codes "html") ct)
      then html_doc (soup_text (decoded (decode_utf8 content) content))
      else raised (
          codes "Unsupported document type: ext="
          ++ repr e
          ++ codes " content_type="
          ++ repr content_type)

  -- `enumerate(pieces)`, from a number on.
  abbrev pub number_chunks : ℕ → List Text → List Chunk
  number_chunks i [] = []
  number_chunks i (piece ∷ pieces) =
      (record { text = piece; token_count = count_tokens piece; chunk_index = i })
      ∷ number_chunks (i + 1) pieces

  unfoldable pub split : Text → List Chunk
  split text = if is_blank text then [] else number_chunks 0 (split_text text)
