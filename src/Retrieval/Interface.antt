-- ===== src/Retrieval/Interface.antt =====
-- What retrieval takes from elsewhere. Floating-point numbers are a type with the operations that the
-- code calls; the other fields are the embedding column, the operators of pgvector and of the full
-- text search of PostgreSQL, the decryption of a chunk, and the relevance that the reranker's model
-- gives a passage (the protocol `Reranker` promises one score for each passage).
use enterprise_document_inte.Base.{ℕ, Bool, List, Text}
use enterprise_document_inte.Models.{DocumentChunk}

pub record Engine : Type 1 where
  pub Float : Type 0
  pub add : Float → Float → Float
  pub sub : Float → Float → Float
  pub mul : Float → Float → Float
  pub div : Float → Float → Float
  pub log : Float → Float
  pub sqrt : Float → Float
  pub lt : Float → Float → Bool
  pub is_zero : Float → Bool
  pub of_ℕ : ℕ → Float
  -- `decimal n k` is n / 10 ^ k.
  pub decimal : ℕ → ℕ → Float
  pub embedding : DocumentChunk → List Float
  pub cosine_distance : List Float → List Float → Float
  pub ts_match : Text → DocumentChunk → Bool
  pub ts_rank : Text → DocumentChunk → Float
  pub decrypt_str : Text → Text
  pub relevance : Text → Text → Float
