-- ===== src/Chunking/Cdc.antt =====
-- Content-defined blocks, by whatever cuts the chunker proposes.
use shardscape.Base.{ℕ, ◌≤◌, ◌<◌, ◌≡◌, Bytes, List, ◌++◌, none, some, length, concat, All}
use shardscape.Chunking.{Chunker, DynamicCdcStrategy}

-- What the `fastcdc` crate documents: there is a first cut unless the data is empty, it starts at
-- the front, is not empty, stays within the data and does not pass the maximal size.
pub record IsChunker (first_chunk : Chunker) (s : DynamicCdcStrategy) : Type 0 where
  pub some_cut : (buffer : Bytes) → first_chunk s buffer ≡ none → length buffer ≡ 0
  pub at_front : (buffer : Bytes) (o n : ℕ) → first_chunk s buffer ≡ some (o, n) → o ≡ 0
  pub positive : (buffer : Bytes) (o n : ℕ) → first_chunk s buffer ≡ some (o, n) → 0 < n
  pub inside : (buffer : Bytes) (o n : ℕ) → first_chunk s buffer ≡ some (o, n) → n ≤ length buffer
  pub bounded : (buffer : Bytes) (o n : ℕ) → first_chunk s buffer ≡ some (o, n) → n ≤ s.max_size

-- The blocks and the rest are the buffer, and none passes the maximal size.
pub record IsCdcCut (max_size : ℕ) (buffer : Bytes) (blocks : List Bytes) (rest : Bytes)
    : Type 0 where
  pub whole : concat blocks ++ rest ≡ buffer
  pub within : All (λ b. (0 < length b) × (length b ≤ max_size)) blocks
  pub rest_within : length rest ≤ max_size
