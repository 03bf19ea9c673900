-- ===== src/Chunking.antt =====
-- src/chunking.rs: cutting a buffer into blocks. A strategy takes what it can from the buffer and
-- leaves the rest there; `process` and `finalize` return the blocks with the buffer that is left.
pub mod Fixed
pub mod Cdc
pub mod Stream
mod Examples
use shardscape.Base.{
  ℕ, zero, suc, ◌+◌, Bytes, List, [], ◌∷◌, Option, none, some, true, false, Result, ok, err, panic,
  diverges, ◌>>=◌, length, take, drop, ltb, leb, ◌||◌,
}

-- The trait `ChunkingStrategy`.
pub record ChunkingStrategy : Type 0 where
  pub process : Bytes → Result (List Bytes × Bytes)
  pub finalize : Bytes → Option Bytes × Bytes

-- A block that the loop has taken, in front of those that it takes later.
abbrev pub with_block : Bytes → List Bytes × Bytes → Result (List Bytes × Bytes)
with_block block (blocks, rest) = ok (block ∷ blocks, rest)

-- `while buffer.len() >= self.chunk_size`, on fuel.
unfoldable pub fixed_loop : ℕ → ℕ → Bytes → Result (List Bytes × Bytes)
fixed_loop zero chunk_size buffer = err diverges
fixed_loop (suc fuel) chunk_size buffer = elim (leb chunk_size (length buffer)) [
  | true ↦
      fixed_loop fuel chunk_size (drop chunk_size buffer) >>= with_block (take chunk_size buffer)
  | false ↦ ok ([], buffer)
]

unfoldable pub finalize : Bytes → Option Bytes × Bytes
finalize [] = (none, [])
finalize (b ∷ buffer) = (some (b ∷ buffer), [])

unfoldable pub fixed_size_strategy : ℕ → ChunkingStrategy
unfolding fixed_loop finalize
fixed_size_strategy chunk_size = record {
  process = λ buffer. fixed_loop (suc (length buffer)) chunk_size buffer;
  finalize = finalize;
}

-- The fields of `DynamicCDCStrategy`. `first_chunk` is the first cut of
-- `fastcdc::v2020::FastCDC::new(data, min_size, avg_size, max_size)`: its offset and its length.
pub record DynamicCdcStrategy : Type 0 where
  pub min_size : ℕ
  pub avg_size : ℕ
  pub max_size : ℕ

abbrev pub Chunker : Type 0
Chunker = DynamicCdcStrategy → Bytes → Option (ℕ × ℕ)

-- What one round of the loop does with the buffer: `some end` takes a block of `end` bytes.
unfoldable pub cut : Chunker → DynamicCdcStrategy → Bytes → Option ℕ
cut first_chunk s buffer = elim (ltb (length buffer) s.min_size) [
  | true ↦ none
  | false ↦ elim (first_chunk s buffer) [
    | none ↦ none
    | some (offset, size) ↦ elim (ltb (offset + size) (length buffer) || leb s.max_size size) [
      | true ↦ some (offset + size)
      | false ↦ none
    ]
  ]
]

-- The `loop`, on fuel; `split_to` panics past the end of the buffer.
unfoldable pub cdc_loop : ℕ → Chunker → DynamicCdcStrategy → Bytes → Result (List Bytes × Bytes)
unfolding cut
cdc_loop zero first_chunk s buffer = err diverges
cdc_loop (suc fuel) first_chunk s buffer = elim (cut first_chunk s buffer) [
  | none ↦ ok ([], buffer)
  | some end ↦ elim (ltb (length buffer) end) [
    | true ↦ err panic
    | false ↦ cdc_loop fuel first_chunk s (drop end buffer) >>= with_block (take end buffer)
  ]
]

unfoldable pub dynamic_cdc_strategy : Chunker → DynamicCdcStrategy → ChunkingStrategy
unfolding cdc_loop finalize
dynamic_cdc_strategy first_chunk s = record {
  process = λ buffer. cdc_loop (suc (length buffer)) first_chunk s buffer;
  finalize = finalize;
}
