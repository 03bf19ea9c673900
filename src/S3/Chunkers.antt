-- ===== src/S3/Chunkers.antt =====
-- The chunkers of src/chunking.rs keep the bytes of a body.
use shardscape.Base.{ℕ, ◌<◌, ◌≡◌, refl, sym, ◌∙◌, append-nil, Bytes, [], ◌∷◌, concat, ok}
use shardscape.Chunking.{fixed_size_strategy, finalize}
use shardscape.Chunking.Fixed.{process-IsCut}
use shardscape.S3.{last_piece}
use shardscape.S3.Body.{Conserves}

finalize_whole : (buffer : Bytes) → concat (last_piece (finalize buffer).0) ≡ buffer
unfolding finalize
finalize_whole [] = refl
finalize_whole (b ∷ buffer) = append-nil (b ∷ buffer)

pub fixed_size_strategy-Conserves :
    (chunk_size : ℕ) → 0 < chunk_size → Conserves (fixed_size_strategy chunk_size)
unfolding fixed_size_strategy
fixed_size_strategy-Conserves chunk_size p = record {
  whole = λ buffer rest blocks h.
      let (blocks', rest', e, cut) = process-IsCut chunk_size buffer p in
      let same : ok (blocks', rest') ≡ ok (blocks, rest) = sym e ∙ h in
      let b : blocks' ≡ blocks = cc (same) in
      let r : rest' ≡ rest = cc (same) in rw (sym b, sym r) cut.whole;
  last = finalize_whole;
}
