-- ===== src/S3/Get.antt =====
-- `get_object` of src/storage.rs: the plan of a whole or ranged download, and the frames it sends.
pub mod Serve
mod Examples
use shardscape.Base.{
  ℕ, ℤ, pos, ◌+◌, ◌-◌, to_u64, List, [], ◌∷◌, ◌++◌, Bytes, text, Option, none, some, map, get_or,
}
use shardscape.Distributed.{BlobStore, Site, get_block}
use shardscape.Range.{Range, Slice, resolve_range, slice_blocks_for_range, slice_block_bytes}
use shardscape.S3.{S3Result, done, failed, slow_down, no_such_key, invalid_range, authorize}
use shardscape.Store.{Store, Crates}
use shardscape.Store.Blocks.{block_sizes}
use shardscape.Store.Objects.{get_object}

-- A block to send: its hash, the bytes skipped at its front, and how many are taken, or all.
abbrev pub Piece : Type 0
Piece = Bytes × ℕ × Option ℕ

-- What is sent: a list of blocks with the content length and the bounds of `Content-Range`.
pub record Plan : Type 0 where
  pub pieces : List Piece
  pub content_length : ℤ
  pub content_range : Option (ℕ × ℕ)

-- The answer; a frame `none` is an error of the stream, after which nothing follows.
pub record Reply : Type 0 where
  pub frames : List (Option Bytes)
  pub content_length : ℤ
  pub content_range : Option (ℕ × ℕ × ℤ)
  pub e_tag : Bytes

abbrev pub whole_piece : Bytes → Piece
whole_piece hash = (hash, 0, none)

-- The index of a slice is one of the list.
abbrev pub piece_of : List Bytes → Slice → Piece
piece_of hashes (i, skip, n) = (get_or hashes i [], skip, some n)

module _ {J : Type 0} where
  abbrev pub ranged : Store J → List Bytes → Option (ℕ × ℕ) → S3Result Plan
  ranged s hashes none = failed invalid_range
  ranged s hashes (some (start, end)) = done (record {
    pieces = map (piece_of hashes) (slice_blocks_for_range (block_sizes s hashes) start end);
    content_length = pos (end - start + 1);
    content_range = some (start, end);
  })

  unfoldable pub plan_of : Store J → List Bytes → ℤ → Option Range → S3Result Plan
  plan_of s hashes size none =
      done (record { pieces = map whole_piece hashes; content_length = size; content_range = none })
  plan_of s hashes size (some range) = ranged s hashes (resolve_range range (to_u64 size))

abbrev pub with_size : ℤ → Option (ℕ × ℕ) → Option (ℕ × ℕ × ℤ)
with_size size none = none
with_size size (some (start, end)) = some (start, end, size)

abbrev pub cut_piece : Piece → Option Bytes → Option Bytes
cut_piece piece none = none
cut_piece (hash, skip, n) (some bytes) = some (slice_block_bytes bytes skip n)

module _ {V J D : Type 0} (crates : Crates V J) (blob : BlobStore D)
    (fetch : Bytes → Bytes → Option Bytes) where
  unfoldable pub get_piece : ℕ → Site J D → Piece → Option Bytes × Site J D
  get_piece system site piece =
      let got = get_block crates blob fetch site system piece.0 in (cut_piece piece got.0, got.1)

  -- The frames after the first, fetched in order.
  unfoldable pub stream : ℕ → Site J D → List Piece → List (Option Bytes) × Site J D
  stream system site [] = ([], site)
  stream system site (piece ∷ pieces) =
      let got = get_piece system site piece in
      let rest = stream system got.1 pieces in
      elim (got.0) [ none ↦ (none ∷ [], got.1) | some bytes ↦ (some bytes ∷ rest.0, rest.1) ]

  -- The first frame is fetched before the answer is begun.
  unfoldable pub serve : ℕ → Site J D → List Piece → S3Result (List (Option Bytes)) × Site J D
  serve system site [] = (done [], site)
  serve system site (piece ∷ pieces) =
      let got = get_piece system site piece in
      let rest = stream system got.1 pieces in
      elim (got.0) [
        | none ↦ (failed slow_down, got.1)
        | some bytes ↦ (done (some bytes ∷ rest.0), rest.1)
      ]

  abbrev pub reply_of : Bytes → ℤ → Plan → S3Result (List (Option Bytes)) → S3Result Reply
  reply_of etag size plan (failed e) = failed e
  reply_of etag size plan (done frames) = done (record {
    frames = frames;
    content_length = plan.content_length;
    content_range = with_size size plan.content_range;
    e_tag = b'"' ∷ etag ++ (b'"' ∷ []);
  })

  unfoldable pub get_object_handler :
      Site J D → ℕ → Option Bytes → Bytes → Bytes → Option Range → S3Result Reply × Site J D
  get_object_handler site system credentials bucket key range =
      elim (authorize crates site.store credentials (text "s3:GetObject") (some bucket)
        (some key)) [
          | failed e ↦ (failed e, site)
          | done _ ↦ elim (get_object site.store bucket key) [
            | none ↦ (failed no_such_key, site)
            | some (hashes, size, etag) ↦ elim (plan_of site.store hashes size range) [
              | failed e ↦ (failed e, site)
              | done plan ↦
                  let served = serve system site plan.pieces in
                  (reply_of etag size plan served.0, served.1)
            ]
          ]
        ]
