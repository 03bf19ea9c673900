-- ===== src/S3/Multipart/PartCopy.antt =====
-- `upload_part_copy` of src/storage.rs.
use shardscape.Base.{
  split_once, ℕ, ℤ, pos, ◌-◌, List, [], ◌∷◌, ◌++◌, Bytes, text, Option, none, some, ok, err, get_or,
  to_u64, strip_prefix, nat_eq, parse_u64,
}
use shardscape.Chunking.{ChunkingStrategy}
use shardscape.Disk.{DiskGuard}
use shardscape.Distributed.{BlobStore, Site, get_block}
use shardscape.Range.{Slice, slice_blocks_for_range, slice_block_bytes}
use shardscape.S3.{
  S3Result, done, failed, crash, internal_error, invalid_argument, no_such_key, not_implemented,
  Stored, store_blocks, last_piece, authorize, check_writable,
}
use shardscape.S3.Copy.{CopySource, bucket_source, access_point, quoted}
use shardscape.S3.Multipart.{upload_of}
use shardscape.Store.{Crates}
use shardscape.Store.Blocks.{block_sizes}
use shardscape.Store.Multipart.{insert_part}
use shardscape.Store.Objects.{get_object}

abbrev pub after_bytes : Bytes → Bytes
after_bytes s = elim (strip_prefix (text "bytes=") s) [ none ↦ s | some rest ↦ rest ]

abbrev pub bounds : Option ℕ → Option ℕ → S3Result (ℕ × ℕ)
bounds none _ = failed invalid_argument
bounds (some start) none = failed invalid_argument
bounds (some start) (some end) = done (start, end)

-- The copied range. It is not compared with the size, nor its start with its end.
unfoldable pub copy_range : Option Bytes → ℤ → S3Result (ℕ × ℕ)
copy_range none size = done (0, to_u64 size - 1)
copy_range (some range) size = elim (split_once b'-' (after_bytes range)) [
  | none ↦ failed invalid_argument
  | some (start, end) ↦ bounds (parse_u64 start) (parse_u64 end)
]

module _ {V J D : Type 0} (crates : Crates V J) (blob : BlobStore D) (chunker : ChunkingStrategy)
    (fetch : Bytes → Bytes → Option Bytes) where
  -- The loop over the slices: each is fetched, cut and stored before the next; `seen` is what the digest
  -- has taken in.
  unfoldable pub copy_slices :
      ℕ
      → List Bytes
      → List Slice
      → Bytes
      → Bytes
      → Stored
      → Site J D
      → S3Result (Stored × Bytes) × Site J D
  copy_slices system hashes [] seen buffer stored site =
      let result =
        store_blocks crates blob system (last_piece (chunker.finalize buffer).0) stored site in
      elim (result.0) [
        | failed e ↦ (failed e, result.1)
        | done last ↦ (done (last, seen), result.1)
      ]
  copy_slices system hashes ((i, skip, n) ∷ slices) seen buffer stored site =
      let got = get_block crates blob fetch site system (get_or hashes i []) in
      elim (got.0) [
        | none ↦ (failed internal_error, got.1)
        | some bytes ↦
            let sliced = slice_block_bytes bytes skip (some n) in
            elim (chunker.process (buffer ++ sliced)) [
              | err e ↦ (failed (crash e), got.1)
              | ok cut ↦
                  let result = store_blocks crates blob system cut.0 stored got.1 in
                  elim (result.0) [
                    | failed e ↦ (failed e, result.1)
                    | done next ↦
                        copy_slices system hashes slices (seen ++ sliced) cut.1 next result.1
                  ]
            ]
      ]

  unfoldable pub copy_part :
      (Bytes → Bytes)
      → Site J D
      → ℕ
      → Bytes
      → Bytes
      → ℤ
      → List Bytes
      → ℕ × ℕ
      → S3Result Bytes × Site J D
  copy_part md5 site system bucket id part_number hashes range =
      let slices = slice_blocks_for_range (block_sizes site.store hashes) range.0 range.1 in
      let result =
        copy_slices system hashes slices [] [] (record { hashes = []; total = pos 0 }) site in
      elim (result.0) [
        | failed e ↦ (failed e, result.1)
        | done (stored, seen) ↦
            let etag = crates.hex_encode (md5 seen) in
            (
              done (quoted etag),
              record (result.1) {
                store =
                    insert_part result.1.store bucket id part_number stored.hashes stored.total
                      etag;
              },
            )
      ]

  unfoldable pub copy_source_part :
      (Bytes → Bytes)
      → Site J D
      → ℕ
      → Bytes
      → Bytes
      → ℤ
      → CopySource
      → Option Bytes
      → S3Result Bytes × Site J D
  copy_source_part md5 site system bucket id part_number access_point range =
      (failed not_implemented, site)
  copy_source_part md5 site system bucket id part_number (bucket_source from_bucket from_key)
        range =
      elim (get_object site.store from_bucket from_key) [
        | none ↦ (failed no_such_key, site)
        | some (hashes, size, etag) ↦ elim (copy_range range size) [
          | failed e ↦ (failed e, site)
          | done bounds ↦ copy_part md5 site system bucket id part_number hashes bounds
        ]
      ]

  unfoldable pub upload_part_copy :
      (Bytes → Bytes)
      → (Bytes → Option Bytes)
      → Site J D
      → DiskGuard
      → ℕ
      → Option Bytes
      → Bytes
      → Bytes
      → Bytes
      → ℤ
      → CopySource
      → Option Bytes
      → S3Result Bytes × Site J D
  upload_part_copy md5 parse_uuid site guard system credentials bucket key upload_id part_number
        source range =
      elim (authorize crates site.store credentials (text "s3:PutObject") (some bucket)
        (some key)) [
          | failed e ↦ (failed e, site)
          | done _ ↦ elim (check_writable guard) [
            | failed e ↦ (failed e, site)
            | done _ ↦ elim (upload_of parse_uuid site.store bucket upload_id) [
              | failed e ↦ (failed e, site)
              | done (id, stored_key) ↦
                  copy_source_part md5 site system bucket id part_number source range
            ]
          ]
        ]
