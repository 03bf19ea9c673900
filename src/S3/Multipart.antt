-- ===== src/S3/Multipart.antt =====
-- The multipart handlers of src/storage.rs.
pub mod PartCopy
pub mod Pages
pub mod Parts
pub mod Completed
pub mod Examples
use shardscape.Base.{
  ℕ, ℤ, pos, ◌+ℤ◌, ◌-◌, List, [], ◌∷◌, ◌++◌, Bytes, text, Option, none, some, and_then, concat, map,
  length, take, keep, get_last?, option_map, ltb, ltb_ℤ, not, Bool, true, false, if◌then◌else◌,
  ◌==◌, list_eq, nat_eq, decimal, parse_i32, sort,
}
use shardscape.Chunking.{ChunkingStrategy}
use shardscape.Disk.{DiskGuard}
use shardscape.Distributed.{BlobStore, Site}
use shardscape.Hashing.{compute_shard_id}
use shardscape.S3.{
  S3Result, done, failed, internal_error, invalid_request, no_such_upload, Stored, given,
  store_body, authorize, check_writable,
}
use shardscape.S3.Copy.{quoted}
use shardscape.S3.Listings.{page_size}
use shardscape.Store.{Store, Crates}
use shardscape.Store.Multipart.{
  Part, insert_multipart, get_multipart_key, insert_part, list_parts, delete_multipart_upload,
  list_multipart_uploads,
}
use shardscape.Store.Objects.{insert_object}

-- `trim_matches('"')`
unfoldable pub trim_front : Bytes → Bytes
trim_front [] = []
trim_front (c ∷ s) = if c == b'"' then trim_front s else c ∷ s

unfoldable pub trim_back : Bytes → Bytes
trim_back [] = []
trim_back (c ∷ s) = elim (trim_back s) [
  | [] ↦ if c == b'"' then [] else c ∷ []
  | d ∷ more ↦ c ∷ d ∷ more
]

-- What `complete_multipart_upload` collects of the parts: their blocks, sizes and etags in bytes.
pub record Gathered : Type 0 where
  pub hashes : List Bytes
  pub total : ℤ
  pub etags : Bytes

module _ {V J : Type 0} (crates : Crates V J) where
  -- The loop over the parts; a part whose etag is no hexadecimal text ends it.
  unfoldable pub gather : List Part → Gathered → Option Gathered
  gather [] g = some g
  gather ((n, blocks, size, etag) ∷ parts) g =
      elim (crates.hex_decode (trim_back (trim_front etag))) [
        | none ↦ none
        | some bytes ↦ gather parts (record {
          hashes = g.hashes ++ blocks;
          total = g.total +ℤ size;
          etags = g.etags ++ bytes;
        })
      ]

  -- `format!("{}-{}", …)`: the number behind the dash is that of the blocks.
  abbrev pub final_etag : (Bytes → Bytes) → Gathered → Bytes
  final_etag md5 g = crates.hex_encode (md5 g.etags) ++ text "-" ++ decimal (length g.hashes)

module _ {J : Type 0} where
  -- The upload of a request: its id is parsed, and it has to be there.
  unfoldable pub upload_of :
      (Bytes → Option Bytes) → Store J → Bytes → Bytes → S3Result (Bytes × Bytes)
  upload_of parse_uuid s bucket upload_id = elim (parse_uuid upload_id) [
    | none ↦ failed invalid_request
    | some id ↦ elim (get_multipart_key s bucket id) [
      | none ↦ failed no_such_upload
      | some key ↦ done (id, key)
    ]
  ]

module _ {V J D : Type 0} (crates : Crates V J) where
  -- `id` is the new id.
  unfoldable pub create_multipart_upload :
      Site J D → Option Bytes → Bytes → Bytes → Bytes → S3Result Bytes × Site J D
  create_multipart_upload site credentials id bucket key =
      elim (authorize crates site.store credentials (text "s3:PutObject") (some bucket)
        (some key)) [
          | failed e ↦ (failed e, site)
          | done _ ↦ (done id, record site { store = insert_multipart site.store bucket id key })
        ]

  unfoldable pub complete_parts :
      (Bytes → Bytes)
      → Site J D
      → ℕ
      → Bytes
      → Bytes
      → Bytes
      → Option Gathered
      → S3Result Bytes × Site J D
  complete_parts md5 site system bucket key id none = (failed internal_error, site)
  complete_parts md5 site system bucket key id (some g) = (
    done (quoted (final_etag crates md5 g)),
    record site {
      store =
          delete_multipart_upload
            (insert_object crates site.store system bucket (compute_shard_id crates.blake3 key) key
              g.hashes g.total (final_etag crates md5 g))
            bucket id;
    },
  )

  -- The list of parts in the request is not looked at: all parts of the upload are taken.
  unfoldable pub complete_multipart_upload :
      (Bytes → Bytes)
      → (Bytes → Option Bytes)
      → Site J D
      → ℕ
      → Option Bytes
      → Bytes
      → Bytes
      → Bytes
      → S3Result Bytes × Site J D
  complete_multipart_upload md5 parse_uuid site system credentials bucket key upload_id =
      elim (authorize crates site.store credentials (text "s3:PutObject") (some bucket)
        (some key)) [
          | failed e ↦ (failed e, site)
          | done _ ↦ elim (upload_of parse_uuid site.store bucket upload_id) [
            | failed e ↦ (failed e, site)
            | done (id, stored_key) ↦
                let parts =
                  sort (λ (a b : Part). ltb_ℤ a.0 b.0) (list_parts site.store bucket id) in
                let completed =
                  complete_parts md5 site system bucket key id
                    (gather crates parts (record { hashes = []; total = pos 0; etags = [] })) in
                if stored_key == key then completed else (failed invalid_request, site)
          ]
        ]

  unfoldable pub abort_multipart_upload :
      (Bytes → Option Bytes)
      → Site J D
      → Option Bytes
      → Bytes
      → Bytes
      → Bytes
      → S3Result (Unit {0}) × Site J D
  abort_multipart_upload parse_uuid site credentials bucket key upload_id =
      elim (authorize crates site.store credentials (text "s3:AbortMultipartUpload") (some bucket)
        (some key)) [
          | failed e ↦ (failed e, site)
          | done _ ↦ elim (parse_uuid upload_id) [
            | none ↦ (failed invalid_request, site)
            | some id ↦
                (done tt, record site { store = delete_multipart_upload site.store bucket id })
          ]
        ]

module _ {V J D : Type 0} (crates : Crates V J) (blob : BlobStore D)
    (chunker : ChunkingStrategy) where
  unfoldable pub write_part :
      (Bytes → Bytes)
      → Site J D
      → ℕ
      → Bytes
      → Bytes
      → ℤ
      → List (Option Bytes)
      → S3Result Bytes × Site J D
  write_part md5 site system bucket id part_number pieces =
      let result =
        store_body crates blob chunker system pieces [] (record { hashes = []; total = pos 0 })
          site in
      let etag = crates.hex_encode (md5 (concat (given pieces))) in
      elim (result.0) [
        | failed e ↦ (failed e, result.1)
        | done stored ↦ (
          done (quoted etag),
          record (result.1) {
            store =
                insert_part result.1.store bucket id part_number stored.hashes stored.total etag;
          },
        )
      ]

  -- The key of the request is authorized, and not compared with that of the upload.
  unfoldable pub upload_part :
      (Bytes → Bytes)
      → (Bytes → Option Bytes)
      → Site J D
      → DiskGuard
      → ℕ
      → Option Bytes
      → Bytes
      → Bytes
      → Bytes
      → ℤ
      → Option (List (Option Bytes))
      → S3Result Bytes × Site J D
  upload_part md5 parse_uuid site guard system credentials bucket key upload_id part_number body =
      elim (authorize crates site.store credentials (text "s3:PutObject") (some bucket)
        (some key)) [
          | failed e ↦ (failed e, site)
          | done _ ↦ elim (check_writable guard) [
            | failed e ↦ (failed e, site)
            | done _ ↦ elim (upload_of parse_uuid site.store bucket upload_id) [
              | failed e ↦ (failed e, site)
              | done (id, stored_key) ↦ elim body [
                | none ↦ (failed invalid_request, site)
                | some pieces ↦ write_part md5 site system bucket id part_number pieces
              ]
            ]
          ]
        ]
