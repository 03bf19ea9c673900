-- ===== src/S3.antt =====
-- The handlers of src/storage.rs that write and delete objects, with their authorization.
pub mod Body
pub mod Chunkers
pub mod Put
pub mod Stocked
pub mod PutGet
pub mod Access
pub mod Get
pub mod Copy
pub mod Multipart
pub mod Listings
mod Examples
use shardscape.Base.{
  ℕ, ℤ, pos, ◌+ℤ◌, Bool, true, false, List, [], ◌∷◌, ◌++◌, Bytes, text, Option, none, some, Result,
  ok, err, Error, length, concat, if◌then◌else◌,
}
use shardscape.Chunking.{ChunkingStrategy}
use shardscape.Disk.{DiskGuard, check}
use shardscape.Distributed.{BlobStore, Site, store_block}
use shardscape.Hashing.{compute_shard_id}
use shardscape.Policy.{Policy, is_allowed}
use shardscape.Store.{Store, Crates}
use shardscape.Store.Objects.{insert_object, delete_object}
use shardscape.Store.Users.{get_user}

-- `S3ErrorCode`; `crash` is a handler that panics or does not return.
pub data S3Error : Type 0 where
  access_denied internal_error service_unavailable invalid_request : S3Error
  no_such_key invalid_range slow_down no_such_upload invalid_argument not_implemented : S3Error
  crash : Error → S3Error

pub data S3Result (A : Type 0) : Type 0 where
  done : A → S3Result A
  failed : S3Error → S3Result A

-- The resource of a request.
abbrev pub resource_of : Option Bytes → Option Bytes → Bytes
resource_of (some b) (some k) = text "arn:ss:bucket:::" ++ b ++ text "/" ++ k
resource_of (some b) none = text "arn:ss:bucket:::" ++ b
resource_of none _ = text "*"

abbrev pub judged : Bytes → Bytes → Result (Option (Bytes × Policy)) → S3Result Unit
judged action resource (err e) = failed internal_error
judged action resource (ok none) = failed access_denied
judged action resource (ok (some (secret, policy))) =
    if is_allowed policy action resource then done tt else failed access_denied

module _ {V J : Type 0} (crates : Crates V J) where
  -- `authorize`, for a backend with a database; the access key is that of the request's credentials.
  unfoldable pub authorize :
      Store J → Option Bytes → Bytes → Option Bytes → Option Bytes → S3Result Unit
  authorize s none action bucket key = failed access_denied
  authorize s (some access_key) action bucket key =
      judged action (resource_of bucket key) (get_user crates s access_key)

-- `check_writable`
unfoldable pub check_writable : DiskGuard → S3Result Unit
check_writable guard = elim (check guard) [
  | none ↦ done tt
  | some trip ↦ failed service_unavailable
]

-- What a write has stored so far: the hashes in order and their total size.
pub record Stored : Type 0 where
  pub hashes : List Bytes
  pub total : ℤ

module _ {V J D : Type 0} (crates : Crates V J) (blob : BlobStore D) where
  -- The loop over completed blocks; the first one that cannot be stored ends the request.
  unfoldable pub store_blocks : ℕ → List Bytes → Stored → Site J D → S3Result Stored × Site J D
  store_blocks system [] stored site = (done stored, site)
  store_blocks system (block ∷ blocks) stored site =
      let result = store_block crates blob site system block (pos (length block)) in
      elim (result.0) [
        | none ↦ (failed internal_error, result.1)
        | some hash ↦
            store_blocks system blocks
              (record {
                hashes = stored.hashes ++ (hash ∷ []);
                total = stored.total +ℤ pos (length block);
              })
              result.1
      ]

abbrev pub last_piece : Option Bytes → List Bytes
last_piece none = []
last_piece (some block) = block ∷ []

-- The pieces of a body that were read.
abbrev pub given : List (Option Bytes) → List Bytes
given [] = []
given (none ∷ pieces) = given pieces
given (some piece ∷ pieces) = piece ∷ given pieces

module _ {V J D : Type 0} (crates : Crates V J) (blob : BlobStore D)
    (chunker : ChunkingStrategy) where
  -- The body comes in pieces, of which `none` is an error of the stream.
  unfoldable pub store_body :
      ℕ → List (Option Bytes) → Bytes → Stored → Site J D → S3Result Stored × Site J D
  store_body system [] buffer stored site =
      store_blocks crates blob system (last_piece (chunker.finalize buffer).0) stored site
  store_body system (none ∷ pieces) buffer stored site = (failed internal_error, site)
  store_body system (some piece ∷ pieces) buffer stored site =
      elim (chunker.process (buffer ++ piece)) [
        | err e ↦ (failed (crash e), site)
        | ok cut ↦
            let result = store_blocks crates blob system cut.0 stored site in
            elim (result.0) [
              | failed e ↦ (failed e, result.1)
              | done next ↦ store_body system pieces cut.1 next result.1
            ]
      ]

  -- The manifest is written after every block of it; the etag is the digest of the body, and the answer
  -- has it in quotes. The clock is read once for a request.
  unfoldable pub write_object :
      (Bytes → Bytes)
      → Site J D
      → ℕ
      → Bytes
      → Bytes
      → List (Option Bytes)
      → S3Result Bytes × Site J D
  write_object md5 site system bucket key pieces =
      let result = store_body system pieces [] (record { hashes = []; total = pos 0 }) site in
      let etag = crates.hex_encode (md5 (concat (given pieces))) in
      elim (result.0) [
        | failed e ↦ (failed e, result.1)
        | done stored ↦ (
          done (b'"' ∷ etag ++ (b'"' ∷ [])),
          record (result.1) {
            store =
                insert_object crates result.1.store system bucket
                  (compute_shard_id crates.blake3 key) key stored.hashes stored.total etag;
          },
        )
      ]

  -- `put_object`; removing the references of an old object does nothing.
  unfoldable pub put_object :
      (Bytes → Bytes)
      → Site J D
      → DiskGuard
      → ℕ
      → Option Bytes
      → Bytes
      → Bytes
      → Option (List (Option Bytes))
      → S3Result Bytes × Site J D
  put_object md5 site guard system credentials bucket key body =
      elim (authorize crates site.store credentials (text "s3:PutObject") (some bucket)
        (some key)) [
          | failed e ↦ (failed e, site)
          | done _ ↦ elim (check_writable guard) [
            | failed e ↦ (failed e, site)
            | done _ ↦ elim body [
              | none ↦ (failed invalid_request, site)
              | some pieces ↦ write_object md5 site system bucket key pieces
            ]
          ]
        ]

  abbrev pub without : ℕ → Bytes → Bytes → Site J D → Site J D
  without system bucket key site = record site {
    store = delete_object crates site.store system bucket key;
  }

  unfoldable pub delete_object_handler :
      Site J D → ℕ → Option Bytes → Bytes → Bytes → S3Result Unit × Site J D
  delete_object_handler site system credentials bucket key =
      elim (authorize crates site.store credentials (text "s3:DeleteObject") (some bucket)
        (some key)) [
          | failed e ↦ (failed e, site)
          | done _ ↦ (done tt, without system bucket key site)
        ]

  unfoldable pub delete_keys : ℕ → Bytes → List Bytes → Site J D → Site J D
  delete_keys system bucket [] site = site
  delete_keys system bucket (key ∷ keys) site =
      delete_keys system bucket keys (without system bucket key site)

  -- `delete_objects`: one authorization, for the bucket. No deletion fails, so every key is reported deleted.
  unfoldable pub delete_objects :
      Site J D → ℕ → Option Bytes → Bytes → List Bytes → S3Result (List Bytes) × Site J D
  delete_objects site system credentials bucket keys =
      elim (authorize crates site.store credentials (text "s3:DeleteObject") (some bucket) none) [
        | failed e ↦ (failed e, site)
        | done _ ↦ (done keys, delete_keys system bucket keys site)
      ]
