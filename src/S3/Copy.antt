-- ===== src/S3/Copy.antt =====
-- `head_object` and `copy_object` of src/storage.rs, and the handlers of a bucket itself.
pub mod Copied
use shardscape.Base.{ℤ, ◌∷◌, [], ◌++◌, Bytes, text, List, Option, none, some}
use shardscape.Distributed.{Site}
use shardscape.Hashing.{compute_shard_id}
use shardscape.S3.{S3Result, done, failed, no_such_key, not_implemented, authorize}
use shardscape.Store.{Crates}
use shardscape.Store.Objects.{get_object, insert_object}
use shardscape.Store.Queries.{list_buckets}
use shardscape.Base.{ℕ}

-- `CopySource`
pub data CopySource : Type 0 where
  bucket_source : (bucket key : Bytes) → CopySource
  access_point : CopySource

abbrev pub quoted : Bytes → Bytes
quoted etag = b'"' ∷ etag ++ (b'"' ∷ [])

abbrev pub head_of : Option (List Bytes × ℤ × Bytes) → S3Result (ℤ × Bytes)
head_of none = failed no_such_key
head_of (some (hashes, size, etag)) = done (size, quoted etag)

module _ {V J D : Type 0} (crates : Crates V J) where
  -- The size and the etag of an object.
  unfoldable pub head_object : Site J D → Option Bytes → Bytes → Bytes → S3Result (ℤ × Bytes)
  head_object site credentials bucket key =
      elim (authorize crates site.store credentials (text "s3:HeadObject") (some bucket)
        (some key)) [ failed e ↦ failed e | done _ ↦ head_of (get_object site.store bucket key) ]

  -- The manifest of the source, under the other key; the references of blocks are not kept.
  unfoldable pub copy_manifest :
      Site J D → ℕ → Bytes → Bytes → Option (List Bytes × ℤ × Bytes) → S3Result Bytes × Site J D
  copy_manifest site system bucket key none = (failed no_such_key, site)
  copy_manifest site system bucket key (some (hashes, size, etag)) = (
    done (quoted etag),
    record site {
      store =
          insert_object crates site.store system bucket (compute_shard_id crates.blake3 key) key
            hashes size etag;
    },
  )

  unfoldable pub copy_from : Site J D → ℕ → Bytes → Bytes → CopySource → S3Result Bytes × Site J D
  copy_from site system bucket key access_point = (failed not_implemented, site)
  copy_from site system bucket key (bucket_source from_bucket from_key) =
      copy_manifest site system bucket key (get_object site.store from_bucket from_key)

  unfoldable pub copy_object :
      Site J D → ℕ → Option Bytes → Bytes → Bytes → CopySource → S3Result Bytes × Site J D
  copy_object site system credentials bucket key source =
      elim (authorize crates site.store credentials (text "s3:PutObject") (some bucket)
        (some key)) [
          | failed e ↦ (failed e, site)
          | done _ ↦ copy_from site system bucket key source
        ]

  -- A bucket is there as soon as it has an object: these only authorize.
  unfoldable pub create_bucket : Site J D → Option Bytes → Bytes → S3Result (Unit {0})
  create_bucket site credentials bucket =
      authorize crates site.store credentials (text "s3:CreateBucket") (some bucket) none

  unfoldable pub delete_bucket : Site J D → Option Bytes → Bytes → S3Result (Unit {0})
  delete_bucket site credentials bucket =
      authorize crates site.store credentials (text "s3:DeleteBucket") (some bucket) none

  unfoldable pub head_bucket : Site J D → Option Bytes → Bytes → S3Result (Unit {0})
  head_bucket site credentials bucket =
      authorize crates site.store credentials (text "s3:ListBucket") (some bucket) none

  -- The buckets with the microseconds of their first write.
  unfoldable pub list_buckets_handler : Site J D → Option Bytes → S3Result (List (Bytes × ℤ))
  list_buckets_handler site credentials =
      elim (authorize crates site.store credentials (text "s3:ListAllMyBuckets") none none) [
        | failed e ↦ failed e
        | done _ ↦ done (list_buckets site.store)
      ]
