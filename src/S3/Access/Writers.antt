-- ===== src/S3/Access/Writers.antt =====
-- Which requests the copies and the multipart handlers let through.
use shardscape.Base.{ℕ, ℤ, inl, inr, Bytes, text, List, Option, some}
use shardscape.Chunking.{ChunkingStrategy}
use shardscape.Disk.{DiskGuard}
use shardscape.Distributed.{BlobStore, Site}
use shardscape.S3.Access.{Guarded, authorize-cases}
use shardscape.S3.Copy.{CopySource, copy_object}
use shardscape.S3.Multipart.{
  create_multipart_upload, upload_part, complete_multipart_upload, abort_multipart_upload,
}
use shardscape.S3.Multipart.PartCopy.{upload_part_copy}
use shardscape.Store.{Crates}

module _ {V J D : Type 0} (crates : Crates V J) (blob : BlobStore D) (chunker : ChunkingStrategy)
    (fetch : Bytes → Bytes → Option Bytes) where
  -- The copies and the multipart handlers fail, and change nothing, on disk or in the store, unless a known user whose policy allows it has signed the request: s3:AbortMultipartUpload to abort, s3:PutObject otherwise, on the key of the request.
  pub writers-Guarded :
      (md5 : Bytes → Bytes) (parse_uuid : Bytes → Option Bytes) (site : Site J D)
      (guard : DiskGuard) (system : ℕ) (credentials : Option Bytes)
      (bucket key id upload_id : Bytes) (n : ℤ) (body : Option (List (Option Bytes)))
      (source : CopySource) (range : Option Bytes)
      → Guarded crates
          (text "s3:PutObject")
          (some key)
          credentials
          bucket
          site
          (copy_object crates site system credentials bucket key source)
        × Guarded crates
            (text "s3:PutObject")
            (some key)
            credentials
            bucket
            site
            (create_multipart_upload crates site credentials id bucket key)
        × Guarded crates (text "s3:PutObject") (some key) credentials bucket site (
            upload_part crates blob chunker md5 parse_uuid site guard system credentials bucket key
              upload_id n body)
        × Guarded crates (text "s3:PutObject") (some key) credentials bucket site (
            upload_part_copy crates blob chunker fetch md5 parse_uuid site guard system credentials
              bucket key upload_id n source range)
        × Guarded crates (text "s3:PutObject") (some key) credentials bucket site (
            complete_multipart_upload crates md5 parse_uuid site system credentials bucket key
              upload_id)
        × Guarded crates
            (text "s3:AbortMultipartUpload")
            (some key)
            credentials
            bucket
            site
            (abort_multipart_upload crates parse_uuid site credentials bucket key upload_id)
  unfolding copy_object create_multipart_upload upload_part upload_part_copy
      complete_multipart_upload abort_multipart_upload
  writers-Guarded md5 parse_uuid site guard system credentials bucket key id upload_id n body source
        range =
      (
        elim (authorize-cases crates (text "s3:PutObject") (some key) credentials bucket site) [
          | inl (e, f) ↦ inl (e, rw (f, copy_object))
          | inr a ↦ inr a
        ],
        elim (authorize-cases crates (text "s3:PutObject") (some key) credentials bucket site) [
          | inl (e, f) ↦ inl (e, rw (f, create_multipart_upload))
          | inr a ↦ inr a
        ],
        elim (authorize-cases crates (text "s3:PutObject") (some key) credentials bucket site) [
          | inl (e, f) ↦ inl (e, rw (f, upload_part))
          | inr a ↦ inr a
        ],
        elim (authorize-cases crates (text "s3:PutObject") (some key) credentials bucket site) [
          | inl (e, f) ↦ inl (e, rw (f, upload_part_copy))
          | inr a ↦ inr a
        ],
        elim (authorize-cases crates (text "s3:PutObject") (some key) credentials bucket site) [
          | inl (e, f) ↦ inl (e, rw (f, complete_multipart_upload))
          | inr a ↦ inr a
        ],
        elim (authorize-cases crates (text "s3:AbortMultipartUpload") (some key) credentials bucket
            site) [ inl (e, f) ↦ inl (e, rw (f, abort_multipart_upload)) | inr a ↦ inr a ],
      )
