-- ===== src/S3/Copy/Copied.antt =====
-- What a copied object is.
use shardscape.Base.{
  ℕ, ℤ, ◌≡◌, refl, inl, inr, List, Bytes, text, Option, some, Option-cases, if◌then◌else◌, ◌==◌,
  ◌&&◌, list_eq, nat_eq, pair_eq, int_eq,
}
use shardscape.Distributed.{Site}
use shardscape.Hashing.{compute_shard_id}
use shardscape.S3.{done, failed, authorize, no_such_key}
use shardscape.S3.Body.{result-cases}
use shardscape.S3.Copy.{
  CopySource, bucket_source, access_point, copy_object, copy_from, copy_manifest, quoted,
}
use shardscape.Store.{Crates, now_micros}
use shardscape.Store.Manifests.{get_object-IsHash}
use shardscape.Store.Objects.{get_object}
use shardscape.Store.Registers.{after_write, get_object-insert_object}
use shardscape.Table.{lookup}

module _ {V J D : Type 0} (crates : Crates V J) where
  -- What a copy that answers with an etag has done.
  pub record IsCopied (before after : Site J D) (system : ℕ) (bucket key : Bytes)
      (source : CopySource) (etag : Bytes) : Type 0 where
    pub from_bucket : Bytes
    pub from_key : Bytes
    pub hashes : List Bytes
    pub size : ℤ
    pub digest : Bytes
    pub is_source : source ≡ bucket_source from_bucket from_key
    pub live : get_object before.store from_bucket from_key ≡ some (hashes, size, digest)
    pub answer : etag ≡ quoted digest
    pub reads :
        (b k : Bytes)
        → get_object after.store b k ≡ (
            if (bucket == b) && (key == k)
            then after_write
                (now_micros before.store system)
                (some (hashes, size, digest))
                (lookup (bucket, key) before.store.objects)
            else get_object before.store b k)
    pub disk : after.disk ≡ before.disk

  copy_from-IsCopied :
      (site : Site J D) (system : ℕ) (bucket key : Bytes) (source : CopySource) (etag : Bytes)
      → (copy_from crates site system bucket key source).0 ≡ done etag
      → IsCopied site
          (copy_from crates site system bucket key source).1
          system
          bucket
          key
          source
          etag
  unfolding copy_from copy_manifest
  copy_from-IsCopied site system bucket key access_point etag h = absurd (cc (h))
  copy_from-IsCopied site system bucket key (bucket_source from_bucket from_key) etag h =
      elim (Option-cases (get_object site.store from_bucket from_key)) [
        | inl e ↦
            absurd (let q : failed no_such_key ≡ done etag = rw (e, copy_manifest) at h in cc (q))
        | inr ((hashes, size, digest), e) ↦
            let q : done (quoted digest) ≡ done etag = rw (e, copy_manifest) at h in
            rw (e, copy_manifest)
              (record {
                from_bucket = from_bucket;
                from_key = from_key;
                hashes = hashes;
                size = size;
                digest = digest;
                is_source = refl;
                live = e;
                answer = cc (q);
                reads = λ b k.
                    get_object-insert_object crates site.store system bucket
                      (compute_shard_id crates.blake3 key) key hashes size digest b k
                      (get_object-IsHash site.store from_bucket from_key hashes size digest e);
                disk = refl;
              })
      ]

  -- A copy that succeeds has a source with a live object; its key then reads as the same blocks, size and etag, unless a row with the same or a later timestamp was there. Every other key reads as before, and nothing on disk changes.
  pub copy_object-done :
      (site : Site J D) (system : ℕ) (credentials : Option Bytes) (bucket key : Bytes)
      (source : CopySource) (etag : Bytes)
      → (copy_object crates site system credentials bucket key source).0 ≡ done etag
      → IsCopied site
          (copy_object crates site system credentials bucket key source).1
          system
          bucket
          key
          source
          etag
  unfolding copy_object
  copy_object-done site system credentials bucket key source etag h =
      elim (result-cases
        (authorize crates site.store credentials (text "s3:PutObject") (some bucket) (some key))) [
          | inl (e, f) ↦ absurd (let q : failed e ≡ done etag = rw (f, copy_object) at h in cc (q))
          | inr (u, f) ↦
              rw (f, copy_object)
                (copy_from-IsCopied site system bucket key source etag (rw (f, copy_object) at h))
        ]
