-- ===== src/S3/Put.antt =====
-- What a put writes, and that one that fails writes no manifest.
use shardscape.Base.{
  ℕ, ℤ, pos, ◌≡◌, refl, ap, sym, subst, ◌∙◌, inl, inr, List, [], ◌∷◌, Bytes, text, Option, some,
  Option-cases, map, concat, length, All, arith, list_eq, nat_eq, pair_eq, eq_refl,
}
use shardscape.Chunking.{ChunkingStrategy}
use shardscape.Disk.{DiskGuard}
use shardscape.Distributed.{BlobStore, Site}
use shardscape.S3.{
  S3Error, done, failed, Stored, store_body, given, write_object, put_object, authorize,
  check_writable,
}
use shardscape.Store.{Crates}
use shardscape.Hashing.{compute_shard_id}
use shardscape.Store.{now_micros}
use shardscape.Store.Objects.{get_object, insert_object}
use shardscape.Store.Registers.{after_write, get_object-insert_object}
use shardscape.Store.Manifests.{IsHash}
use shardscape.Table.{lookup}
use shardscape.S3.Body.{Conserves, Kept, result-cases, store_body-Kept, store_body-Adds}

hashes-IsHash :
    {V J : Type 0} (crates : Crates V J)
    → ((b : Bytes) → length (crates.blake3 b) ≡ 32)
    → (blocks : List Bytes) → All IsHash (map crates.blake3 blocks)
hashes-IsHash crates hashed [] = tt
hashes-IsHash crates hashed (b ∷ bs) = (hashed b, hashes-IsHash crates hashed bs)

module _ {V J D : Type 0} (crates : Crates V J) where
  -- The manifest of blocks that were stored from a site, read back.
  pub manifest_read :
      (before after : Site J D) (system : ℕ) (bucket key etag : Bytes) (hashes : List Bytes)
      (total : ℤ) (blocks : List Bytes)
      → ((b : Bytes) → length (crates.blake3 b) ≡ 32)
      → Kept before after
      → hashes ≡ map crates.blake3 blocks
      → total ≡ pos (length (concat blocks))
      → get_object
          (insert_object crates after.store system bucket
            (compute_shard_id crates.blake3 key)
            key
            hashes
            total
            etag)
          bucket
          key
        ≡ after_write
            (now_micros before.store system)
            (some (map crates.blake3 blocks, pos (length (concat blocks)), etag))
            (lookup (bucket, key) before.store.objects)
  unfolding now_micros
  manifest_read before after system bucket key etag hashes total blocks hashed kept h t =
      let read =
        get_object-insert_object crates after.store system bucket
          (compute_shard_id crates.blake3 key) key hashes total etag bucket key
          (subst (λ l. All IsHash l) (sym h) (hashes-IsHash crates hashed blocks)) in
      (rw (eq_refl bucket, eq_refl key) at read) ∙ rw (h, t, kept.objects, kept.clock)

module _ {V J D : Type 0} (crates : Crates V J) (blob : BlobStore D)
    (chunker : ChunkingStrategy) where
  -- Where a chunker keeps the bytes and hashes have 32 bytes, a body that is written is a list of blocks that put together are the body, and its key reads as their hashes, the size of the body and its digest, unless a row with the same or a later timestamp was there.
  pub write_object-done :
      (md5 : Bytes → Bytes) (site : Site J D) (system : ℕ) (bucket key : Bytes)
      (pieces : List (Option Bytes)) (etag : Bytes)
      → Conserves chunker
      → ((b : Bytes) → length (crates.blake3 b) ≡ 32)
      → (write_object crates blob chunker md5 site system bucket key pieces).0 ≡ done etag
      → (blocks : List Bytes) × (concat blocks ≡ concat (given pieces))
        × (get_object
              (write_object crates blob chunker md5 site system bucket key pieces).1.store
              bucket
              key
            ≡ after_write
                (now_micros site.store system)
                (some (
                  map crates.blake3 blocks,
                  pos (length (concat blocks)),
                  crates.hex_encode (md5 (concat (given pieces))),
                ))
                (lookup (bucket, key) site.store.objects))
  unfolding write_object
  write_object-done md5 site system bucket key pieces etag law hashed h =
      let start : Stored = record { hashes = []; total = pos 0 } in
      let body = store_body crates blob chunker system pieces [] start site in
      let kept = store_body-Kept crates blob chunker system pieces [] start site in
      elim (result-cases body.0) [
        | inl (e, f) ↦ absurd (let q : failed e ≡ done etag = rw (f, write_object) at h in cc (q))
        | inr (stored, f) ↦
            let (blocks, adds, whole) =
              store_body-Adds crates blob chunker system pieces [] start stored site law f in
            (
              blocks,
              whole,
              rw (f, write_object)
                  (manifest_read crates site body.1 system bucket key
                    (crates.hex_encode (md5 (concat (given pieces)))) stored.hashes stored.total
                    blocks hashed kept adds.hashes (adds.total 0 refl ∙ ap pos (omega arith))),
            )
      ]

  -- A put that fails, at whatever point, changes no manifest.
  pub put_object-failed :
      (md5 : Bytes → Bytes) (site : Site J D) (guard : DiskGuard) (system : ℕ)
      (credentials : Option Bytes) (bucket key : Bytes) (body : Option (List (Option Bytes)))
      (e : S3Error)
      → (put_object crates blob chunker md5 site guard system credentials bucket key body).0
        ≡ failed e
      → (put_object crates blob chunker md5 site guard system credentials bucket key
          body).1.store.objects
        ≡ site.store.objects
  unfolding put_object write_object
  put_object-failed md5 site guard system credentials bucket key body e h =
      elim (result-cases
        (authorize crates site.store credentials (text "s3:PutObject") (some bucket) (some key))) [
          | inl (d, f) ↦ rw (f, put_object) refl
          | inr (u, f) ↦ elim (result-cases (check_writable guard)) [
            | inl (d, g) ↦ rw (f, g, put_object) refl
            | inr (v, g) ↦ elim (Option-cases body) [
              | inl b ↦ rw (f, g, b, put_object) refl
              | inr (pieces, b) ↦
                  let start : Stored = record { hashes = []; total = pos 0 } in
                  let kept = store_body-Kept crates blob chunker system pieces [] start site in
                  elim (result-cases
                    (store_body crates blob chunker system pieces [] start site).0) [
                      | inl (d, w) ↦ rw (f, g, b, put_object) (rw (w, write_object) kept.objects)
                      | inr (stored, w) ↦ absurd (
                          let q : done _ ≡ failed e =
                            rw (w, write_object) at (rw (f, g, b, put_object) at h) in
                          cc (q))
                    ]
            ]
          ]
        ]
