-- ===== src/S3/Multipart/Parts.antt =====
-- What an uploaded part is: its blocks, its size and its digest, under its number.
use shardscape.Base.{
  ℕ, ℤ, pos, ◌≡◌, refl, ap, ◌∙◌, inl, inr, List, [], Bytes, text, Option, none, some, Option-cases,
  map, concat, length, if◌then◌else◌, ◌==◌, list_eq, nat_eq, pair_eq, int_eq, arith,
}
use shardscape.Chunking.{ChunkingStrategy}
use shardscape.Disk.{DiskGuard}
use shardscape.Distributed.{BlobStore, Site}
use shardscape.S3.{
  done, failed, Stored, given, store_body, authorize, check_writable, invalid_request,
}
use shardscape.S3.Body.{Conserves, result-cases, store_body-Kept, store_body-Adds}
use shardscape.S3.Multipart.{write_part, upload_part, upload_of}
use shardscape.Store.{Store, Crates, PartRow}
use shardscape.Store.Multipart.{insert_part}
use shardscape.Store.Objects.{encode_blocks}
use shardscape.Table.{lookup, lookup-upsert, upserted}

upserted_same : {A : Type 0} (v : A) (o : Option A) → upserted v (λ old. v) o ≡ v
upserted_same v none = refl
upserted_same v (some w) = refl

module _ {J : Type 0} where
  -- A part that is inserted stands under its number, whatever stood there before, and no other part changes.
  lookup-insert_part :
      (s : Store J) (bucket id : Bytes) (n : ℤ) (blocks : List Bytes) (size : ℤ) (etag : Bytes)
      (k : (Bytes × Bytes) × ℤ)
      → lookup k (insert_part s bucket id n blocks size etag).parts ≡ (
          if ((bucket, id), n) == k
          then some (record { blocks = encode_blocks blocks; size = size; etag = etag })
          else lookup k s.parts)
  unfolding insert_part
  lookup-insert_part s bucket id n blocks size etag k =
      let part : PartRow = record { blocks = encode_blocks blocks; size = size; etag = etag } in
      lookup-upsert ((bucket, id), n) k part (λ row. part) s.parts
      ∙ ap (λ r. if ((bucket, id), n) == k then some r else lookup k s.parts)
          (upserted_same part (lookup ((bucket, id), n) s.parts))

module _ {V J D : Type 0} (crates : Crates V J) (blob : BlobStore D)
    (chunker : ChunkingStrategy) where
  -- The parts table after a part was written: nothing but the part with this number differs.
  abbrev pub PartIs : Site J D → Site J D → Bytes → Bytes → ℤ → PartRow → Type 0
  PartIs before after bucket id n row =
      (k : (Bytes × Bytes) × ℤ)
      → lookup k after.store.parts
        ≡ (if ((bucket, id), n) == k then some row else lookup k before.store.parts)

  write_part-done :
      (md5 : Bytes → Bytes) (site : Site J D) (system : ℕ) (bucket id : Bytes) (n : ℤ)
      (pieces : List (Option Bytes)) (etag : Bytes)
      → Conserves chunker
      → (write_part crates blob chunker md5 site system bucket id n pieces).0 ≡ done etag
      → (blocks : List Bytes) × (concat blocks ≡ concat (given pieces))
        × PartIs site
            (write_part crates blob chunker md5 site system bucket id n pieces).1
            bucket
            id
            n
            (record {
              blocks = encode_blocks (map crates.blake3 blocks);
              size = pos (length (concat (given pieces)));
              etag = crates.hex_encode (md5 (concat (given pieces)));
            })
  unfolding write_part
  write_part-done md5 site system bucket id n pieces etag law h =
      let start : Stored = record { hashes = []; total = pos 0 } in
      let body = store_body crates blob chunker system pieces [] start site in
      let kept = store_body-Kept crates blob chunker system pieces [] start site in
      let digest = crates.hex_encode (md5 (concat (given pieces))) in
      elim (result-cases body.0) [
        | inl (e, f) ↦ absurd (let q : failed e ≡ done etag = rw (f, write_part) at h in cc (q))
        | inr (stored, f) ↦
            let (blocks, adds, whole) =
              store_body-Adds crates blob chunker system pieces [] start stored site law f in
            let size : stored.total ≡ pos (length (concat (given pieces))) =
              adds.total 0 refl ∙ ap pos (omega (arith, ap length whole)) in
            (
              blocks,
              whole,
              rw (f, write_part)
                  (λ k.
                    lookup-insert_part body.1.store bucket id n stored.hashes stored.total digest k
                    ∙ rw (adds.hashes, size, kept.parts) refl),
            )
      ]

  -- A part that is uploaded has, under its number, blocks that put together are its body, the size of the body and its digest, whatever the number held before; no other part of any upload changes. Only an upload that exists takes a part.
  pub upload_part-done :
      (md5 : Bytes → Bytes) (parse_uuid : Bytes → Option Bytes) (site : Site J D)
      (guard : DiskGuard) (system : ℕ) (credentials : Option Bytes) (bucket key upload_id : Bytes)
      (n : ℤ) (body : Option (List (Option Bytes))) (etag : Bytes)
      → Conserves chunker
      → (upload_part crates blob chunker md5 parse_uuid site guard system credentials bucket key
          upload_id n body).0
        ≡ done etag
      → (id : Bytes) × (stored_key : Bytes) × (pieces : List (Option Bytes)) × (blocks : List Bytes)
        × (upload_of parse_uuid site.store bucket upload_id ≡ done (id, stored_key))
        × (body ≡ some pieces)
        × (concat blocks ≡ concat (given pieces))
        × PartIs site
            (upload_part crates blob chunker md5 parse_uuid site guard system credentials bucket key
              upload_id n body).1
            bucket
            id
            n
            (record {
              blocks = encode_blocks (map crates.blake3 blocks);
              size = pos (length (concat (given pieces)));
              etag = crates.hex_encode (md5 (concat (given pieces)));
            })
  unfolding upload_part
  upload_part-done md5 parse_uuid site guard system credentials bucket key upload_id n body etag law
        h =
      elim (result-cases
        (authorize crates site.store credentials (text "s3:PutObject") (some bucket) (some key))) [
          | inl (e, f) ↦ absurd (let q : failed e ≡ done etag = rw (f, upload_part) at h in cc (q))
          | inr (u, f) ↦ elim (result-cases (check_writable guard)) [
            | inl (e, g) ↦
                absurd (let q : failed e ≡ done etag = rw (f, g, upload_part) at h in cc (q))
            | inr (v, g) ↦ elim (result-cases (upload_of parse_uuid site.store bucket upload_id)) [
              | inl (e, w) ↦
                  absurd (let q : failed e ≡ done etag = rw (f, g, w, upload_part) at h in cc (q))
              | inr ((id, stored_key), w) ↦ elim (Option-cases body) [
                | inl b ↦ absurd (
                    let q : failed invalid_request ≡ done etag =
                      rw (f, g, w, b, upload_part) at h in
                    cc (q))
                | inr (pieces, b) ↦
                    let (blocks, whole, part) =
                      write_part-done md5 site system bucket id n pieces etag law
                        (rw (f, g, w, b, upload_part) at h) in
                    (id, stored_key, pieces, blocks, w, b, whole, rw (f, g, w, b, upload_part) part)
              ]
            ]
          ]
        ]
