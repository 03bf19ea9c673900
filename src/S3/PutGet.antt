-- ===== src/S3/PutGet.antt =====
-- That a download gives what an upload was given.
use shardscape.Base.{
  ℕ, ℤ, pos, ◌≡◌, refl, ap, subst, ◌∙◌, inl, inr, true, List, [], ◌∷◌, ◌++◌, All, Bytes, text,
  Option, none, some, map, concat, length, min, arith, list_eq, nat_eq, pair_eq,
}
use shardscape.Chunking.{ChunkingStrategy}
use shardscape.Disk.{DiskGuard}
use shardscape.Distributed.{BlobStore, Site, get_block}
use shardscape.Distributed.Drain.{Here}
use shardscape.Distributed.Integrity.{BlobLaws, Sound}
use shardscape.Hashing.{compute_shard_id}
use shardscape.Range.{slice_block_bytes}
use shardscape.S3.{
  S3Result, done, failed, Stored, store_body, given, authorize, check_writable, write_object,
  put_object,
}
use shardscape.S3.Body.{Conserves, result-cases, store_body-Kept, store_body-Adds}
use shardscape.S3.Get.{whole_piece, get_piece, plan_of, Reply, get_object_handler}
use shardscape.S3.Get.Serve.{Reads, serve-Reads}
use shardscape.S3.Put.{manifest_read}
use shardscape.S3.Stocked.{store_body-Stocked}
use shardscape.Store.{Store, Crates, now_micros}
use shardscape.Store.Blocks.{get_local_block_fid}
use shardscape.Store.Objects.{get_object, insert_object, put_object_row, append_fact_tx}
use shardscape.Store.Registers.{wins}
use shardscape.Store.Users.{get_user}
use shardscape.Table.{lookup}

module _ {V J : Type 0} (crates : Crates V J) where
  authorize-users :
      (s t : Store J) (credentials : Option Bytes) (action : Bytes) (bucket key : Option Bytes)
      → t.users ≡ s.users
      → authorize crates t credentials action bucket key
        ≡ authorize crates s credentials action bucket key
  unfolding authorize get_user
  authorize-users s t none action bucket key e = refl
  authorize-users s t (some access_key) action bucket key e = rw e refl

-- The answer to a request for a whole object.
abbrev pub whole_reply : List Bytes → ℤ → Bytes → S3Result Reply
whole_reply frames size etag =
    done (record {
      frames = map some frames;
      content_length = size;
      content_range = none;
      e_tag = etag;
    })

module _ {V J D : Type 0} (crates : Crates V J) (blob : BlobStore D)
    (fetch : Bytes → Bytes → Option Bytes) where
  -- The blocks of a list of hashes that are here are read, each with its hash.
  Sound-Reads :
      (system : ℕ) (site : Site J D) (hashes : List Bytes)
      → Sound crates blob site
      → All (Here site) hashes
      → (frames : List Bytes) × Reads crates blob fetch system site (map whole_piece hashes) frames
        × (map crates.blake3 frames ≡ hashes)
  unfolding Sound get_piece get_block slice_block_bytes
  Sound-Reads system site [] sound h = ([], tt, refl)
  Sound-Reads system site (x ∷ xs) sound ((fid, e), hs) =
      let (bytes, there, hash) = sound x fid e in
      let (frames, reads, same) = Sound-Reads system site xs sound hs in
      let got : get_block crates blob fetch site system x ≡ (some bytes, site) =
        rw (e, get_block) (rw there refl) in
      let front : min 0 (length bytes) ≡ 0 = omega arith in
      (
        bytes ∷ frames,
        (rw got (rw front refl), reads),
        ap (λ y. y ∷ map crates.blake3 frames) hash ∙ ap (◌∷◌ x) same,
      )

  served_whole :
      (system : ℕ) (site : Site J D) (reader : Option Bytes) (bucket key : Bytes)
      (hashes : List Bytes) (size : ℤ) (etag : Bytes)
      → Sound crates blob site
      → All (Here site) hashes
      → authorize crates site.store reader (text "s3:GetObject") (some bucket) (some key) ≡ done tt
      → get_object site.store bucket key ≡ some (hashes, size, etag)
      → (frames : List Bytes) × (map crates.blake3 frames ≡ hashes)
        × ((get_object_handler crates blob fetch site system reader bucket key none).0
            ≡ whole_reply frames size (b'"' ∷ etag ++ (b'"' ∷ [])))
  unfolding get_object_handler plan_of
  served_whole system site reader bucket key hashes size etag sound here allowed manifest =
      let (frames, reads, same) = Sound-Reads system site hashes sound here in
      let served = serve-Reads crates blob fetch system site _ frames reads in
      (frames, same, rw (allowed, manifest, get_object_handler) (rw served refl))

module _ {V J D : Type 0} (crates : Crates V J) (blob : BlobStore D)
    (chunker : ChunkingStrategy) where
  -- What a reader gets of a body that was stored under a key.
  pub record Served (fetch : Bytes → Bytes → Option Bytes) (later : ℕ) (reader : Option Bytes)
      (bucket key : Bytes) (body etag : Bytes) (after : Site J D) : Type 0 where
    pub blocks : List Bytes
    pub frames : List Bytes
    pub whole : concat blocks ≡ body
    pub hashed : map crates.blake3 frames ≡ map crates.blake3 blocks
    pub reply :
        (get_object_handler crates blob fetch after later reader bucket key none).0
        ≡ whole_reply frames (pos (length body)) etag

  write_object-Served :
      (md5 : Bytes → Bytes) (fetch : Bytes → Bytes → Option Bytes) (site : Site J D)
      (system later : ℕ) (reader : Option Bytes) (bucket key : Bytes) (pieces : List (Option Bytes))
      (etag : Bytes)
      → Conserves chunker
      → ((b : Bytes) → length (crates.blake3 b) ≡ 32)
      → BlobLaws blob
      → Sound crates blob site
      → (write_object crates blob chunker md5 site system bucket key pieces).0 ≡ done etag
      → authorize crates site.store reader (text "s3:GetObject") (some bucket) (some key) ≡ done tt
      → wins (now_micros site.store system) (lookup (bucket, key) site.store.objects) ≡ true
      → Served fetch later reader bucket key
          (concat (given pieces))
          etag
          (write_object crates blob chunker md5 site system bucket key pieces).1
  unfolding write_object insert_object put_object_row append_fact_tx get_local_block_fid Sound
  write_object-Served md5 fetch site system later reader bucket key pieces etag law hash laws sound
        h allowed newer =
      let start : Stored = record { hashes = []; total = pos 0 } in
      let body = store_body crates blob chunker system pieces [] start site in
      let kept = store_body-Kept crates blob chunker system pieces [] start site in
      let digest = crates.hex_encode (md5 (concat (given pieces))) in
      elim (result-cases body.0) [
        | inl (e, f) ↦ absurd (let q : failed e ≡ done etag = rw (f, write_object) at h in cc (q))
        | inr (stored, f) ↦
            let (blocks, adds, whole) =
              store_body-Adds crates blob chunker system pieces [] start stored site law f in
            let stocked =
              store_body-Stocked crates blob chunker system pieces [] start stored site laws
                (record { sound = sound; here = tt }) f in
            let total = adds.total 0 refl ∙ ap pos (omega arith) in
            let after : Site J D = record (body.1) {
              store =
                  insert_object crates body.1.store system bucket
                    (compute_shard_id crates.blake3 key) key stored.hashes stored.total digest;
            } in
            let read =
              manifest_read crates site body.1 system bucket key digest stored.hashes stored.total
                blocks hash kept adds.hashes total in
            let manifest : get_object after.store bucket key
                ≡ some (map crates.blake3 blocks, pos (length (concat blocks)), digest) =
              read ∙ rw newer refl in
            let answer : done (b'"' ∷ digest ++ (b'"' ∷ [])) ≡ done etag =
              rw (f, write_object) at h in
            let (frames, same, reply) =
              served_whole crates blob fetch later after reader bucket key
                (map crates.blake3 blocks) (pos (length (concat blocks))) digest stocked.sound
                (subst (λ l. All (Here body.1) l) adds.hashes stocked.here)
                (authorize-users crates site.store after.store reader (text "s3:GetObject")
                    (some bucket) (some key) kept.users
                  ∙ allowed)
                manifest in
            let tag : b'"' ∷ digest ++ (b'"' ∷ []) ≡ etag = cc (answer) in
            rw (f, write_object)
              (record {
                blocks = blocks;
                frames = frames;
                whole = whole;
                hashed = same;
                reply =
                    reply
                    ∙ ap (λ n. whole_reply frames n (b'"' ∷ digest ++ (b'"' ∷ [])))
                        (ap (λ x. pos (length x)) whole)
                    ∙ ap (λ x. whole_reply frames (pos (length (concat (given pieces)))) x) tag;
              })
      ]

  -- What a successful put was given, a get of the same key answers with: where hashes have 32 bytes, the chunker keeps the bytes, the backend keeps the blocks, what the site has recorded is readable, the reader is allowed to get the object, and no row of the key is as new as the put. The answer has the etag of the put and the length of the body; its frames have, one by one, the hashes of blocks that put together are the body.
  pub put_object-get_object_handler :
      (md5 : Bytes → Bytes) (fetch : Bytes → Bytes → Option Bytes) (site : Site J D)
      (guard : DiskGuard) (system later : ℕ) (credentials reader : Option Bytes)
      (bucket key : Bytes) (pieces : List (Option Bytes)) (etag : Bytes)
      → Conserves chunker
      → ((b : Bytes) → length (crates.blake3 b) ≡ 32)
      → BlobLaws blob
      → Sound crates blob site
      → (put_object crates blob chunker md5 site guard system credentials bucket key
          (some pieces)).0
        ≡ done etag
      → authorize crates site.store reader (text "s3:GetObject") (some bucket) (some key) ≡ done tt
      → wins (now_micros site.store system) (lookup (bucket, key) site.store.objects) ≡ true
      → Served fetch later reader bucket key
          (concat (given pieces))
          etag
          (put_object crates blob chunker md5 site guard system credentials bucket key
            (some pieces)).1
  unfolding put_object
  put_object-get_object_handler md5 fetch site guard system later credentials reader bucket key
        pieces etag law hash laws sound h allowed newer =
      elim (result-cases
        (authorize crates site.store credentials (text "s3:PutObject") (some bucket) (some key))) [
          | inl (e, f) ↦ absurd (let q : failed e ≡ done etag = rw (f, put_object) at h in cc (q))
          | inr (u, f) ↦ elim (result-cases (check_writable guard)) [
            | inl (e, g) ↦
                absurd (let q : failed e ≡ done etag = rw (f, g, put_object) at h in cc (q))
            | inr (v, g) ↦
                rw (f, g, put_object)
                  (write_object-Served md5 fetch site system later reader bucket key pieces etag law
                    hash laws sound (rw (f, g, put_object) at h) allowed newer)
          ]
        ]
