-- ===== src/S3/Stocked.antt =====
-- That a body that was stored is here: each block whose hash was collected is held, and readable.
use shardscape.Base.{
  ℕ, ℤ, pos, ◌+ℤ◌, ◌≡◌, refl, subst, ◌∙◌, inl, inr, List, [], ◌∷◌, ◌++◌, All, All-append, Bytes,
  Option, none, some, Option-cases, length, Bool-cases, ◌==◌, list_eq, nat_eq, pair_eq,
}
use shardscape.Chunking.{ChunkingStrategy}
use shardscape.Distributed.{BlobStore, Site, store_block}
use shardscape.Distributed.Drain.{Here}
use shardscape.Distributed.Integrity.{BlobLaws, Sound, store_block-Sound, store_block-local}
use shardscape.S3.{done, failed, Stored, store_blocks, store_body, last_piece}
use shardscape.S3.Body.{result-cases, process-cases}
use shardscape.Store.{Crates}
use shardscape.Store.Blocks.{get_local_block_fid}
use shardscape.Store.Locations.{fid-store_local_block}

module _ {V J D : Type 0} (crates : Crates V J) (blob : BlobStore D) where
  -- The blocks collected so far are here, and every block that is here is readable.
  pub record Stocked (site : Site J D) (stored : Stored) : Type 0 where
    pub sound : Sound crates blob site
    pub here : All (Here site) stored.hashes

  store_block-Here :
      (site : Site J D) (system : ℕ) (bytes : Bytes) (size : ℤ) (h : Bytes)
      → Here site h
      → Here (store_block crates blob site system bytes size).1 h
  unfolding store_block
  store_block-Here site system bytes size h (old, e) =
      let hash = crates.blake3 bytes in
      elim (Option-cases (get_local_block_fid site.store hash)) [
        | inr (fid, known) ↦ rw (known, store_block) (old, e)
        | inl unknown ↦ elim (Option-cases (blob.put site.disk hash bytes).0) [
          | inl refused ↦ rw (unknown, refused, store_block) (old, e)
          | inr (fid, written) ↦
              let read = fid-store_local_block crates site.store system hash fid size h unknown in
              rw (unknown, written, store_block)
                (elim (Bool-cases (hash == h)) [
                  | inl same ↦ (fid, read ∙ rw same refl)
                  | inr different ↦ (old, read ∙ rw different e)
                ])
        ]
      ]

  All-Here :
      (site : Site J D) (system : ℕ) (bytes : Bytes) (size : ℤ) (hashes : List Bytes)
      → All (Here site) hashes
      → All (Here (store_block crates blob site system bytes size).1) hashes
  All-Here site system bytes size [] h = tt
  All-Here site system bytes size (x ∷ xs) (h, hs) =
      (store_block-Here site system bytes size x h, All-Here site system bytes size xs hs)

  store_blocks-Stocked :
      (system : ℕ) (blocks : List Bytes) (stored result : Stored) (site : Site J D)
      → BlobLaws blob
      → Stocked site stored
      → (store_blocks crates blob system blocks stored site).0 ≡ done result
      → Stocked (store_blocks crates blob system blocks stored site).1 result
  unfolding store_blocks
  store_blocks-Stocked system [] stored result site laws s h =
      let q : stored ≡ result = cc (h) in subst (Stocked site) q s
  store_blocks-Stocked system (b ∷ bs) stored result site laws s h =
      let size = pos (length b) in
      elim (Option-cases (store_block crates blob site system b size).0) [
        | inl e ↦ absurd (let q : failed _ ≡ done result = rw (e, store_blocks) at h in cc (q))
        | inr (hash, e) ↦
            let next : Stored = record {
              hashes = stored.hashes ++ (hash ∷ []);
              total = stored.total +ℤ size;
            } in
            let after = (store_block crates blob site system b size).1 in
            let local = store_block-local crates blob site system b size hash e in
            let stocked : Stocked after next = record {
              sound = store_block-Sound crates blob site system b size laws s.sound;
              here =
                  All-append (Here after) stored.hashes (hash ∷ [])
                    (All-Here site system b size stored.hashes s.here) (local.1, tt);
            } in
            rw (e, store_blocks)
              (store_blocks-Stocked system bs next result after laws stocked
                (rw (e, store_blocks) at h))
      ]

module _ {V J D : Type 0} (crates : Crates V J) (blob : BlobStore D)
    (chunker : ChunkingStrategy) where
  pub store_body-Stocked :
      (system : ℕ) (pieces : List (Option Bytes)) (buffer : Bytes) (stored result : Stored)
      (site : Site J D)
      → BlobLaws blob
      → Stocked crates blob site stored
      → (store_body crates blob chunker system pieces buffer stored site).0 ≡ done result
      → Stocked crates blob
          (store_body crates blob chunker system pieces buffer stored site).1
          result
  unfolding store_body
  store_body-Stocked system [] buffer stored result site laws s h =
      store_blocks-Stocked crates blob system (last_piece (chunker.finalize buffer).0) stored result
        site laws s h
  store_body-Stocked system (none ∷ pieces) buffer stored result site laws s h = absurd (cc (h))
  store_body-Stocked system (some piece ∷ pieces) buffer stored result site laws s h =
      elim (process-cases (chunker.process (buffer ++ piece))) [
        | inl (e, crashed) ↦
            absurd (let q : failed _ ≡ done result = rw (crashed, store_body) at h in cc (q))
        | inr (blocks, rest, cut) ↦
            let next = store_blocks crates blob system blocks stored site in
            elim (result-cases next.0) [
              | inl (e, f) ↦
                  absurd
                    (let q : failed e ≡ done result = rw f at (rw (cut, store_body) at h) in cc (q))
              | inr (more, f) ↦
                  rw (cut, store_body)
                    (rw f (
                      store_body-Stocked system pieces rest more result next.1 laws
                        (store_blocks-Stocked crates blob system blocks stored more site laws s f)
                        (rw f at (rw (cut, store_body) at h))))
            ]
      ]
