-- ===== src/Distributed/Integrity.antt =====
-- Content addressing: the bytes that a site keeps under a hash have that hash.
use shardscape.Base.{
  ℕ, ℤ, ◌≡◌, refl, sym, subst, ◌∙◌, false, Bytes, Option, none, some, ◌==◌, list_eq, nat_eq,
  pair_eq, eq_iff, Bool-cases, Option-cases, inl, inr,
}
use shardscape.Store.{Crates}
use shardscape.Store.Blocks.{get_local_block_fid, store_local_block}
use shardscape.Store.Locations.{fid-store_local_block}
use shardscape.Distributed.{BlobStore, Site, store_block, get_block}
use shardscape.Table.Lww.{put}

-- What a blob backend promises: what was put is read back, and a put changes no other block.
pub record BlobLaws {D : Type 0} (blob : BlobStore D) : Type 0 where
  pub put-get :
      (d : D) (h bytes fid : Bytes)
      → (blob.put d h bytes).0 ≡ some fid
      → blob.get (blob.put d h bytes).1 h fid ≡ some bytes
  pub put-other :
      (d : D) (h bytes k fid : Bytes)
      → (h == k) ≡ false
      → blob.get (blob.put d h bytes).1 k fid ≡ blob.get d k fid
  pub put-failed :
      (d : D) (h bytes fid : Bytes)
      → (blob.put d h bytes).0 ≡ none
      → blob.get (blob.put d h bytes).1 h fid ≡ blob.get d h fid

module _ {V J D : Type 0} (crates : Crates V J) (blob : BlobStore D) where
  -- The invariant: each block recorded here is on the disk, and its bytes have its hash.
  unfoldable pub Sound : Site J D → Type 0
  Sound site =
      (h fid : Bytes)
      → get_local_block_fid site.store h ≡ some fid
      → (bytes : Bytes) × (blob.get site.disk h fid ≡ some bytes) × (crates.blake3 bytes ≡ h)

  stored-Sound :
      (site : Site J D) (system : ℕ) (hash bytes fid : Bytes) (size : ℤ)
      → BlobLaws blob
      → Sound site
      → crates.blake3 bytes ≡ hash
      → get_local_block_fid site.store hash ≡ none
      → (blob.put site.disk hash bytes).0 ≡ some fid
      → Sound (record {
        store = store_local_block crates site.store system hash fid size;
        disk = (blob.put site.disk hash bytes).1;
      })
  unfolding Sound
  stored-Sound site system hash bytes fid size laws sound hashed unknown put h f here =
      let read = fid-store_local_block crates site.store system hash fid size h unknown in
      elim (Bool-cases (hash == h)) [
        | inl same ↦
            let q : hash ≡ h = (eq_iff hash h).0 same in
            let got : some fid ≡ some f = sym (read ∙ rw same refl) ∙ here in
            let e : fid ≡ f = cc (got) in
            (
              bytes,
              subst (λ k. blob.get (blob.put site.disk hash bytes).1 k f ≡ some bytes) q
                  (laws.put-get site.disk hash bytes f (put ∙ got)),
              hashed ∙ q,
            )
        | inr other ↦
            let old : get_local_block_fid site.store h ≡ some f =
              sym (read ∙ rw other refl) ∙ here in
            let (x, there, hash_of) = sound h f old in
            (x, laws.put-other site.disk hash bytes h f other ∙ there, hash_of)
      ]

  failed-Sound :
      (site : Site J D) (hash bytes : Bytes)
      → BlobLaws blob
      → Sound site
      → (blob.put site.disk hash bytes).0 ≡ none
      → Sound (record { store = site.store; disk = (blob.put site.disk hash bytes).1 })
  unfolding Sound
  failed-Sound site hash bytes laws sound put h f here =
      let (x, there, hash_of) = sound h f here in
      elim (Bool-cases (hash == h)) [
        | inl same ↦
            let q : hash ≡ h = (eq_iff hash h).0 same in
            (
              x,
              subst (λ k. blob.get (blob.put site.disk hash bytes).1 k f ≡ blob.get site.disk k f) q
                    (laws.put-failed site.disk hash bytes f put)
                  ∙ there,
              hash_of,
            )
        | inr other ↦ (x, laws.put-other site.disk hash bytes h f other ∙ there, hash_of)
      ]

  -- Over a backend that keeps what it was given, storing a block, whether it was here, is written or fails to be written, keeps every block that the site records readable and with the bytes of its hash.
  pub store_block-Sound :
      (site : Site J D) (system : ℕ) (bytes : Bytes) (size : ℤ)
      → BlobLaws blob
      → Sound site
      → Sound (store_block crates blob site system bytes size).1
  unfolding store_block
  store_block-Sound site system bytes size laws sound =
      let hash = crates.blake3 bytes in
      elim (Option-cases (get_local_block_fid site.store hash)) [
        | inr (fid, e) ↦ rw (e, store_block) sound
        | inl e ↦ elim (Option-cases (blob.put site.disk hash bytes).0) [
          | inl failed ↦
              rw (e, failed, store_block) (failed-Sound site hash bytes laws sound failed)
          | inr (fid, written) ↦
              rw (e, written, store_block)
                (stored-Sound site system hash bytes fid size laws sound refl e written)
        ]
      ]

  pub store_block-local :
      (site : Site J D) (system : ℕ) (bytes : Bytes) (size : ℤ) (hash : Bytes)
      → (store_block crates blob site system bytes size).0 ≡ some hash
      → (hash ≡ crates.blake3 bytes)
        × ((fid : Bytes) × (get_local_block_fid
                (store_block crates blob site system bytes size).1.store
                hash
              ≡ some fid))
  unfolding store_block
  store_block-local site system bytes size hash stored =
      let h = crates.blake3 bytes in
      elim (Option-cases (get_local_block_fid site.store h)) [
        | inr (fid, e) ↦
            let q : some h ≡ some hash = rw (e, store_block) at stored in
            let p : h ≡ hash = cc (q) in
            (
              sym p,
              (
                fid,
                rw (e, store_block) (subst (λ k. get_local_block_fid site.store k ≡ some fid) p e),
              ),
            )
        | inl e ↦ elim (Option-cases (blob.put site.disk h bytes).0) [
          | inl failed ↦
              absurd (let q : none ≡ some hash = rw (e, failed, store_block) at stored in cc (q))
          | inr (fid, written) ↦
              let q : some h ≡ some hash = rw (e, written, store_block) at stored in
              let p : h ≡ hash = cc (q) in
              (
                sym p,
                (
                  fid,
                  rw (e, written, store_block)
                      (fid-store_local_block crates site.store system h fid size hash e
                        ∙ rw ((eq_iff h hash).1 p) refl),
                ),
              )
        ]
      ]

  -- Over a backend that keeps what it was given, at a site whose recorded blocks are sound, a block that was stored reads back, without any peer, as bytes with the hash of those stored.
  pub get_block-store_block :
      (fetch : Bytes → Bytes → Option Bytes) (site : Site J D) (system later : ℕ) (bytes : Bytes)
      (size : ℤ) (hash : Bytes)
      → BlobLaws blob
      → Sound site
      → (store_block crates blob site system bytes size).0 ≡ some hash
      → (hash ≡ crates.blake3 bytes)
        × ((read : Bytes) × ((get_block crates blob fetch
                (store_block crates blob site system bytes size).1
                later
                hash).0
              ≡ some read)
            × (crates.blake3 read ≡ hash))
  unfolding get_block Sound
  get_block-store_block fetch site system later bytes size hash laws sound stored =
      let (hashed, (fid, here)) = store_block-local site system bytes size hash stored in
      let kept : Sound (store_block crates blob site system bytes size).1 =
        store_block-Sound site system bytes size laws sound in
      let (read, there, same) = kept hash fid here in
      (hashed, (read, rw (here, get_block) there, same))
