-- ===== src/S3/Body.antt =====
-- A body that is stored block by block: what it leaves alone, and the hashes and size it collects.
use shardscape.Base.{
  ℕ, ℤ, pos, ◌+◌, ◌+ℤ◌, ◌≡◌, refl, ap, sym, subst, ◌∙◌, ◌⊎◌, inl, inr, List, [], ◌∷◌, ◌++◌,
  append-nil, append_assoc, Bytes, Option, none, some, Option-cases, Result, ok, err, map, concat,
  concat-append, length, length-append, arith, list_eq, nat_eq, pair_eq,
}
use shardscape.Chunking.{ChunkingStrategy}
use shardscape.Distributed.{BlobStore, Site, store_block}
use shardscape.Distributed.Integrity.{store_block-local}
use shardscape.S3.{
  S3Error, S3Result, done, failed, Stored, store_blocks, store_body, last_piece, given,
}
use shardscape.Store.{Crates}
use shardscape.Store.Objects.{append_fact_tx}
use shardscape.Store.Blocks.{store_local_block, upsert_block_location, get_local_block_fid}

-- What a chunker promises: its blocks and the rest are the buffer.
pub record Conserves (chunker : ChunkingStrategy) : Type 0 where
  pub whole :
      (buffer rest : Bytes) (blocks : List Bytes)
      → chunker.process buffer ≡ ok (blocks, rest)
      → concat blocks ++ rest ≡ buffer
  pub last : (buffer : Bytes) → concat (last_piece (chunker.finalize buffer).0) ≡ buffer

map_both : {A B : Type 0} (f : A → B) (xs ys : List A) → map f (xs ++ ys) ≡ map f xs ++ map f ys
map_both f [] ys = refl
map_both f (x ∷ xs) ys = ap (◌∷◌ (f x)) (map_both f xs ys)

reassoc : (a r g b p : Bytes) → a ++ r ≡ b ++ p → a ++ (r ++ g) ≡ b ++ (p ++ g)
reassoc a r g b p h = sym (assoc a r g) ∙ ap (λ x. x ++ g) h ∙ assoc b p g
  where
    assoc : (x y z : Bytes) → (x ++ y) ++ z ≡ x ++ (y ++ z)
    assoc x y z = rw append_assoc

pub snoc : {A : Type 0} (xs ys : List A) (x : A) → (xs ++ (x ∷ [])) ++ ys ≡ xs ++ (x ∷ ys)
snoc xs ys x = rw append_assoc

pub result-cases :
    {A : Type 0} (r : S3Result A) → ((e : S3Error) × (r ≡ failed e)) ⊎ ((a : A) × (r ≡ done a))
result-cases (failed e) = inl (e, refl)
result-cases (done a) = inr (a, refl)

pub process-cases :
    (r : Result (List Bytes × Bytes))
    → ((e : _) × (r ≡ err e)) ⊎ ((blocks : List Bytes) × (rest : Bytes) × (r ≡ ok (blocks, rest)))
process-cases (err e) = inl (e, refl)
process-cases (ok (blocks, rest)) = inr (blocks, rest, refl)

module _ {J D : Type 0} where
  -- The parts of a site that storing blocks leaves alone.
  pub record Kept (before after : Site J D) : Type 0 where
    pub objects : after.store.objects ≡ before.store.objects
    pub clock : after.store.clock ≡ before.store.clock
    pub parts : after.store.parts ≡ before.store.parts
    pub uploads : after.store.multipart_uploads ≡ before.store.multipart_uploads
    pub users : after.store.users ≡ before.store.users

  Kept-trans : (a b c : Site J D) → Kept a b → Kept b c → Kept a c
  Kept-trans a b c h k = record {
    objects = k.objects ∙ h.objects;
    clock = k.clock ∙ h.clock;
    parts = k.parts ∙ h.parts;
    uploads = k.uploads ∙ h.uploads;
    users = k.users ∙ h.users;
  }

module _ {V J D : Type 0} (crates : Crates V J) (blob : BlobStore D) where
  store_block-Kept :
      (site : Site J D) (system : ℕ) (bytes : Bytes) (size : ℤ)
      → Kept site (store_block crates blob site system bytes size).1
  unfolding store_block store_local_block append_fact_tx upsert_block_location
  store_block-Kept site system bytes size =
      elim (Option-cases (get_local_block_fid site.store (crates.blake3 bytes))) [
        | inr (fid, e) ↦
            rw (e, store_block)
              (record { objects = refl; clock = refl; parts = refl; uploads = refl; users = refl })
        | inl e ↦ elim (Option-cases (blob.put site.disk (crates.blake3 bytes) bytes).0) [
          | inl f ↦
              rw (e, f, store_block)
                (record {
                  objects = refl;
                  clock = refl;
                  parts = refl;
                  uploads = refl;
                  users = refl;
                })
          | inr (fid, f) ↦
              rw (e, f, store_block)
                (record {
                  objects = refl;
                  clock = refl;
                  parts = refl;
                  uploads = refl;
                  users = refl;
                })
        ]
      ]

  store_blocks-Kept :
      (system : ℕ) (blocks : List Bytes) (stored : Stored) (site : Site J D)
      → Kept site (store_blocks crates blob system blocks stored site).1
  unfolding store_blocks
  store_blocks-Kept system [] stored site = record {
    objects = refl;
    clock = refl;
    parts = refl;
    uploads = refl;
    users = refl;
  }
  store_blocks-Kept system (b ∷ bs) stored site =
      let one = store_block-Kept site system b (pos (length b)) in
      let next = (store_block crates blob site system b (pos (length b))).1 in
      elim (Option-cases (store_block crates blob site system b (pos (length b))).0) [
        | inl e ↦ rw (e, store_blocks) one
        | inr (hash, e) ↦
            rw (e, store_blocks) (Kept-trans site next _ one (store_blocks-Kept system bs _ next))
      ]

  -- The hashes and the size of a series of blocks, added to what was stored before.
  pub record Adds (before after : Stored) (blocks : List Bytes) : Type 0 where
    pub hashes : after.hashes ≡ before.hashes ++ map crates.blake3 blocks
    pub total : (n : ℕ) → before.total ≡ pos n → after.total ≡ pos (n + length (concat blocks))

  Adds-append :
      (a b c : Stored) (xs ys : List Bytes) → Adds a b xs → Adds b c ys → Adds a c (xs ++ ys)
  Adds-append a b c xs ys h k = record {
    hashes =
        k.hashes
        ∙ ap (λ l. l ++ map crates.blake3 ys) h.hashes
        ∙ assoc a.hashes (map crates.blake3 xs) (map crates.blake3 ys)
        ∙ ap (λ l. a.hashes ++ l) (sym (map_both crates.blake3 xs ys));
    total = λ n t.
        k.total (n + length (concat xs)) (h.total n t)
        ∙ ap pos
            (omega (arith, ap length (concat-append xs ys), length-append (concat xs) (concat ys)));
  }
    where
      assoc : (x y z : List Bytes) → (x ++ y) ++ z ≡ x ++ (y ++ z)
      assoc x y z = rw append_assoc

  store_blocks-Adds :
      (system : ℕ) (blocks : List Bytes) (stored result : Stored) (site : Site J D)
      → (store_blocks crates blob system blocks stored site).0 ≡ done result
      → Adds stored result blocks
  unfolding store_blocks ◌+ℤ◌
  store_blocks-Adds system [] stored result site h =
      let q : stored ≡ result = cc (h) in
      subst (λ r. Adds stored r []) q
        (record { hashes = sym (append-nil _); total = λ n e. e ∙ ap pos (omega arith) })
  store_blocks-Adds system (b ∷ bs) stored result site h =
      elim (Option-cases (store_block crates blob site system b (pos (length b))).0) [
        | inl e ↦ absurd (let q : failed _ ≡ done result = rw (e, store_blocks) at h in cc (q))
        | inr (hash, e) ↦
            let hashed = (store_block-local crates blob site system b (pos (length b)) hash e).0 in
            let next : Stored = record {
              hashes = stored.hashes ++ (hash ∷ []);
              total = stored.total +ℤ pos (length b);
            } in
            let rest = store_blocks-Adds system bs next result _ (rw (e, store_blocks) at h) in
            record {
              hashes =
                  rest.hashes
                  ∙ snoc stored.hashes (map crates.blake3 bs) hash
                  ∙ ap (λ h. stored.hashes ++ (h ∷ map crates.blake3 bs)) hashed;
              total = λ n t.
                  rest.total (n + length b) (rw t (ground arith))
                  ∙ ap pos (omega (arith, length-append b (concat bs)));
            }
      ]

module _ {V J D : Type 0} (crates : Crates V J) (blob : BlobStore D)
    (chunker : ChunkingStrategy) where
  pub store_body-Kept :
      (system : ℕ) (pieces : List (Option Bytes)) (buffer : Bytes) (stored : Stored)
      (site : Site J D)
      → Kept site (store_body crates blob chunker system pieces buffer stored site).1
  unfolding store_body
  store_body-Kept system [] buffer stored site =
      store_blocks-Kept crates blob system (last_piece (chunker.finalize buffer).0) stored site
  store_body-Kept system (none ∷ pieces) buffer stored site = record {
    objects = refl;
    clock = refl;
    parts = refl;
    uploads = refl;
    users = refl;
  }
  store_body-Kept system (some piece ∷ pieces) buffer stored site =
      elim (process-cases (chunker.process (buffer ++ piece))) [
        | inl (e, crashed) ↦
            rw (crashed, store_body)
              (record { objects = refl; clock = refl; parts = refl; uploads = refl; users = refl })
        | inr (blocks, rest, cut) ↦
            let one = store_blocks-Kept crates blob system blocks stored site in
            let next = (store_blocks crates blob system blocks stored site).1 in
            elim (result-cases (store_blocks crates blob system blocks stored site).0) [
              | inl (e, f) ↦ rw (cut, store_body) (rw f one)
              | inr (more, f) ↦
                  rw (cut, store_body)
                    (rw f
                      (Kept-trans site next _ one (store_body-Kept system pieces rest more next)))
            ]
      ]

  pub store_body-Adds :
      (system : ℕ) (pieces : List (Option Bytes)) (buffer : Bytes) (stored result : Stored)
      (site : Site J D)
      → Conserves chunker
      → (store_body crates blob chunker system pieces buffer stored site).0 ≡ done result
      → (blocks : List Bytes) × Adds crates blob stored result blocks
        × (concat blocks ≡ buffer ++ concat (given pieces))
  unfolding store_body
  store_body-Adds system [] buffer stored result site law h = (
    last_piece (chunker.finalize buffer).0,
    store_blocks-Adds crates blob system (last_piece (chunker.finalize buffer).0) stored result site
        h,
    law.last buffer ∙ sym (append-nil buffer),
  )
  store_body-Adds system (none ∷ pieces) buffer stored result site law h = absurd (cc (h))
  store_body-Adds system (some piece ∷ pieces) buffer stored result site law h =
      elim (process-cases (chunker.process (buffer ++ piece))) [
        | inl (e, crashed) ↦
            absurd (let q : failed _ ≡ done result = rw (crashed, store_body) at h in cc (q))
        | inr (blocks, rest, cut) ↦
            let next = (store_blocks crates blob system blocks stored site).1 in
            elim (result-cases (store_blocks crates blob system blocks stored site).0) [
              | inl (e, f) ↦
                  absurd
                    (let q : failed e ≡ done result = rw f at (rw (cut, store_body) at h) in cc (q))
              | inr (more, f) ↦
                  let first = store_blocks-Adds crates blob system blocks stored more site f in
                  let (later, second, body) =
                    store_body-Adds system pieces rest more result next law
                      (rw f at (rw (cut, store_body) at h)) in
                  (
                    blocks ++ later,
                    Adds-append crates blob stored more result blocks later first second,
                    concat-append blocks later
                        ∙ ap (λ x. concat blocks ++ x) body
                        ∙ reassoc (concat blocks) rest (concat (given pieces)) buffer piece
                            (law.whole (buffer ++ piece) rest blocks cut),
                  )
            ]
      ]
