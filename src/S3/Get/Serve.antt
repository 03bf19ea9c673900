-- ===== src/S3/Get/Serve.antt =====
-- What a download sends where the blocks of the object are here.
use shardscape.Base.{
  ℕ, zero, suc, ℤ, pos, ◌+◌, ◌-◌, ◌≤◌, ◌<◌, ◌^◌, ◌≡◌, refl, sym, ap, ◌∙◌, ◌⊎◌, inl, inr, to_u64,
  List, [], ◌∷◌, Bytes, text, Option, none, some, map, get_or, All, length-take, length-drop,
  concat, option_map, length, take, drop, arith, Option-cases, Bool-cases, ltb, leb, nat_beq, ◌||◌,
  min, max_zero,
}
use shardscape.Distributed.{BlobStore, Site, get_block}
use shardscape.Range.{
  Range, int, suffix, Slice, resolve_range, slice_blocks, slice_blocks_for_range, slice_block_bytes,
}
use shardscape.Range.Slices.{cut_of, sizes_of, concat-slice_blocks_for_range}
use shardscape.S3.{done, failed, invalid_range, authorize}
use shardscape.S3.Get.{
  Piece, whole_piece, piece_of, get_piece, stream, serve, plan_of, Reply, get_object_handler,
}
use shardscape.Store.{Crates}
use shardscape.Store.Blocks.{block_sizes, get_local_block_fid}
use shardscape.Store.Objects.{get_object}

-- The indices of the slices lie in the list of blocks.
slice_blocks_in_range :
    (start end i offset n : ℕ) (sizes : List ℤ)
    → i + length sizes ≤ n
    → All (λ (s : Slice). s.0 < n) (slice_blocks start end i offset sizes)
unfolding slice_blocks
slice_blocks_in_range start end i offset n [] le = tt
slice_blocks_in_range start end i offset n (size ∷ sizes) le =
    let rest =
      slice_blocks_in_range start end (suc i) (offset + max_zero size) n sizes (omega arith) in
    elim (Bool-cases
      (nat_beq (max_zero size) 0 || leb (offset + max_zero size) start || ltb end offset)) [
        | inl e ↦ rw e rest
        | inr e ↦ rw e (omega arith, rest)
      ]

length-sizes_of : (blocks : List Bytes) → length (sizes_of blocks) ≡ length blocks
length-sizes_of [] = refl
length-sizes_of (b ∷ bs) = ap suc (length-sizes_of bs)

slices_in_range :
    (start end : ℕ) (blocks : List Bytes)
    → All (λ (s : Slice). s.0 < length blocks) (slice_blocks_for_range (sizes_of blocks) start end)
unfolding slice_blocks_for_range
slices_in_range start end blocks =
    slice_blocks_in_range start end 0 0 (length blocks) (sizes_of blocks)
      (omega (arith, length-sizes_of blocks))

resolve_range-bounds :
    (range : Range) (size start end : ℕ)
    → resolve_range range size ≡ some (start, end)
    → (start ≤ end) × (end < size)
unfolding resolve_range
resolve_range-bounds (int first none) size start end h = ground (arith, h)
resolve_range-bounds (int first (some last)) size start end h = ground (arith, h)
resolve_range-bounds (suffix len) size start end h = ground (arith, h)

count :
    (start end : ℕ) (body : Bytes)
    → start ≤ end
    → end < length body
    → end - start + 1 ≡ length (take (end + 1 - start) (drop start body))
count start end body le lt =
    omega (arith, length-take (end + 1 - start) (drop start body), length-drop start body)

to_u64-small : (n : ℕ) → n < 2 ^ 64 → to_u64 (pos n) ≡ n
unfolding to_u64
to_u64-small n h = omega arith

-- The bytes of a body that a request asks for.
abbrev pub asked : Option Range → Bytes → Option Bytes
asked none body = some body
asked (some range) body =
    option_map (λ (b : ℕ × ℕ). take (b.1 + 1 - b.0) (drop b.0 body))
      (resolve_range range (length body))

module _ {V J D : Type 0} (crates : Crates V J) (blob : BlobStore D)
    (fetch : Bytes → Bytes → Option Bytes) where
  -- A block that this site holds.
  abbrev pub Held : Site J D → Bytes → Type 0
  Held site b =
      (fid : Bytes) × (get_local_block_fid site.store (crates.blake3 b) ≡ some fid)
      × (blob.get site.disk (crates.blake3 b) fid ≡ some b)

  abbrev pub Reads : ℕ → Site J D → List Piece → List Bytes → Type 0
  Reads system site [] [] = Unit
  Reads system site [] (b ∷ bs) = ⊥
  Reads system site (p ∷ ps) [] = ⊥
  Reads system site (p ∷ ps) (b ∷ bs) =
      (get_piece crates blob fetch system site p ≡ (some b, site)) × Reads system site ps bs

  stream-Reads :
      (system : ℕ) (site : Site J D) (ps : List Piece) (bs : List Bytes)
      → Reads system site ps bs
      → stream crates blob fetch system site ps ≡ (map some bs, site)
  unfolding stream
  stream-Reads system site [] [] h = refl
  stream-Reads system site [] (b ∷ bs) h = absurd h
  stream-Reads system site (p ∷ ps) [] h = absurd h
  stream-Reads system site (p ∷ ps) (b ∷ bs) (h, hs) =
      rw (ap (λ r. r.0) h, stream) (rw (ap (λ r. r.1) h, stream-Reads system site ps bs hs) refl)

  pub serve-Reads :
      (system : ℕ) (site : Site J D) (ps : List Piece) (bs : List Bytes)
      → Reads system site ps bs
      → serve crates blob fetch system site ps ≡ (done (map some bs), site)
  unfolding serve
  serve-Reads system site [] [] h = refl
  serve-Reads system site [] (b ∷ bs) h = absurd h
  serve-Reads system site (p ∷ ps) [] h = absurd h
  serve-Reads system site (p ∷ ps) (b ∷ bs) (h, hs) =
      rw (ap (λ r. r.0) h, serve) (rw (ap (λ r. r.1) h, stream-Reads system site ps bs hs) refl)

  get_piece-Held :
      (system skip : ℕ) (n : Option ℕ) (site : Site J D) (b : Bytes)
      → Held site b
      → get_piece crates blob fetch system site (crates.blake3 b, skip, n)
        ≡ (some (slice_block_bytes b skip n), site)
  unfolding get_piece get_block
  get_piece-Held system skip n site b (fid, here, there) =
      let got : get_block crates blob fetch site system (crates.blake3 b) ≡ (some b, site) =
        rw (here, get_block) (rw there refl) in
      rw got refl

  Reads-whole :
      (system : ℕ) (site : Site J D) (bs : List Bytes)
      → All (Held site) bs
      → Reads system site (map whole_piece (map crates.blake3 bs)) bs
  unfolding slice_block_bytes
  Reads-whole system site [] h = tt
  Reads-whole system site (b ∷ bs) (h, hs) = (
    get_piece-Held system 0 none site b h
        ∙ (let front : min 0 (length b) ≡ 0 = omega arith in rw front refl),
    Reads-whole system site bs hs,
  )

  get_or-Held :
      (site : Site J D) (bs : List Bytes) (i : ℕ)
      → All (Held site) bs
      → i < length bs
      → Held site (get_or bs i [])
        × (get_or (map crates.blake3 bs) i [] ≡ crates.blake3 (get_or bs i []))
  get_or-Held site [] i h lt = absurd (omega arith)
  get_or-Held site (b ∷ bs) zero (h, hs) lt = (h, refl)
  get_or-Held site (b ∷ bs) (suc i) (h, hs) lt = get_or-Held site bs i hs (omega arith)

  Reads-ranged :
      (system : ℕ) (site : Site J D) (bs : List Bytes) (slices : List Slice)
      → All (Held site) bs
      → All (λ (s : Slice). s.0 < length bs) slices
      → Reads system site (map (piece_of (map crates.blake3 bs)) slices) (map (cut_of bs) slices)
  Reads-ranged system site bs [] h k = tt
  Reads-ranged system site bs ((i, skip, n) ∷ slices) h (lt, k) =
      let (held, hash) = get_or-Held site bs i h lt in
      (
        rw hash (get_piece-Held system skip (some n) site (get_or bs i []) held),
        Reads-ranged system site bs slices h k,
      )

  -- The site holds every block of an object, with its size on record.
  pub record Whole (site : Site J D) (bucket key : Bytes) (blocks : List Bytes) (etag : Bytes)
      : Type 0 where
    pub manifest :
        get_object site.store bucket key
        ≡ some (map crates.blake3 blocks, pos (length (concat blocks)), etag)
    pub held : All (Held site) blocks
    pub sizes : block_sizes site.store (map crates.blake3 blocks) ≡ sizes_of blocks
    pub short : length (concat blocks) < 2 ^ 64

  -- An authorized request for an object whose blocks this site all holds, with their sizes on record, is answered without an error: with the bytes of the object that its range asks for, in frames of which none fails, and their number as the content length; or, where the range cannot be satisfied, with `InvalidRange`. The site is left as it was.
  pub get_object_handler-Whole :
      (site : Site J D) (system : ℕ) (credentials : Option Bytes) (bucket key : Bytes)
      (range : Option Range) (blocks : List Bytes) (etag : Bytes)
      → Whole site bucket key blocks etag
      → authorize crates site.store credentials (text "s3:GetObject") (some bucket) (some key)
        ≡ done tt
      → ((get_object_handler crates blob fetch site system credentials bucket key range).1 ≡ site)
        × (((asked range (concat blocks) ≡ none)
              × ((get_object_handler crates blob fetch site system credentials bucket key range).0
                  ≡ failed invalid_range))
            ⊎ ((frames : List Bytes) × (reply : Reply) × ((get_object_handler crates blob fetch site
                    system credentials bucket key range).0
                  ≡ done reply)
                × (reply.frames ≡ map some frames)
                × (asked range (concat blocks) ≡ some (concat frames))
                × (reply.content_length ≡ pos (length (concat frames)))))
  unfolding get_object_handler plan_of
  get_object_handler-Whole site system credentials bucket key none blocks etag w allowed =
      let served = serve-Reads system site _ blocks (Reads-whole system site blocks w.held) in
      rw (allowed, w.manifest, get_object_handler)
        (rw served (refl, inr (blocks, _, refl, refl, refl, refl)))
  get_object_handler-Whole site system credentials bucket key (some range) blocks etag w allowed =
      let body = concat blocks in
      let hashes = map crates.blake3 blocks in
      let size = to_u64-small (length body) w.short in
      elim (Option-cases (resolve_range range (length body))) [
        | inl e ↦
            let plan : plan_of site.store hashes (pos (length body)) (some range)
                ≡ failed invalid_range =
              rw (size, e) refl in
            rw (allowed, w.manifest, get_object_handler) (rw plan (refl, inl (rw e refl, refl)))
        | inr ((start, end), e) ↦
            let slices = slice_blocks_for_range (sizes_of blocks) start end in
            let plan : plan_of site.store hashes (pos (length body)) (some range)
                ≡ done (record {
                  pieces = map (piece_of hashes) slices;
                  content_length = pos (end - start + 1);
                  content_range = some (start, end);
                }) =
              rw (size, e, w.sizes) refl in
            let served =
              serve-Reads system site _ (map (cut_of blocks) slices) (
                Reads-ranged system site blocks slices w.held (slices_in_range start end blocks)) in
            let (le, lt) = resolve_range-bounds range (length body) start end e in
            let bytes = concat-slice_blocks_for_range blocks start end le in
            rw (allowed, w.manifest, get_object_handler)
              (rw plan (
                rw served (
                  refl,
                  inr (
                    map (cut_of blocks) slices,
                    _,
                    refl,
                    refl,
                    rw e (ap some (sym bytes)),
                    ap pos (count start end body le lt ∙ sym (ap length bytes)),
                  ),
                )))
      ]
