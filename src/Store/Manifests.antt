-- ===== src/Store/Manifests.antt =====
-- Manifests: encoding the block hashes of an object and decoding them again.
use shardscape.Base.{
  ℕ, zero, suc, ◌≤◌, ◌≡◌, refl, ap, sym, ◌∙◌, List, [], ◌∷◌, ◌++◌, Bytes, length, take, drop, All,
  subst, true, leb, arith, length-append, length-take, if◌then◌else◌, Bool-cases, pair_eq, list_eq,
  nat_eq, inl, inr, ℤ, Option, none, some, take-append_length, drop-append_length,
}
use shardscape.Store.{Store, ObjectRow}
use shardscape.Store.Objects.{encode_blocks, decode_blocks, chunks_exact, live_row, get_object}
use shardscape.Table.{lookup}

abbrev pub IsHash : Bytes → Type 0
IsHash h = length h ≡ 32

chunks_exact-encode_blocks :
    (fuel : ℕ) (blocks : List Bytes)
    → All IsHash blocks
    → length (encode_blocks blocks) ≤ fuel
    → chunks_exact fuel (encode_blocks blocks) ≡ blocks
unfolding chunks_exact encode_blocks
chunks_exact-encode_blocks zero [] h le = refl
chunks_exact-encode_blocks (suc fuel) [] h le = refl
chunks_exact-encode_blocks zero (b ∷ bs) (h, hs) le =
    absurd (omega (arith, length-append b (encode_blocks bs)))
chunks_exact-encode_blocks (suc fuel) (b ∷ bs) (h, hs) le =
    let len = length-append b (encode_blocks bs) in
    let first : take 32 (b ++ encode_blocks bs) ≡ b =
      ap (λ n. take n (b ++ encode_blocks bs)) (sym h)
      ∙ (take-append_length b (encode_blocks bs)) in
    let rest : drop 32 (b ++ encode_blocks bs) ≡ encode_blocks bs =
      ap (λ n. drop n (b ++ encode_blocks bs)) (sym h)
      ∙ (drop-append_length b (encode_blocks bs)) in
    let long : leb 32 (length (b ++ encode_blocks bs)) ≡ true = ground arith in
    let tail = chunks_exact-encode_blocks fuel bs hs (omega arith) in
    rw long (rw (first, rest) (ap (◌∷◌ b) tail))

-- A list of 32-byte hashes is decoded from its encoding.
pub decode_blocks-encode_blocks :
    (blocks : List Bytes) → All IsHash blocks → decode_blocks (encode_blocks blocks) ≡ blocks
unfolding decode_blocks
decode_blocks-encode_blocks blocks h =
    chunks_exact-encode_blocks (length (encode_blocks blocks)) blocks h (omega arith)

chunk_of_size :
    (n : ℕ) (b : Bytes) (rest : List Bytes)
    → All (λ (h : Bytes). length h ≡ n) rest
    → All (λ (h : Bytes). length h ≡ n) (if leb n (length b) then take n b ∷ rest else [])
chunk_of_size n b rest h = elim (Bool-cases (leb n (length b))) [
  | inl e ↦ rw e (ground (arith, length-take n b), h)
  | inr e ↦ rw e tt
]

chunks_exact-IsHash : (fuel : ℕ) (b : Bytes) → All IsHash (chunks_exact fuel b)
unfolding chunks_exact
chunks_exact-IsHash zero b = tt
chunks_exact-IsHash (suc fuel) b =
    chunk_of_size 32 b (chunks_exact fuel (drop 32 b)) (chunks_exact-IsHash fuel (drop 32 b))

pub decode_blocks-IsHash : (b : Bytes) → All IsHash (decode_blocks b)
unfolding decode_blocks
decode_blocks-IsHash b = chunks_exact-IsHash (length b) b

live_row-IsHash :
    (row : Option ObjectRow) (hashes : List Bytes) (size : ℤ) (etag : Bytes)
    → live_row row ≡ some (hashes, size, etag)
    → All IsHash hashes
unfolding live_row
live_row-IsHash none hashes size etag h = absurd (cc (h))
live_row-IsHash (some r) hashes size etag h = elim (Bool-cases r.deleted) [
  | inl e ↦ absurd (let q : none ≡ some (hashes, size, etag) = rw e at h in cc (q))
  | inr e ↦
      let q : some (decode_blocks r.blocks, r.size, r.etag) ≡ some (hashes, size, etag) =
        rw e at h in
      let same : decode_blocks r.blocks ≡ hashes = cc (q) in
      subst (λ l. All IsHash l) same (decode_blocks-IsHash r.blocks)
]

pub get_object-IsHash :
    {J : Type 0} (s : Store J) (bucket key : Bytes) (hashes : List Bytes) (size : ℤ) (etag : Bytes)
    → get_object s bucket key ≡ some (hashes, size, etag)
    → All IsHash hashes
unfolding get_object
get_object-IsHash s bucket key hashes size etag h =
    live_row-IsHash (lookup (bucket, key) s.objects) hashes size etag h
