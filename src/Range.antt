-- ===== src/Range.antt =====
-- Range requests of src/storage.rs: the bytes asked for, and the parts of the blocks that hold them.
pub mod Resolve
pub mod Slices
mod Examples
use shardscape.Base.{
  ℕ, suc, ◌+◌, ◌-◌, ◌%◌, ◌^◌, min, max, leb, ltb, ℤ, max_zero, ◌||◌, List, [], ◌∷◌, Bytes, Option,
  none, some, length, take, drop, nat_beq, if◌then◌else◌,
}

-- The `Range` of an HTTP request.
pub data Range : Type 0 where
  int : (first : ℕ) (last : Option ℕ) → Range
  suffix : (len : ℕ) → Range

abbrev pub unwrap_or : Option ℕ → ℕ → ℕ
unwrap_or none d = d
unwrap_or (some n) d = n

-- The inclusive byte range, or nothing where it cannot be satisfied.
unfoldable pub resolve_range : Range → ℕ → Option (ℕ × ℕ)
resolve_range (int first last) size =
    let end = min (unwrap_or last (size - 1)) (size - 1) in
    if nat_beq size 0
    then none
    else if leb size first
    then none
    else if ltb end first
    then none
    else some (first, end)
resolve_range (suffix len) size =
    let n = min len size in
    if nat_beq size 0 then none else if nat_beq len 0 then none else some (size - n, size - 1)

-- A block to fetch: its index, the bytes skipped at its front, and how many are taken.
abbrev pub Slice : Type 0
Slice = ℕ × ℕ × ℕ

-- `e - s + 1` on `u64`, which wraps where a range ends before it starts.
abbrev pub span : ℕ → ℕ → ℕ
span s e = if ltb e s then (e + 2 ^ 64 - s + 1) % 2 ^ 64 else e - s + 1

-- The loop of `slice_blocks_for_range`, at block `i`, which starts at `offset`.
unfoldable pub slice_blocks : ℕ → ℕ → ℕ → ℕ → List ℤ → List Slice
slice_blocks start end i offset [] = []
slice_blocks start end i offset (size ∷ sizes) =
    let sz = max_zero size in
    let block_end = offset + sz in
    let rest = slice_blocks start end (suc i) block_end sizes in
    let s = max start offset - offset in
    let e = min end (block_end - 1) - offset in
    if nat_beq sz 0 || leb block_end start || ltb end offset then rest else (i, s, span s e) ∷ rest

unfoldable pub slice_blocks_for_range : List ℤ → ℕ → ℕ → List Slice
slice_blocks_for_range sizes start end = slice_blocks start end 0 0 sizes

unfoldable pub slice_block_bytes : Bytes → ℕ → Option ℕ → Bytes
slice_block_bytes bytes skip none = drop (min skip (length bytes)) bytes
slice_block_bytes bytes skip (some t) =
    let rest = drop (min skip (length bytes)) bytes in take (min t (length rest)) rest
