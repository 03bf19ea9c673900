-- ===== src/Range/Slices.antt =====
-- The slices of a range put together are the bytes of the range.
use shardscape.Base.{
  ℕ, zero, suc, ◌+◌, ◌-◌, ◌≤◌, min, max, ℤ, pos, ◌≡◌, refl, ap, sym, subst, true, false, ◌∙◌,
  Bool-cases, inl, inr, ◌||◌, leb, ltb, nat_beq, List, [], ◌∷◌, ◌++◌, append_assoc, Bytes, some,
  length, take, drop, get_or, map, concat, length-append, length-drop, arith,
}
use shardscape.Range.{Slice, span, slice_blocks, slice_blocks_for_range, slice_block_bytes}

-- The bytes of one slice of a list of blocks.
abbrev pub cut_of : List Bytes → Slice → Bytes
cut_of blocks (i, skip, n) = slice_block_bytes (get_or blocks i []) skip (some n)

abbrev pub sizes_of : List Bytes → List ℤ
sizes_of blocks = map (λ (b : Bytes). pos (length b)) blocks

module _ {A : Type 0} where
  take_nil : (n : ℕ) → take {A = A} n [] ≡ []
  take_nil zero = refl
  take_nil (suc n) = refl

  take-min : (m : ℕ) (xs : List A) → take (min m (length xs)) xs ≡ take m xs
  take-min zero xs = let none_left : min zero (length xs) ≡ zero = omega arith in rw none_left refl
  take-min (suc m) [] = take_nil (min (suc m) 0)
  take-min (suc m) (x ∷ xs) =
      let next : min (suc m) (suc (length xs)) ≡ suc (min m (length xs)) = omega arith in
      rw next (ap (◌∷◌ x) (take-min m xs))

  take_all : (m : ℕ) (xs : List A) → length xs ≤ m → take m xs ≡ xs
  take_all zero [] h = refl
  take_all zero (x ∷ xs) h = absurd (omega arith)
  take_all (suc m) [] h = refl
  take_all (suc m) (x ∷ xs) h = ap (◌∷◌ x) (take_all m xs (omega arith))

  drop_all : (m : ℕ) (xs : List A) → length xs ≤ m → drop m xs ≡ []
  drop_all zero [] h = refl
  drop_all zero (x ∷ xs) h = absurd (omega arith)
  drop_all (suc m) [] h = refl
  drop_all (suc m) (x ∷ xs) h = drop_all m xs (omega arith)

  -- A window over two lists is a window of each.
  window-append :
      (k m : ℕ) (xs ys : List A)
      → take m (drop k (xs ++ ys))
        ≡ take m (drop k xs) ++ take (m - (length xs - k)) (drop (k - length xs) ys)
  window-append k m [] ys =
      let k_nil = drop_all k [] (omega arith) in
      let whole : m - (0 - k) ≡ m = omega arith in
      let front : k - 0 ≡ k = omega arith in rw (k_nil, take_nil m, whole, front) refl
  window-append zero zero (x ∷ xs) ys =
      let spent : 0 - (suc (length xs) - 0) ≡ 0 = omega arith in rw spent refl
  window-append zero (suc m) (x ∷ xs) ys =
      let next : suc m - (suc (length xs) - 0) ≡ m - (length xs - 0) = omega arith in
      let front : 0 - suc (length xs) ≡ 0 - length xs = omega arith in
      rw (next, front) (ap (◌∷◌ x) (window-append zero m xs ys))
  window-append (suc k) m (x ∷ xs) ys =
      let next : suc (length xs) - suc k ≡ length xs - k = omega arith in
      let front : suc k - suc (length xs) ≡ k - length xs = omega arith in
      rw (next, front) (window-append k m xs ys)

get_or-append : {A : Type 0} (xs ys : List A) (y d : A) → get_or (xs ++ y ∷ ys) (length xs) d ≡ y
get_or-append [] ys y d = refl
get_or-append (x ∷ xs) ys y d = get_or-append xs ys y d

-- The part of one block that a range covers.
abbrev window : ℕ → ℕ → ℕ → Bytes → Bytes
window start end offset bytes = take (end + 1 - max start offset) (drop (start - offset) bytes)

window-skipped :
    (start end offset : ℕ) (b : Bytes)
    → (nat_beq (length b) 0 || leb (offset + length b) start || ltb end offset) ≡ true
    → window start end offset b ≡ []
window-skipped start end offset b h = elim (Bool-cases (ltb end offset)) [
  | inl past ↦ let nothing : end + 1 - max start offset ≡ 0 = ground arith in rw nothing refl
  | inr before ↦
      let short : length b ≤ start - offset = ground arith in
      rw (drop_all (start - offset) b short) (take_nil (end + 1 - max start offset))
]

window-cut :
    (start end offset : ℕ) (b : Bytes)
    → (nat_beq (length b) 0 || leb (offset + length b) start || ltb end offset) ≡ false
    → start ≤ end
    → (let s = max start offset - offset in
        slice_block_bytes b s (some (span s (min end (offset + length b - 1) - offset))))
      ≡ window start end offset b
unfolding slice_block_bytes
window-cut start end offset b h le =
    let skip : min (max start offset - offset) (length b) ≡ start - offset = ground arith in
    let rest = drop (start - offset) b in
    let len = length-drop (start - offset) b in
    let forward : ltb (min end (offset + length b - 1) - offset) (max start offset - offset)
        ≡ false =
      ground arith in
    let n : min (min end (offset + length b - 1) - offset - (max start offset - offset) + 1)
          (length rest)
        ≡ min (end + 1 - max start offset) (length rest) =
      ground arith in
    rw forward (rw (skip, n) (take-min (end + 1 - max start offset) rest))

window-split :
    (start end offset : ℕ) (b rest : Bytes)
    → window start end offset (b ++ rest)
      ≡ window start end offset b ++ window start end (offset + length b) rest
window-split start end offset b rest =
    let m : end + 1 - max start offset - (length b - (start - offset))
        ≡ end + 1 - max start (offset + length b) =
      ground arith in
    let k : start - offset - length b ≡ start - (offset + length b) = omega arith in
    rw (sym m, sym k) (window-append (start - offset) (end + 1 - max start offset) b rest)

ap2 : {a c b d : Bytes} → a ≡ c → b ≡ d → a ++ b ≡ c ++ d
ap2 {c} {b} p q = ap (λ x. x ++ b) p ∙ ap (λ x. c ++ x) q

slices_lem :
    (blocks front back : List Bytes) (start end offset : ℕ)
    → start ≤ end
    → blocks ≡ front ++ back
    → concat (map (cut_of blocks) (slice_blocks start end (length front) offset (sizes_of back)))
      ≡ window start end offset (concat back)
unfolding slice_blocks
slices_lem blocks front [] start end offset le whole =
    rw (drop_all {A = ℕ} (start - offset) [] (omega arith))
      (sym (take_nil (end + 1 - max start offset)))
slices_lem blocks front (b ∷ back) start end offset le whole =
    let n = offset + length b in
    let slices_from =
      λ (i : ℕ). concat (map (cut_of blocks) (slice_blocks start end i n (sizes_of back))) in
    let next : length (front ++ b ∷ []) ≡ suc (length front) =
      omega (arith, length-append front (b ∷ [])) in
    let moved : blocks ≡ (front ++ b ∷ []) ++ back = whole ∙ rw append_assoc in
    let rest : slices_from (suc (length front)) ≡ window start end n (concat back) =
      subst (λ i. slices_from i ≡ window start end n (concat back)) next
        (slices_lem blocks (front ++ b ∷ []) back start end n le moved) in
    let split = window-split start end offset b (concat back) in
    elim (Bool-cases (nat_beq (length b) 0 || leb n start || ltb end offset)) [
      | inl skipped ↦ rw skipped (
          rest
          ∙ sym (
              split
              ∙ ap (λ w. w ++ window start end n (concat back))
                  (window-skipped start end offset b skipped)))
      | inr covered ↦
          let here : get_or blocks (length front) [] ≡ b =
            ap (λ x. get_or x (length front) []) whole ∙ get_or-append front back b [] in
          rw covered (
            ap
              (λ x.
                slice_block_bytes x (max start offset - offset)
                  (some (span (max start offset - offset) (min end (n - 1) - offset)))
                ++ slices_from (suc (length front)))
              here
            ∙ ap2 (window-cut start end offset b covered le) rest
            ∙ sym split)
    ]

-- The slices of a range that does not end before it starts, cut from the blocks and put together, are the bytes of the object in the range.
pub concat-slice_blocks_for_range :
    (blocks : List Bytes) (start end : ℕ)
    → start ≤ end
    → concat (map (cut_of blocks) (slice_blocks_for_range (sizes_of blocks) start end))
      ≡ take (end + 1 - start) (drop start (concat blocks))
unfolding slice_blocks_for_range
concat-slice_blocks_for_range blocks start end le =
    let whole : max start 0 ≡ start = omega arith in
    let front : start - 0 ≡ start = omega arith in
    slices_lem blocks [] blocks start end 0 le refl ∙ rw (whole, front) refl
