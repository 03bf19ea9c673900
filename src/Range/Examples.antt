-- ===== src/Range/Examples.antt =====
-- Ranges of a small object.
use shardscape.Base.{
  ◌+◌, ◌-◌, ◌≡◌, refl, List, [], ◌∷◌, Bytes, text, concat, map, take, drop, arith,
}
use shardscape.Range.{slice_blocks_for_range, slice_blocks}
use shardscape.Range.Slices.{cut_of, sizes_of, concat-slice_blocks_for_range}

abbrev three_blocks : List Bytes
three_blocks = text "abcd" ∷ text "efgh" ∷ text "ij" ∷ []

slice_blocks_for_range_test :
    slice_blocks_for_range (sizes_of three_blocks) 2 8 ≡ (0, 2, 2) ∷ (1, 0, 4) ∷ (2, 0, 1) ∷ []
unfolding slice_blocks_for_range slice_blocks
slice_blocks_for_range_test = refl

concat-slice_blocks_for_range_example :
    concat (map (cut_of three_blocks) (slice_blocks_for_range (sizes_of three_blocks) 2 8))
    ≡ take (8 + 1 - 2) (drop 2 (concat three_blocks))
concat-slice_blocks_for_range_example = concat-slice_blocks_for_range three_blocks 2 8 (omega arith)
