-- ===== src/Chunking/Examples.antt =====
-- Runs of the chunking strategies, and their theorems at concrete inputs.
use shardscape.Base.{◌≡◌, refl, Bytes, List, [], ◌∷◌, text, none, some, ok, arith, length, min}
use shardscape.Chunking.{Chunker, DynamicCdcStrategy, fixed_size_strategy}
use shardscape.Chunking.Fixed.{IsCut, process-IsCut}

process_five : (fixed_size_strategy 4).process (text "abcde") ≡ ok (text "abcd" ∷ [], text "e")
unfolding fixed_size_strategy
process_five = refl

process-IsCut_example :
    (blocks : List Bytes) × (rest : Bytes) × ((fixed_size_strategy 4).process (text "abcde")
      ≡ ok (blocks, rest))
    × IsCut 4 (text "abcde") blocks rest
process-IsCut_example = process-IsCut 4 (text "abcde") (omega arith)

-- A chunker that cuts at the maximal size.
abbrev greedy : Chunker
greedy s [] = none
greedy s (b ∷ buffer) = some (0, min s.max_size (length (b ∷ buffer)))

abbrev sizes : DynamicCdcStrategy
sizes = record { min_size = 2; avg_size = 3; max_size = 4 }
