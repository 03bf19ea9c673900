-- ===== src/Hashing/Examples.antt =====
-- Runs of src/hashing.rs, and its theorems at concrete inputs.
use shardscape.Base.{
  ◌≡◌, refl, inr, ◌&&◌, some, none, [], ◌∷◌, text, ok, err, panic, arith, starts_with, lex_leb,
}
use shardscape.Hashing.{prefix_key_range}
use shardscape.Hashing.Utf8.{is_utf8}
use shardscape.Hashing.Range.{below, prefix_key_range_iff}
use shardscape.Hashing.Panics.{prefix_key_range_panics}

range_folder : prefix_key_range (text "folder/") ≡ ok (text "folder/", some (text "folder0"))
unfolding prefix_key_range
range_folder = refl

range_empty : prefix_key_range [] ≡ ok ([], none)
unfolding prefix_key_range
range_empty = refl

prefix_key_range_iff_example :
    (lex_leb (text "app/") (text "app/1") && below (some (text "app0")) (text "app/1"))
    ≡ starts_with (text "app/") (text "app/1")
unfolding prefix_key_range
prefix_key_range_iff_example =
    prefix_key_range_iff (text "app/") (text "app/1") (text "app/") (some (text "app0"))
      (omega arith) (omega arith) refl

-- The letter U+00FF, as a prefix.
prefix_key_range_panics_example : prefix_key_range (0xc3 ∷ 0xbf ∷ []) ≡ err panic
unfolding is_utf8
prefix_key_range_panics_example = prefix_key_range_panics (0xc3 ∷ []) 0xbf refl (inr refl)
