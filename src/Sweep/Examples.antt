-- ===== src/Sweep/Examples.antt =====
-- The sweep on a small store: one block that an object has, and one that none has.
use shardscape.Base.{
  ℕ, pos, ◌≡◌, refl, inl, true, false, [], ◌∷◌, Bytes, text, none, some, ◌&&◌, ◌==◌, if◌then◌else◌,
  list_eq, nat_eq, pair_eq, list_beq, pair_beq,
}
use shardscape.Fixtures.{small_store, hash_1, hash_2}
use shardscape.Store.Objects.{get_object, live_row, decode_blocks, chunks_exact}
use shardscape.Sweep.{mark, sweep_orphaned_blocks}
use shardscape.Sweep.Reaped.{reaped, sweep-location}
use shardscape.Sweep.Live.{object_survives}
use shardscape.Table.{lookup}

abbrev sighting : Bytes → ℕ
sighting hash = 200

sweep-location_example :
    lookup
      (hash_2, text "a")
      (sweep_orphaned_blocks small_store 200 60 sighting false).store.block_locations
    ≡ (if (text "a" == small_store.local_location_id)
          && reaped (mark small_store 200 60 sighting) false hash_2
        then none
        else lookup (hash_2, text "a") small_store.block_locations)
sweep-location_example = sweep-location small_store 200 60 sighting false hash_2 (text "a")

object_survives_example :
    (get_object
        (sweep_orphaned_blocks small_store 200 60 sighting true).store
        (text "bk")
        (text "k")
      ≡ some (hash_1 ∷ [], pos 4, text "e"))
    × (lookup
          (hash_1, text "a")
          (sweep_orphaned_blocks small_store 200 60 sighting true).store.block_locations
        ≡ lookup (hash_1, text "a") small_store.block_locations)
unfolding get_object live_row decode_blocks chunks_exact lookup list_beq pair_beq
object_survives_example =
    object_survives small_store 200 60 sighting true (text "bk") (text "k") (hash_1 ∷ []) (pos 4)
      (text "e") hash_1 (text "a") refl (inl refl)
