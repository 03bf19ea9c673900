-- ===== src/Store/Gc.antt =====
-- What the garbage collector asks of src/store.rs: the live set and the pending deletions.
use shardscape.Base.{ℤ, List, [], ◌∷◌, ◌++◌, Bytes, if◌then◌else◌, list_eq, nat_eq}
use shardscape.Store.{Store, ObjectRow, PartRow}
use shardscape.Store.Objects.{decode_blocks}
use shardscape.Table.{Table, upsert, delete}

unfoldable pub object_blocks : Table (Bytes × Bytes) ObjectRow → List Bytes
object_blocks [] = []
object_blocks ((k, row) ∷ rows) =
    if row.deleted then object_blocks rows else decode_blocks row.blocks ++ object_blocks rows

unfoldable pub part_blocks : Table ((Bytes × Bytes) × ℤ) PartRow → List Bytes
part_blocks [] = []
part_blocks ((k, row) ∷ rows) = decode_blocks row.blocks ++ part_blocks rows

module _ {J : Type 0} where
  -- A set, of which only the membership is used.
  unfoldable pub compute_live_block_set : Store J → List Bytes
  compute_live_block_set s = object_blocks s.objects ++ part_blocks s.parts

  -- `not_before` in milliseconds since the epoch.
  unfoldable pub add_pending_deletion : Store J → Bytes → ℤ → Store J
  add_pending_deletion s hash ms = record s {
    pending_deletions = upsert hash ms (λ old. ms) s.pending_deletions;
  }

  unfoldable pub get_pending_deletions : Store J → Table Bytes ℤ
  get_pending_deletions s = s.pending_deletions

  unfoldable pub remove_pending_deletion : Store J → Bytes → Store J
  remove_pending_deletion s hash = record s { pending_deletions = delete hash s.pending_deletions }
