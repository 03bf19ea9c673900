-- ===== src/Store/Blocks.antt =====
-- Blocks and their locations, of src/store.rs.
use shardscape.Base.{
  ℕ, ℤ, pos, Bool, List, [], ◌∷◌, ◌==◌, Bytes, Option, none, some, ◌+ℤ◌, option_map, length, ltb,
  if◌then◌else◌, pair_eq, list_eq, nat_eq,
}
use shardscape.Store.{Store, Crates, BlockRow, LocationRow, block_announce, now_micros}
use shardscape.Store.Objects.{append_fact_tx}
use shardscape.Table.{Table, lookup, delete}
use shardscape.Table.Lww.{put}

-- The rows of `block_locations` for one hash, without the hash.
unfoldable pub locations_of : Bytes → Table (Bytes × Bytes) LocationRow → Table Bytes Bytes
locations_of hash [] = []
locations_of hash (((h, location_id), row) ∷ rows) =
    if h == hash then (location_id, row.fid) ∷ locations_of hash rows else locations_of hash rows

-- The hashes that one site holds.
unfoldable pub hashes_at : Bytes → Table (Bytes × Bytes) LocationRow → List Bytes
hashes_at site [] = []
hashes_at site (((hash, location_id), row) ∷ rows) =
    if location_id == site then hash ∷ hashes_at site rows else hashes_at site rows

unfoldable pub size_or_zero : Option BlockRow → ℤ
size_or_zero none = pos 0
size_or_zero (some row) = row.size

module _ {J : Type 0} where
  unfoldable pub get_block_fids : Store J → Bytes → Option (Table Bytes Bytes)
  get_block_fids s hash = elim (locations_of hash s.block_locations) [
    | [] ↦ none
    | row ∷ rows ↦ some (row ∷ rows)
  ]

  unfoldable pub block_sizes : Store J → List Bytes → List ℤ
  block_sizes s [] = []
  block_sizes s (hash ∷ hashes) = size_or_zero (lookup hash s.blocks) ∷ block_sizes s hashes

  unfoldable pub get_local_block_fid : Store J → Bytes → Option Bytes
  get_local_block_fid s hash =
      option_map (λ (row : LocationRow). row.fid)
        (lookup (hash, s.local_location_id) s.block_locations)

  unfoldable pub upsert_block_location : Store J → Bytes → Bytes → Bytes → ℤ → ℤ → Store J
  upsert_block_location s hash location_id fid size ts = record s {
    blocks =
        put (λ (r : BlockRow). r.updated_at) hash (record { size = size; updated_at = ts })
          s.blocks;
    block_locations =
        put (λ (r : LocationRow). r.updated_at) (hash, location_id)
          (record { fid = fid; updated_at = ts }) s.block_locations;
  }

  unfoldable pub insert_block : Store J → ℕ → Bytes → Bytes → ℤ → Store J
  insert_block s system hash fid size =
      upsert_block_location s hash s.local_location_id fid size (now_micros s system)

  unfoldable pub add_block_location : Store J → ℕ → Bytes → Bytes → Bytes → Store J
  add_block_location s system hash location_id fid =
      upsert_block_location s hash location_id fid (size_or_zero (lookup hash s.blocks))
        (now_micros s system)

  unfoldable pub list_local_block_hashes : Store J → List Bytes
  list_local_block_hashes s = hashes_at s.local_location_id s.block_locations

  -- `delete_local_block`; the Boolean says whether a row was removed.
  unfoldable pub delete_local_block : Store J → Bytes → Bool × Store J
  unfolding locations_of
  delete_local_block s hash =
      let locations = delete (hash, s.local_location_id) s.block_locations in
      let removed = ltb (length locations) (length s.block_locations) in
      let blocks =
        if ltb 0 (length (locations_of hash locations)) then s.blocks else delete hash s.blocks in
      (removed, record s { block_locations = locations; blocks = blocks })

module _ {V J : Type 0} (crates : Crates V J) where
  unfoldable pub store_local_block : Store J → ℕ → Bytes → Bytes → ℤ → Store J
  store_local_block s system hash fid size =
      let ts = now_micros s system in
      let stored = upsert_block_location s hash s.local_location_id fid size ts in
      append_fact_tx crates stored ts
        (block_announce (crates.hex_encode hash) s.local_location_id (crates.hex_encode fid) size)

-- `COALESCE(SUM(b.size), 0)` over the join of a site's locations with their blocks.
unfoldable pub sum_sizes : Bytes → Table (Bytes × Bytes) LocationRow → Table Bytes BlockRow → ℤ
sum_sizes site [] blocks = pos 0
sum_sizes site (((hash, location_id), row) ∷ rows) blocks =
    let rest = sum_sizes site rows blocks in
    if location_id == site then size_or_zero (lookup hash blocks) +ℤ rest else rest

unfoldable pub local_block_bytes : {J : Type 0} → Store J → ℤ
local_block_bytes s = sum_sizes s.local_location_id s.block_locations s.blocks
