-- ===== src/Store/Locations.antt =====
-- The fid that a site records for a block of its own, in src/store.rs.
use shardscape.Base.{
  ℕ, ℤ, ◌≡◌, Bytes, none, some, ◌==◌, if◌then◌else◌, list_eq, nat_eq, pair_eq, pair_beq, eq_refl,
  Option-cases, inl, inr, arith,
}
use shardscape.Store.{Store, Crates, LocationRow, now_micros}
use shardscape.Store.Objects.{append_fact_tx}
use shardscape.Store.Blocks.{get_local_block_fid, store_local_block, upsert_block_location}
use shardscape.Table.{lookup}
use shardscape.Table.Lww.{lookup-put}

module _ {J : Type 0} where
  pub no_fid :
      (s : Store J) (hash : Bytes)
      → get_local_block_fid s hash ≡ none
      → lookup (hash, s.local_location_id) s.block_locations ≡ none
  unfolding get_local_block_fid
  no_fid s hash h = elim (Option-cases (lookup (hash, s.local_location_id) s.block_locations)) [
    | inl e ↦ e
    | inr (row, e) ↦ ground (arith, e)
  ]

module _ {V J : Type 0} (crates : Crates V J) where
  pub fid-store_local_block :
      (s : Store J) (system : ℕ) (hash fid : Bytes) (size : ℤ) (h : Bytes)
      → get_local_block_fid s hash ≡ none
      → get_local_block_fid (store_local_block crates s system hash fid size) h
        ≡ (if hash == h then some fid else get_local_block_fid s h)
  unfolding get_local_block_fid store_local_block append_fact_tx upsert_block_location pair_beq
  fid-store_local_block s system hash fid size h unknown =
      let row : LocationRow = record { fid = fid; updated_at = now_micros s system } in
      let read =
        lookup-put (λ (r : LocationRow). r.updated_at) (hash, s.local_location_id)
          (h, s.local_location_id) row s.block_locations in
      rw read (ground (arith, no_fid s hash unknown, eq_refl s.local_location_id))
