-- ===== src/Sweep.antt =====
-- The mark-and-sweep collector of src/storage.rs over the store of src/store.rs.
pub mod Reaped
pub mod Live
pub mod Kept
mod Examples
use shardscape.Base.{
  ℕ, ℤ, pos, ◌+◌, ◌*◌, ◌+ℤ◌, to_i64, ltb_ℤ, Bool, true, false, not, ◌&&◌, ◌||◌, List, [], ◌∷◌, ◌++◌,
  ◌==◌, Bytes, Option, none, some, any, if◌then◌else◌, list_eq, nat_eq,
}
use shardscape.Store.{Store}
use shardscape.Store.Blocks.{list_local_block_hashes, get_local_block_fid, delete_local_block}
use shardscape.Store.Gc.{
  compute_live_block_set, get_pending_deletions, add_pending_deletion, remove_pending_deletion,
}
use shardscape.Table.{Table, lookup}

abbrev pub contains : List Bytes → Bytes → Bool
contains hashes hash = any (λ h. h == hash) hashes

-- The store with the deletions that the sweep asked of the block store, in order: their results
-- are ignored.
pub record Swept (J : Type 0) : Type 0 where
  pub store : Store J
  pub deletions : List (Bytes × Bytes)

-- What a sweep has read before its loop. Times are milliseconds since the epoch; `sighted` is the
-- reading of the clock at which an orphan is recorded.
pub record Marked : Type 0 where
  pub live : List Bytes
  pub pending : Table Bytes ℤ
  pub now : ℤ
  pub grace_seconds : ℕ
  pub sighted : Bytes → ℕ

module _ {J : Type 0} where
  -- The lines under SWEEP.
  unfoldable pub reap : Bytes → Swept J → Swept J
  reap hash w =
      let removed = delete_local_block w.store hash in
      let deleted : Swept J = elim (get_local_block_fid w.store hash) [
        | none ↦ w
        | some fid ↦
            if removed.0
            then record { store = removed.1; deletions = w.deletions ++ ((hash, fid) ∷ []) }
            else record { store = removed.1; deletions = w.deletions }
      ] in
      record { store = remove_pending_deletion deleted.store hash; deletions = deleted.deletions }

  -- The first sighting of an orphan is recorded with the time at which it may be reaped.
  unfoldable pub first_sighting : Marked → Bytes → Swept J → Swept J
  first_sighting m hash w = record w {
    store = add_pending_deletion w.store hash (pos (m.sighted hash + m.grace_seconds * 1000));
  }

  unfoldable pub sweep_block : Marked → Bool → Bytes → Swept J → Swept J
  sweep_block m force hash w =
      let due : ℤ → Swept J → Swept J =
        λ reap_at x. if not force && ltb_ℤ m.now reap_at then x else reap hash x in
      let orphan : Swept J = elim (lookup hash m.pending) [
        | none ↦ due (m.now +ℤ pos (m.grace_seconds * 1000)) (first_sighting m hash w)
        | some t ↦ due t w
      ] in
      let referenced : Swept J = elim (lookup hash m.pending) [
        | none ↦ w
        | some t ↦ record w { store = remove_pending_deletion w.store hash }
      ] in
      if contains m.live hash then referenced else orphan

  unfoldable pub sweep_blocks : Marked → Bool → List Bytes → Swept J → Swept J
  sweep_blocks m force [] w = w
  sweep_blocks m force (hash ∷ hashes) w = sweep_blocks m force hashes (sweep_block m force hash w)

  -- Pending entries of blocks that are no longer here.
  unfoldable pub drop_stale : List Bytes → Table Bytes ℤ → Store J → Store J
  drop_stale held [] s = s
  drop_stale held ((hash, t) ∷ rows) s =
      drop_stale held rows (if contains held hash then s else remove_pending_deletion s hash)

  unfoldable pub mark : Store J → ℕ → ℕ → (Bytes → ℕ) → Marked
  mark s now grace_seconds sighted = record {
    live = compute_live_block_set s;
    pending = get_pending_deletions s;
    now = pos now;
    grace_seconds = grace_seconds;
    sighted = sighted;
  }

  unfoldable pub sweep_orphaned_blocks : Store J → ℕ → ℕ → (Bytes → ℕ) → Bool → Swept J
  sweep_orphaned_blocks s now grace_seconds sighted force =
      let m = mark s now grace_seconds sighted in
      let held = list_local_block_hashes s in
      let w = sweep_blocks m force held (record { store = s; deletions = [] }) in
      record { store = drop_stale held m.pending w.store; deletions = w.deletions }

  unfoldable pub reap_orphaned_blocks : Store J → ℕ → ℕ → (Bytes → ℕ) → Swept J
  reap_orphaned_blocks s now grace_seconds sighted =
      sweep_orphaned_blocks s now grace_seconds sighted false

  unfoldable pub force_sweep_orphaned_blocks : Store J → ℕ → ℕ → (Bytes → ℕ) → Swept J
  force_sweep_orphaned_blocks s now grace_seconds sighted =
      sweep_orphaned_blocks s now grace_seconds sighted true
