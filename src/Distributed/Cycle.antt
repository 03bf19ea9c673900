-- ===== src/Distributed/Cycle.antt =====
-- `drain_replication_queue` of src/storage.rs, with the pause that the disk guard asks for.
use shardscape.Base.{ℕ, List, [], ◌∷◌, Bytes, Option, none, some, to_u64}
use shardscape.Disk.{DiskGuard, check, refresh, set_local_usage}
use shardscape.Distributed.{BlobStore, Site, drain_entries}
use shardscape.Store.{Crates}
use shardscape.Store.Blocks.{local_block_bytes}
use shardscape.Store.Nodes.{get_peers_with_urls}
use shardscape.Store.Queue.{get_replication_queue}
use shardscape.Sweep.{force_sweep_orphaned_blocks}

-- The deletions that a sweep asks of the blob backend.
unfoldable pub delete_all : {D : Type 0} → BlobStore D → List (Bytes × Bytes) → D → D
delete_all blob [] disk = disk
delete_all blob ((hash, fid) ∷ blocks) disk = delete_all blob blocks (blob.delete disk hash fid)

-- The clock of a forced sweep: the time at which it starts, the grace period, and the times at which it
-- records orphans.
pub record SweepTimes : Type 0 where
  pub now : ℕ
  pub grace_seconds : ℕ
  pub sighted : Bytes → ℕ

module _ {V J D : Type 0} (crates : Crates V J) (blob : BlobStore D) where
  unfoldable pub force_sweep : SweepTimes → Site J D → Site J D
  force_sweep times site =
      let swept =
        force_sweep_orphaned_blocks site.store times.now times.grace_seconds times.sighted in
      record { store = swept.store; disk = delete_all blob swept.deletions site.disk }

  -- `reading` is what `statvfs` says after the sweep.
  unfoldable pub drain_replication_queue :
      (Bytes → Bytes → Option Bytes)
      → ℕ
      → SweepTimes
      → Option ℕ
      → DiskGuard
      → Site J D
      → Site J D × DiskGuard
  drain_replication_queue fetch system times reading guard site = elim (check guard) [
    | some trip ↦
        let swept = force_sweep times site in
        (swept, set_local_usage (to_u64 (local_block_bytes swept.store)) (refresh reading guard))
    | none ↦ (
      drain_entries crates blob fetch system (get_peers_with_urls site.store)
          (get_replication_queue site.store system) site,
      guard,
    )
  ]
