-- ===== src/Distributed/Examples.antt =====
-- The block store of one site over local files.
use shardscape.Base.{
  pos, ◌≡◌, refl, ◌⊎◌, false, List, [], ◌∷◌, Bytes, text, Option, none, some, list_eq, nat_eq,
  pair_eq, list_beq, pair_beq,
}
use shardscape.Fixtures.{Doc, plain_crates, site_a, hash_1}
use shardscape.Store.{QueueRow}
use shardscape.Store.Blocks.{get_local_block_fid}
use shardscape.Store.Queue.{ReplicationEntry}
use shardscape.Distributed.{Site, store_block, get_block}
use shardscape.Distributed.Integrity.{Sound, store_block-Sound, get_block-store_block}
use shardscape.Distributed.Local.{Files, local_blob, local_blob-BlobLaws, put}
use shardscape.Disk.{DiskGuard, check}
use shardscape.Distributed.Cycle.{SweepTimes, drain_replication_queue}
use shardscape.Distributed.Kept.{Accounted, drain_replication_queue-Accounted}
use shardscape.Table.{lookup}

abbrev empty_site : Site Doc Files
empty_site = record { store = site_a; disk = record { files = []; broken = false } }

empty_site-Sound : Sound plain_crates local_blob empty_site
unfolding Sound get_local_block_fid lookup
empty_site-Sound h fid e = absurd (cc (e))

store_block-Sound_example :
    Sound plain_crates local_blob
      (store_block plain_crates local_blob empty_site 9 (text "data") (pos 4)).1
store_block-Sound_example =
    store_block-Sound plain_crates local_blob empty_site 9 (text "data") (pos 4) local_blob-BlobLaws
      empty_site-Sound

abbrev unreachable : Bytes → Bytes → Option Bytes
unreachable url hash = none

get_block-store_block_example :
    (text "data" ≡ plain_crates.blake3 (text "data"))
    × ((read : Bytes) × ((get_block plain_crates local_blob unreachable
            (store_block plain_crates local_blob empty_site 9 (text "data") (pos 4)).1
            10
            (text "data")).0
          ≡ some read)
        × (plain_crates.blake3 read ≡ text "data"))
unfolding store_block get_local_block_fid lookup put
get_block-store_block_example =
    get_block-store_block plain_crates local_blob unreachable empty_site 9 10 (text "data") (pos 4)
      (text "data") local_blob-BlobLaws empty_site-Sound refl

abbrev queue_row : QueueRow
queue_row = record { next_attempt_at = pos 0; attempts = 2; enqueued_at = pos 1 }

abbrev queue_entry : ReplicationEntry
queue_entry = record { hash = hash_1; next_attempt_at = pos 0; attempts = 2; enqueued_at = pos 1 }

-- A block that site b holds is queued for this one.
abbrev waiting_site : Site Doc Files
waiting_site = record {
  store = record site_a {
    block_locations = ((hash_1, text "b"), record { fid = text "local"; updated_at = pos 1 }) ∷ [];
    replication_queue = ((text "a", hash_1), queue_row) ∷ [];
  };
  disk = record { files = []; broken = false };
}

abbrev peers : List (Bytes × Bytes)
peers = (text "b", text "http://b") ∷ []

abbrev serving : Bytes → Bytes → Option Bytes
serving url hash = some hash

abbrev times : SweepTimes
times = record { now = 9; grace_seconds = 60; sighted = λ h. 9 }

-- A site that is over its quota.
abbrev full : DiskGuard
full = record { min_free_bytes = 0; free = 100; max_bytes = 10; local_usage = 10 }

drain_replication_queue-Accounted_example :
    Accounted
      (drain_replication_queue plain_crates local_blob serving 9 times none full waiting_site).0
      hash_1
    × ((check full ≡ none)
        ⊎ ((drain_replication_queue plain_crates local_blob serving 9 times none full
              waiting_site).0.store.replication_queue
            ≡ waiting_site.store.replication_queue))
unfolding lookup list_beq pair_beq
drain_replication_queue-Accounted_example =
    drain_replication_queue-Accounted plain_crates local_blob serving 9 times none full waiting_site
      hash_1 queue_row refl
