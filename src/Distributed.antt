-- ===== src/Distributed.antt =====
-- The distributed block store and the replication drainer of src/storage.rs: a site's metadata store
-- with the blobs that it holds, over any blob backend.
pub mod Integrity
pub mod Local
pub mod Drain
pub mod Plan
pub mod Cycle
pub mod Kept
mod Examples
use shardscape.Base.{
  ℕ, ℤ, pos, Bool, true, false, not, ◌||◌, nat_beq, List, [], ◌∷◌, ◌==◌, Bytes, Option, none, some,
  length, keep, if◌then◌else◌, list_eq, nat_eq,
}
use shardscape.Store.{Store, Crates}
use shardscape.Store.Blocks.{
  get_local_block_fid, get_block_fids, store_local_block, local_block_bytes,
}
use shardscape.Store.Facts.{is_none}
use shardscape.Store.Nodes.{get_peers_with_urls}
use shardscape.Store.Queue.{
  ReplicationEntry, enqueue_replication, get_replication_queue, dequeue_replication,
  defer_replication,
}
use shardscape.Table.{Table, lookup}

-- `BlobStore`: the bytes of blocks, in a state `D`. A `put` or a `get` can fail; the failure of a
-- `delete` is ignored by its caller.
pub record BlobStore (D : Type 0) : Type 0 where
  pub put : D → Bytes → Bytes → Option Bytes × D
  pub get : D → Bytes → Bytes → Option Bytes
  pub delete : D → Bytes → Bytes → D

pub record Site (J D : Type 0) : Type 0 where
  pub store : Store J
  pub disk : D

abbrev pub contains_key : {V : Type 0} → Table Bytes V → Bytes → Bool
contains_key t key = not (is_none (lookup key t))

abbrev pub or_empty : Option (Table Bytes Bytes) → Table Bytes Bytes
or_empty none = []
or_empty (some t) = t

-- What the drainer does with one entry of its queue.
pub data ReplicationPlan : Type 0 where
  drop_entry defer : ReplicationPlan
  fetch_from : List (Bytes × Bytes) → ReplicationPlan

unfoldable pub fetch_plan : List (Bytes × Bytes) → ReplicationPlan
fetch_plan [] = defer
fetch_plan (c ∷ cs) = fetch_from (c ∷ cs)

unfoldable pub plan_replication :
    ReplicationEntry → Table Bytes Bytes → Bytes → Table Bytes Bytes → ReplicationPlan
plan_replication entry locations local_id peers =
    let candidates = keep (λ (peer : Bytes × Bytes). contains_key locations peer.0) peers in
    if nat_beq (length locations) 0 || contains_key locations local_id
    then drop_entry
    else fetch_plan candidates

-- `fetch url hash` is a request to a peer for a block; each candidate is tried in turn.
unfoldable pub fetch_first :
    (Bytes → Bytes → Option Bytes) → List (Bytes × Bytes) → Bytes → Option Bytes
fetch_first fetch [] hash = none
fetch_first fetch ((id, url) ∷ peers) hash = elim (fetch url hash) [
  | none ↦ fetch_first fetch peers hash
  | some bytes ↦ some bytes
]

module _ {V J D : Type 0} (crates : Crates V J) (blob : BlobStore D) where
  -- The result says whether the block is here now.
  unfoldable pub promote_block_locally : Site J D → ℕ → Bytes → Bytes → Bool × Site J D
  promote_block_locally site system hash bytes = elim (get_local_block_fid site.store hash) [
    | some fid ↦ (true, site)
    | none ↦
        let put = blob.put site.disk hash bytes in
        elim (put.0) [
          | none ↦ (false, record site { disk = put.1 })
          | some fid ↦ (
            true,
            record {
              store = store_local_block crates site.store system hash fid (pos (length bytes));
              disk = put.1;
            },
          )
        ]
  ]

  unfoldable pub store_block : Site J D → ℕ → Bytes → ℤ → Option Bytes × Site J D
  store_block site system bytes size =
      let hash = crates.blake3 bytes in
      elim (get_local_block_fid site.store hash) [
        | some fid ↦ (some hash, site)
        | none ↦
            let put = blob.put site.disk hash bytes in
            elim (put.0) [
              | none ↦ (none, record site { disk = put.1 })
              | some fid ↦ (
                some hash,
                record {
                  store = store_local_block crates site.store system hash fid size;
                  disk = put.1;
                },
              )
            ]
      ]

  -- A block that was fetched is kept; one that cannot be is queued for a later attempt.
  unfoldable pub read_repair : Site J D → ℕ → Bytes → Bytes → Site J D
  read_repair site system hash bytes =
      let promoted = promote_block_locally site system hash bytes in
      if promoted.0 then promoted.1 else record (promoted.1) {
        store =
            enqueue_replication promoted.1.store system hash
              (promoted.1.store.local_location_id ∷ []);
      }

  unfoldable pub get_block :
      (Bytes → Bytes → Option Bytes) → Site J D → ℕ → Bytes → Option Bytes × Site J D
  get_block fetch site system hash = elim (get_local_block_fid site.store hash) [
    | some fid ↦ (blob.get site.disk hash fid, site)
    | none ↦ elim (get_block_fids site.store hash) [
      | none ↦ (none, site)
      | some locations ↦
          let peers = get_peers_with_urls site.store in
          let holders = keep (λ (peer : Bytes × Bytes). contains_key locations peer.0) peers in
          elim (fetch_first fetch holders hash) [
            | none ↦ (none, site)
            | some bytes ↦ (some bytes, read_repair site system hash bytes)
          ]
    ]
  ]

  abbrev pub dequeue : ReplicationEntry → Site J D → Site J D
  dequeue entry site = record site {
    store = dequeue_replication site.store entry.hash entry.next_attempt_at;
  }

  abbrev pub defer_entry : ℕ → ReplicationEntry → Site J D → Site J D
  defer_entry system entry site = record site { store = defer_replication site.store system entry }

  -- One round of the loop of `drain_replication_queue`.
  unfoldable pub drain_entry :
      (Bytes → Bytes → Option Bytes)
      → ℕ
      → Table Bytes Bytes
      → ReplicationEntry
      → Site J D
      → Site J D
  drain_entry fetch system peers entry site =
      let locations = or_empty (get_block_fids site.store entry.hash) in
      elim (plan_replication entry locations site.store.local_location_id peers) [
        | drop_entry ↦ dequeue entry site
        | defer ↦ defer_entry system entry site
        | fetch_from candidates ↦ elim (fetch_first fetch candidates entry.hash) [
          | none ↦ defer_entry system entry site
          | some bytes ↦
              let promoted = promote_block_locally site system entry.hash bytes in
              if promoted.0 then dequeue entry promoted.1 else defer_entry system entry promoted.1
        ]
      ]

  unfoldable pub drain_entries :
      (Bytes → Bytes → Option Bytes)
      → ℕ
      → Table Bytes Bytes
      → List ReplicationEntry
      → Site J D
      → Site J D
  drain_entries fetch system peers [] site = site
  drain_entries fetch system peers (entry ∷ entries) site =
      drain_entries fetch system peers entries (drain_entry fetch system peers entry site)
