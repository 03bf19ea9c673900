-- ===== src/Distributed/Plan.antt =====
-- What the drainer decides for an entry, from metadata alone.
use shardscape.Base.{
  ◌≡◌, ◌≢◌, refl, ◌↔◌, ◌⊎◌, inl, inr, true, false, [], ◌∷◌, Bytes, keep, In, In-keep, nat_beq,
  length, Bool-cases, arith, list_eq, nat_eq,
}
use shardscape.Store.Queue.{ReplicationEntry}
use shardscape.Distributed.{
  plan_replication, fetch_plan, ReplicationPlan, drop_entry, defer, fetch_from, contains_key,
}
use shardscape.Table.{Table}

-- The description of the decision: dropped where the block is gone or here; fetched from exactly the known peers that hold it; deferred where no known peer does.
abbrev pub Planned : Table Bytes Bytes → Bytes → Table Bytes Bytes → ReplicationPlan → Type 0
Planned locations local_id peers drop_entry =
    (locations ≡ []) ⊎ (contains_key locations local_id ≡ true)
Planned locations local_id peers defer =
    (contains_key locations local_id ≡ false)
    × ((peer : Bytes × Bytes) → In peer peers → contains_key locations peer.0 ≡ false)
Planned locations local_id peers (fetch_from candidates) =
    (contains_key locations local_id ≡ false)
    × (candidates ≢ [])
    × ((peer : Bytes × Bytes)
        → In peer candidates ↔ (In peer peers × (contains_key locations peer.0 ≡ true)))

fetch_plan-Planned :
    (locations : Table Bytes Bytes) (local_id : Bytes) (peers candidates : Table Bytes Bytes)
    → contains_key locations local_id ≡ false
    → ((peer : Bytes × Bytes)
        → In peer candidates ↔ (In peer peers × (contains_key locations peer.0 ≡ true)))
    → Planned locations local_id peers (fetch_plan candidates)
unfolding fetch_plan
fetch_plan-Planned locations local_id peers [] away h = (
  away,
  λ peer m. elim (Bool-cases (contains_key locations peer.0)) [
    | inl holds ↦ absurd ((h peer).1 (m, holds))
    | inr other ↦ other
  ],
)
fetch_plan-Planned locations local_id peers (c ∷ cs) away h = (away, λ e. cc, h)

-- The plan drops an entry whose block has no location or is here; otherwise it fetches from exactly the known peers that hold the block, and defers where there is none.
pub plan_replication-Planned :
    (entry : ReplicationEntry) (locations : Table Bytes Bytes) (local_id : Bytes)
    (peers : Table Bytes Bytes)
    → Planned locations local_id peers (plan_replication entry locations local_id peers)
unfolding plan_replication
plan_replication-Planned entry [] local_id peers = inl refl
plan_replication-Planned entry (l ∷ ls) local_id peers =
    let locations = l ∷ ls in
    let holds = λ (peer : Bytes × Bytes). contains_key locations peer.0 in
    let listed : nat_beq (length locations) 0 ≡ false = ground arith in
    elim (Bool-cases (contains_key locations local_id)) [
      | inl here ↦ rw (listed, here, plan_replication) (inr here)
      | inr away ↦
          rw (listed, away, plan_replication)
            (fetch_plan-Planned locations local_id peers (keep holds peers) away
              (λ peer. In-keep holds peer peers))
    ]
