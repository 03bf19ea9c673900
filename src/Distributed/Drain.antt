-- ===== src/Distributed/Drain.antt =====
-- What becomes of an entry of the replication queue when the drainer takes it.
use shardscape.Base.{
  ℕ, ℤ, pos, ◌≡◌, refl, ◌∙◌, ◌⊎◌, ◌≢◌, inl, inr, Bool, true, false, List, [], ◌∷◌, Bytes, Option,
  none, some, length, ◌==◌, pair_beq, ◌+ℤ◌, list_eq, nat_eq, pair_eq, eq_refl, Bool-cases,
  Option-cases, arith,
}
use shardscape.Store.{Store, Crates, QueueRow, LocationRow, now_millis}
use shardscape.Store.Objects.{append_fact_tx}
use shardscape.Store.Blocks.{
  get_local_block_fid, get_block_fids, store_local_block, upsert_block_location, locations_of,
}
use shardscape.Store.Locations.{fid-store_local_block}
use shardscape.Store.Facts.{is_none}
use shardscape.Store.Queue.{
  ReplicationEntry, replication_backoff_ms, dequeue_replication, defer_replication, deferred,
}
use shardscape.Distributed.{
  BlobStore, Site, promote_block_locally, plan_replication, ReplicationPlan, drop_entry, defer,
  fetch_from, fetch_first, drain_entry, contains_key, or_empty, dequeue, defer_entry,
}
use shardscape.Distributed.Plan.{plan_replication-Planned}
use shardscape.Table.{Table, lookup, lookup-delete_where, lookup-modify}

module _ {J D : Type 0} where
  abbrev pub queued : Site J D → Bytes → Option QueueRow
  queued site hash = lookup (site.store.local_location_id, hash) site.store.replication_queue

  abbrev pub Here : Site J D → Bytes → Type 0
  Here site hash = (fid : Bytes) × (get_local_block_fid site.store hash ≡ some fid)

locations_of-here :
    (hash l : Bytes) (t : Table (Bytes × Bytes) LocationRow)
    → contains_key (locations_of hash t) l ≡ true
    → is_none (lookup (hash, l) t) ≡ false
unfolding locations_of lookup pair_beq
locations_of-here hash l [] h = ground arith
locations_of-here hash l (((x, k), row) ∷ rows) h = ground (arith, locations_of-here hash l rows)

fids-cases :
    {J : Type 0} (s : Store J) (hash : Bytes)
    → (get_block_fids s hash ≡ none)
      ⊎ ((get_block_fids s hash ≡ some (locations_of hash s.block_locations))
          × (locations_of hash s.block_locations ≢ []))
unfolding get_block_fids
fids-cases s hash = list_lem (locations_of hash s.block_locations)
  where
    list_lem :
        (t : Table Bytes Bytes)
        → ((elim t [ [] ↦ none | row ∷ rows ↦ some (row ∷ rows) ]) ≡ none)
          ⊎ (((elim t [ [] ↦ none | row ∷ rows ↦ some (row ∷ rows) ]) ≡ some t) × (t ≢ []))
    list_lem [] = inl refl
    list_lem (x ∷ xs) = inr (refl, λ e. cc)

dropped-Here :
    {J D : Type 0} (site : Site J D) (hash : Bytes)
    → (or_empty (get_block_fids site.store hash) ≡ [])
      ⊎ (contains_key (or_empty (get_block_fids site.store hash)) site.store.local_location_id
          ≡ true)
    → (get_block_fids site.store hash ≡ none) ⊎ Here site hash
unfolding get_local_block_fid
dropped-Here site hash h = elim (fids-cases site.store hash) [
  | inl e ↦ inl e
  | inr (e, full) ↦ elim (rw e at h) [
    | inl empty ↦ absurd (full empty)
    | inr listed ↦
        let l = site.store.local_location_id in
        let t = site.store.block_locations in
        let found = locations_of-here hash l t listed in
        elim (Option-cases (lookup (hash, l) t)) [
          | inl absent ↦ absurd (let q : true ≡ false = rw absent at found in cc (q))
          | inr (location, at) ↦ inr (location.fid, rw at refl)
        ]
  ]
]

pub plan-cases :
    (p : ReplicationPlan)
    → (p ≡ drop_entry)
      ⊎ (p ≡ defer)
      ⊎ ((candidates : List (Bytes × Bytes)) × (p ≡ fetch_from candidates))
plan-cases drop_entry = inl refl
plan-cases defer = inr (inl refl)
plan-cases (fetch_from candidates) = inr (inr (candidates, refl))

module _ {V J D : Type 0} (crates : Crates V J) (blob : BlobStore D) where
  -- What a promotion leaves alone, and that its success means that the block is here.
  pub record Promoted (site : Site J D) (hash : Bytes) (result : Bool × Site J D) : Type 0 where
    pub queue : result.1.store.replication_queue ≡ site.store.replication_queue
    pub local : result.1.store.local_location_id ≡ site.store.local_location_id
    pub here : result.0 ≡ true → Here result.1 hash

  pub promote-Promoted :
      (site : Site J D) (system : ℕ) (hash bytes : Bytes)
      → Promoted site hash (promote_block_locally crates blob site system hash bytes)
  unfolding promote_block_locally store_local_block append_fact_tx upsert_block_location
  promote-Promoted site system hash bytes =
      elim (Option-cases (get_local_block_fid site.store hash)) [
        | inr (fid, e) ↦
            rw (e, promote_block_locally)
              (record { queue = refl; local = refl; here = λ h. (fid, e) })
        | inl e ↦ elim (Option-cases (blob.put site.disk hash bytes).0) [
          | inl failed ↦
              rw (e, failed, promote_block_locally)
                (record { queue = refl; local = refl; here = λ h. absurd cc })
          | inr (fid, written) ↦
              rw (e, written, promote_block_locally)
                (record {
                  queue = refl;
                  local = refl;
                  here = λ h. (
                    fid,
                    fid-store_local_block crates site.store system hash fid (pos (length bytes))
                          hash e
                        ∙ rw (eq_refl hash) refl,
                  );
                })
        ]
      ]

  after_dequeue :
      (entry : ReplicationEntry) (site : Site J D)
      → queued (dequeue crates blob entry site) entry.hash ≡ none
  unfolding dequeue_replication
  after_dequeue entry site =
      let key : Bytes × Bytes = (site.store.local_location_id, entry.hash) in
      lookup-delete_where (λ (j : Bytes × Bytes). j == key) key site.store.replication_queue
      ∙ rw (eq_refl key) refl

  after_defer :
      (system : ℕ) (entry : ReplicationEntry) (site : Site J D) (row : QueueRow)
      → queued site entry.hash ≡ some row
      → (next : ℤ) × (queued (defer_entry crates blob system entry site) entry.hash
          ≡ some (deferred next row))
  unfolding defer_replication
  after_defer system entry site row e =
      let key : Bytes × Bytes = (site.store.local_location_id, entry.hash) in
      let next = now_millis site.store system +ℤ replication_backoff_ms (pos entry.attempts) in
      (
        next,
        lookup-modify key key (deferred next) site.store.replication_queue
            ∙ rw (eq_refl key, e) refl,
      )

  -- An entry that the drainer takes leaves the queue only where its block is here by then or has no location left; otherwise it stays, with one more attempt counted.
  pub drain_entry-queue :
      (fetch : Bytes → Bytes → Option Bytes) (system : ℕ) (peers : Table Bytes Bytes)
      (entry : ReplicationEntry) (site : Site J D) (row : QueueRow)
      → queued site entry.hash ≡ some row
      → ((queued (drain_entry crates blob fetch system peers entry site) entry.hash ≡ none)
          × ((get_block_fids site.store entry.hash ≡ none)
              ⊎ Here (drain_entry crates blob fetch system peers entry site) entry.hash))
        ⊎ ((next : ℤ) × (queued (drain_entry crates blob fetch system peers entry site) entry.hash
              ≡ some (deferred next row)))
  unfolding drain_entry dequeue_replication get_local_block_fid
  drain_entry-queue fetch system peers entry site row e =
      let locations = or_empty (get_block_fids site.store entry.hash) in
      let plan = plan_replication entry locations site.store.local_location_id peers in
      let planned = plan_replication-Planned entry locations site.store.local_location_id peers in
      elim (plan-cases plan) [
        | inl dropped ↦
            let gone_or_here = dropped-Here site entry.hash (rw dropped at planned) in
            rw (dropped, drain_entry) (inl (after_dequeue entry site, gone_or_here))
        | inr (inl deferring) ↦
            rw (deferring, drain_entry) (inr (after_defer system entry site row e))
        | inr (inr (candidates, fetching)) ↦
            elim (Option-cases (fetch_first fetch candidates entry.hash)) [
              | inl unreachable ↦
                  rw (fetching, unreachable, drain_entry)
                    (inr (after_defer system entry site row e))
              | inr (bytes, fetched) ↦
                  let promoted = promote_block_locally crates blob site system entry.hash bytes in
                  let kept = promote-Promoted site system entry.hash bytes in
                  elim (Bool-cases promoted.0) [
                    | inl stored ↦
                        rw (fetching, fetched, stored, drain_entry)
                          (inl (after_dequeue entry promoted.1, inr (kept.here stored)))
                    | inr failed ↦
                        let same : queued promoted.1 entry.hash ≡ some row =
                          rw (kept.queue, kept.local) e in
                        rw (fetching, fetched, failed, drain_entry)
                          (inr (after_defer system entry promoted.1 row same))
                  ]
            ]
      ]
