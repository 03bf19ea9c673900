-- ===== src/Distributed/Kept.antt =====
-- That no block is lost from the replication queue: what a whole drain leaves of a queued block.
use shardscape.Base.{
  ℕ, ℤ, pos, ◌≡◌, refl, sym, ap, subst, ◌∙◌, ◌⊎◌, inl, inr, true, false, List, [], ◌∷◌, Bytes,
  Option, none, some, length, ◌==◌, pair_beq, list_eq, nat_eq, pair_eq, eq_refl, eq_iff, Bool-cases,
  Option-cases, arith,
}
use shardscape.Disk.{DiskGuard, check}
use shardscape.Distributed.{
  BlobStore, Site, promote_block_locally, plan_replication, fetch_first, drain_entry, drain_entries,
  or_empty, dequeue, defer_entry,
}
use shardscape.Distributed.Cycle.{SweepTimes, force_sweep, drain_replication_queue}
use shardscape.Distributed.Drain.{queued, Here, plan-cases, drain_entry-queue, promote-Promoted}
use shardscape.Store.{Crates, QueueRow, LocationRow, now_micros}
use shardscape.Store.Blocks.{
  get_local_block_fid, get_block_fids, locations_of, store_local_block, upsert_block_location,
}
use shardscape.Store.Locations.{fid-store_local_block}
use shardscape.Store.Objects.{append_fact_tx}
use shardscape.Store.Queue.{
  get_replication_queue, ReplicationEntry, dequeue_replication, defer_replication, deferred,
}
use shardscape.Store.Nodes.{get_peers_with_urls}
use shardscape.Sweep.{force_sweep_orphaned_blocks}
use shardscape.Sweep.Kept.{sweep-KeepsQueue}
use shardscape.Table.{Table, upsert, lookup-delete_where, lookup-modify}
use shardscape.Table.Lww.{put}

-- A location of another block changes nothing.
locations_of-upsert :
    (hash h l : Bytes) (row : LocationRow) (update : LocationRow → LocationRow)
    (t : Table (Bytes × Bytes) LocationRow)
    → (h == hash) ≡ false
    → locations_of hash (upsert (h, l) row update t) ≡ locations_of hash t
unfolding locations_of upsert pair_beq
locations_of-upsert hash h l row update [] e = rw e refl
locations_of-upsert hash h l row update (((x, k), old) ∷ rows) e =
    ground (arith, eq_iff {A = Bytes} x h, locations_of-upsert hash h l row update rows e)

locations_of-put :
    (hash h l : Bytes) (row : LocationRow) (t : Table (Bytes × Bytes) LocationRow)
    → (h == hash) ≡ false
    → locations_of hash (put (λ (r : LocationRow). r.updated_at) (h, l) row t) ≡ locations_of hash t
unfolding put
locations_of-put hash h l row t e = locations_of-upsert hash h l row _ t e

list_sym : (a b : Bytes) → (a == b) ≡ false → (b == a) ≡ false
list_sym a b h = elim (Bool-cases (b == a)) [
  | inr e ↦ e
  | inl e ↦
      absurd (let q : true ≡ false = sym ((eq_iff a b).1 (sym ((eq_iff b a).0 e))) ∙ h in cc (q))
]

key_differs : (l a b : Bytes) → (a == b) ≡ false → ◌==◌ {K = Bytes × Bytes} (l, a) (l, b) ≡ false
unfolding pair_beq
key_differs l a b h = rw (eq_refl l, h) refl

module _ {J D : Type 0} where
  -- The block is here, or no site has it.
  abbrev pub Settled : Site J D → Bytes → Type 0
  Settled site hash = Here site hash ⊎ (get_block_fids site.store hash ≡ none)

  -- A block that the site wants: it is queued, here, or nowhere.
  abbrev pub Accounted : Site J D → Bytes → Type 0
  Accounted site hash = ((row : QueueRow) × (queued site hash ≡ some row)) ⊎ Settled site hash

module _ {V J D : Type 0} (crates : Crates V J) (blob : BlobStore D) where
  -- The site on which the queue is changed at the end of a round.
  record Moved (site mid : Site J D) : Type 0 where
    queue : mid.store.replication_queue ≡ site.store.replication_queue
    local : mid.store.local_location_id ≡ site.store.local_location_id
    settled : (hash : Bytes) → Settled site hash → Settled mid hash

  Settled-store_local_block :
      (site : Site J D) (disk : D) (system : ℕ) (hash fid : Bytes) (size : ℤ) (h : Bytes)
      → get_local_block_fid site.store hash ≡ none
      → Settled site h
      → Settled
          (record { store = store_local_block crates site.store system hash fid size; disk = disk })
          h
  unfolding store_local_block append_fact_tx upsert_block_location get_block_fids
  Settled-store_local_block site disk system hash fid size h unknown settled =
      let read = fid-store_local_block crates site.store system hash fid size h unknown in
      elim (Bool-cases (hash == h)) [
        | inl same ↦ inl (fid, read ∙ rw same refl)
        | inr different ↦ elim settled [
          | inl (old, e) ↦ inl (old, read ∙ rw different e)
          | inr nowhere ↦ inr (
              rw
                (
                  locations_of-put h hash site.store.local_location_id
                      (record { fid = fid; updated_at = now_micros site.store system })
                      site.store.block_locations different,
                  get_block_fids,
                )
                nowhere)
        ]
      ]

  promoted-Moved :
      (site : Site J D) (system : ℕ) (hash bytes : Bytes)
      → Moved site (promote_block_locally crates blob site system hash bytes).1
  unfolding promote_block_locally
  promoted-Moved site system hash bytes =
      let kept = promote-Promoted crates blob site system hash bytes in
      record {
        queue = kept.queue;
        local = kept.local;
        settled = λ h settled. elim (Option-cases (get_local_block_fid site.store hash)) [
          | inr (fid, e) ↦ rw (e, promote_block_locally) settled
          | inl e ↦ elim (Option-cases (blob.put site.disk hash bytes).0) [
            | inl failed ↦ rw (e, failed, promote_block_locally) settled
            | inr (fid, written) ↦
                rw (e, written, promote_block_locally)
                  (Settled-store_local_block site (blob.put site.disk hash bytes).1 system hash fid
                    (pos (length bytes)) h e settled)
          ]
        ];
      }

  stays-Moved : (site : Site J D) → Moved site site
  stays-Moved site = record { queue = refl; local = refl; settled = λ hash settled. settled }

  drain_entry-Moved :
      (fetch : Bytes → Bytes → Option Bytes) (system : ℕ) (peers : Table Bytes Bytes)
      (entry : ReplicationEntry) (site : Site J D)
      → (mid : Site J D) × Moved site mid
        × ((drain_entry crates blob fetch system peers entry site ≡ dequeue crates blob entry mid)
            ⊎ (drain_entry crates blob fetch system peers entry site
                ≡ defer_entry crates blob system entry mid))
  unfolding drain_entry
  drain_entry-Moved fetch system peers entry site =
      let locations = or_empty (get_block_fids site.store entry.hash) in
      elim (plan-cases (plan_replication entry locations site.store.local_location_id peers)) [
        | inl dropped ↦ (site, stays-Moved site, inl (rw (dropped, drain_entry) refl))
        | inr (inl deferring) ↦ (site, stays-Moved site, inr (rw (deferring, drain_entry) refl))
        | inr (inr (candidates, fetching)) ↦
            elim (Option-cases (fetch_first fetch candidates entry.hash)) [
              | inl unreachable ↦
                  (site, stays-Moved site, inr (rw (fetching, unreachable, drain_entry) refl))
              | inr (bytes, fetched) ↦
                  let promoted = promote_block_locally crates blob site system entry.hash bytes in
                  (
                    promoted.1,
                    promoted-Moved site system entry.hash bytes,
                    elim (Bool-cases promoted.0) [
                      | inl stored ↦ inl (rw (fetching, fetched, stored, drain_entry) refl)
                      | inr failed ↦ inr (rw (fetching, fetched, failed, drain_entry) refl)
                    ],
                  )
            ]
      ]

  Settled-drain_entry :
      (fetch : Bytes → Bytes → Option Bytes) (system : ℕ) (peers : Table Bytes Bytes)
      (entry : ReplicationEntry) (site : Site J D) (hash : Bytes)
      → Settled site hash
      → Settled (drain_entry crates blob fetch system peers entry site) hash
  unfolding dequeue_replication defer_replication get_local_block_fid get_block_fids
  Settled-drain_entry fetch system peers entry site hash settled =
      let (mid, moved, ends) = drain_entry-Moved fetch system peers entry site in
      elim ends [
        | inl e ↦ subst (λ x. Settled x hash) (sym e) (moved.settled hash settled)
        | inr e ↦ subst (λ x. Settled x hash) (sym e) (moved.settled hash settled)
      ]

  dequeue_others :
      (entry : ReplicationEntry) (site : Site J D) (hash : Bytes)
      → (entry.hash == hash) ≡ false
      → queued (dequeue crates blob entry site) hash ≡ queued site hash
  unfolding dequeue_replication
  dequeue_others entry site hash different =
      let l = site.store.local_location_id in
      let key : Bytes × Bytes = (l, entry.hash) in
      lookup-delete_where (λ (j : Bytes × Bytes). j == key) (l, hash) site.store.replication_queue
      ∙ rw (key_differs l hash entry.hash (list_sym entry.hash hash different)) refl

  defer_others :
      (system : ℕ) (entry : ReplicationEntry) (site : Site J D) (hash : Bytes)
      → (entry.hash == hash) ≡ false
      → queued (defer_entry crates blob system entry site) hash ≡ queued site hash
  unfolding defer_replication
  defer_others system entry site hash different =
      let l = site.store.local_location_id in
      lookup-modify (l, entry.hash) (l, hash) _ site.store.replication_queue
      ∙ rw (key_differs l entry.hash hash different) refl

  -- The rows of other blocks are left alone.
  queued_others :
      (fetch : Bytes → Bytes → Option Bytes) (system : ℕ) (peers : Table Bytes Bytes)
      (entry : ReplicationEntry) (site : Site J D) (hash : Bytes)
      → (entry.hash == hash) ≡ false
      → queued (drain_entry crates blob fetch system peers entry site) hash ≡ queued site hash
  queued_others fetch system peers entry site hash different =
      let (mid, moved, ends) = drain_entry-Moved fetch system peers entry site in
      let same : queued mid hash ≡ queued site hash = rw (moved.queue, moved.local) refl in
      elim ends [
        | inl e ↦ ap (λ x. queued x hash) e ∙ dequeue_others entry mid hash different ∙ same
        | inr e ↦ ap (λ x. queued x hash) e ∙ defer_others system entry mid hash different ∙ same
      ]

  Accounted-drain_entry :
      (fetch : Bytes → Bytes → Option Bytes) (system : ℕ) (peers : Table Bytes Bytes)
      (entry : ReplicationEntry) (site : Site J D) (hash : Bytes)
      → Accounted site hash
      → Accounted (drain_entry crates blob fetch system peers entry site) hash
  Accounted-drain_entry fetch system peers entry site hash (inr settled) =
      inr (Settled-drain_entry fetch system peers entry site hash settled)
  Accounted-drain_entry fetch system peers entry site hash (inl (row, e)) =
      elim (Bool-cases (entry.hash == hash)) [
        | inr different ↦ inl (row, queued_others fetch system peers entry site hash different ∙ e)
        | inl equal ↦
            let same : entry.hash ≡ hash = (eq_iff entry.hash hash).0 equal in
            subst (λ h. Accounted (drain_entry crates blob fetch system peers entry site) h) same
              (elim (drain_entry-queue crates blob fetch system peers entry site row
                (subst (λ h. queued site h ≡ some row) (sym same) e)) [
                  | inl (left, inl nowhere) ↦
                      inr
                        (Settled-drain_entry fetch system peers entry site entry.hash (inr nowhere))
                  | inl (left, inr here) ↦ inr (inl here)
                  | inr (next, waits) ↦ inl (deferred next row, waits)
                ])
      ]

  Accounted-drain_entries :
      (fetch : Bytes → Bytes → Option Bytes) (system : ℕ) (peers : Table Bytes Bytes)
      (entries : List ReplicationEntry) (site : Site J D) (hash : Bytes)
      → Accounted site hash
      → Accounted (drain_entries crates blob fetch system peers entries site) hash
  unfolding drain_entries
  Accounted-drain_entries fetch system peers [] site hash a = a
  Accounted-drain_entries fetch system peers (entry ∷ entries) site hash a =
      Accounted-drain_entries fetch system peers entries
        (drain_entry crates blob fetch system peers entry site) hash
        (Accounted-drain_entry fetch system peers entry site hash a)

  -- A block that is queued when a drain starts is, when it ends, still queued, or here, or held by no site; a drain that the disk guard pauses leaves the whole queue as it is.
  pub drain_replication_queue-Accounted :
      (fetch : Bytes → Bytes → Option Bytes) (system : ℕ) (times : SweepTimes) (reading : Option ℕ)
      (guard : DiskGuard) (site : Site J D) (hash : Bytes) (row : QueueRow)
      → queued site hash ≡ some row
      → Accounted (drain_replication_queue crates blob fetch system times reading guard site).0 hash
        × ((check guard ≡ none)
            ⊎ ((drain_replication_queue crates blob fetch system times reading guard
                  site).0.store.replication_queue
                ≡ site.store.replication_queue))
  unfolding drain_replication_queue force_sweep force_sweep_orphaned_blocks
  drain_replication_queue-Accounted fetch system times reading guard site hash row e =
      elim (Option-cases (check guard)) [
        | inl runs ↦ (
          rw (runs, drain_replication_queue)
              (Accounted-drain_entries fetch system (get_peers_with_urls site.store)
                (get_replication_queue site.store system) site hash (inl (row, e))),
          inl runs,
        )
        | inr (trip, paused) ↦
            let kept =
              sweep-KeepsQueue site.store times.now times.grace_seconds times.sighted true in
            let there : queued (force_sweep crates blob times site) hash ≡ some row =
              rw (kept.queue, kept.local) e in
            (
              rw (paused, drain_replication_queue) (inl (row, there)),
              rw (paused, drain_replication_queue) (inr kept.queue),
            )
      ]
