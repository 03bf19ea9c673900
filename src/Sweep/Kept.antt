-- ===== src/Sweep/Kept.antt =====
-- What a sweep leaves alone of the store: the replication queue and the name of the site.
use shardscape.Base.{
  ℕ, ◌≡◌, refl, ◌∙◌, inl, inr, Bool, if◌then◌else◌, List, [], ◌∷◌, Bytes, Option-cases, Bool-cases,
  list_eq, nat_eq, ℤ,
}
use shardscape.Store.{Store}
use shardscape.Store.Blocks.{get_local_block_fid, delete_local_block}
use shardscape.Store.Gc.{add_pending_deletion, remove_pending_deletion}
use shardscape.Sweep.{
  Swept, Marked, contains, reap, first_sighting, sweep_block, sweep_blocks, drop_stale,
  sweep_orphaned_blocks,
}
use shardscape.Table.{Table, lookup}

module _ {J : Type 0} where
  pub record KeepsQueue (s t : Store J) : Type 0 where
    pub queue : t.replication_queue ≡ s.replication_queue
    pub local : t.local_location_id ≡ s.local_location_id

  same : (s : Store J) → KeepsQueue s s
  same s = record { queue = refl; local = refl }

  then_keeps : {s t u : Store J} → KeepsQueue s t → KeepsQueue t u → KeepsQueue s u
  then_keeps a b = record { queue = b.queue ∙ a.queue; local = b.local ∙ a.local }

  reap-KeepsQueue : (hash : Bytes) (w : Swept J) → KeepsQueue w.store (reap hash w).store
  unfolding reap delete_local_block remove_pending_deletion
  reap-KeepsQueue hash w = elim (Option-cases (get_local_block_fid w.store hash)) [
    | inl e ↦ rw (e, reap) (record { queue = refl; local = refl })
    | inr (fid, e) ↦ elim (Bool-cases (delete_local_block w.store hash).0) [
      | inl r ↦ rw (e, r, reap) (record { queue = refl; local = refl })
      | inr r ↦ rw (e, r, reap) (record { queue = refl; local = refl })
    ]
  ]

  due-KeepsQueue :
      (b : Bool) (hash : Bytes) (s : Store J) (x : Swept J)
      → KeepsQueue s x.store
      → KeepsQueue s (if b then x else reap hash x).store
  due-KeepsQueue b hash s x k = elim (Bool-cases b) [
    | inl e ↦ rw e k
    | inr e ↦ rw e (then_keeps k (reap-KeepsQueue hash x))
  ]

  sweep_block-KeepsQueue :
      (m : Marked) (force : Bool) (hash : Bytes) (w : Swept J)
      → KeepsQueue w.store (sweep_block m force hash w).store
  unfolding sweep_block first_sighting add_pending_deletion remove_pending_deletion
  sweep_block-KeepsQueue m force hash w = elim (Bool-cases (contains m.live hash)) [
    | inl live ↦ elim (Option-cases (lookup hash m.pending)) [
      | inl e ↦ rw (live, e, sweep_block) (same w.store)
      | inr (t, e) ↦ rw (live, e, sweep_block) (record { queue = refl; local = refl })
    ]
    | inr orphan ↦ elim (Option-cases (lookup hash m.pending)) [
      | inl e ↦
          rw (orphan, e, sweep_block)
            (due-KeepsQueue _ hash w.store (first_sighting m hash w)
              (record { queue = refl; local = refl }))
      | inr (t, e) ↦ rw (orphan, e, sweep_block) (due-KeepsQueue _ hash w.store w (same w.store))
    ]
  ]

  sweep_blocks-KeepsQueue :
      (m : Marked) (force : Bool) (hashes : List Bytes) (w : Swept J)
      → KeepsQueue w.store (sweep_blocks m force hashes w).store
  unfolding sweep_blocks
  sweep_blocks-KeepsQueue m force [] w = same w.store
  sweep_blocks-KeepsQueue m force (hash ∷ hashes) w =
      then_keeps (sweep_block-KeepsQueue m force hash w)
        (sweep_blocks-KeepsQueue m force hashes (sweep_block m force hash w))

  drop_stale-KeepsQueue :
      (held : List Bytes) (rows : Table Bytes ℤ) (s : Store J)
      → KeepsQueue s (drop_stale held rows s)
  unfolding drop_stale remove_pending_deletion
  drop_stale-KeepsQueue held [] s = same s
  drop_stale-KeepsQueue held ((hash, t) ∷ rows) s = elim (Bool-cases (contains held hash)) [
    | inl e ↦ rw e (drop_stale-KeepsQueue held rows s)
    | inr e ↦ rw e (
        then_keeps (record { queue = refl; local = refl })
          (drop_stale-KeepsQueue held rows (remove_pending_deletion s hash)))
  ]

  pub sweep-KeepsQueue :
      (s : Store J) (now grace_seconds : ℕ) (sighted : Bytes → ℕ) (force : Bool)
      → KeepsQueue s (sweep_orphaned_blocks s now grace_seconds sighted force).store
  unfolding sweep_orphaned_blocks
  sweep-KeepsQueue s now grace_seconds sighted force =
      then_keeps (sweep_blocks-KeepsQueue _ force _ _) (drop_stale-KeepsQueue _ _ _)
