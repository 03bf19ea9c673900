-- ===== src/Sweep/Live.antt =====
-- What the sweep never removes.
use shardscape.Base.{
  ℕ, ℤ, ◌≡◌, refl, ap, subst, sym, ◌∙◌, Bool, true, false, List, [], ◌∷◌, ◌==◌, Bytes, Option, none,
  some, any_iff, In, In-append_left, In-append_right, list_eq, nat_eq, pair_eq, eq_refl, Bool-cases,
  Option-cases, inl, inr, arith,
}
use shardscape.Store.{Store, ObjectRow}
use shardscape.Store.Objects.{get_object, live_row, decode_blocks}
use shardscape.Store.Blocks.{get_local_block_fid, delete_local_block}
use shardscape.Store.Gc.{
  object_blocks, part_blocks, compute_live_block_set, add_pending_deletion, remove_pending_deletion,
}
use shardscape.Sweep.{
  Swept, Marked, mark, contains, reap, first_sighting, sweep_block, sweep_blocks, drop_stale,
  sweep_orphaned_blocks,
}
use shardscape.Sweep.Reaped.{sweep-location}
use shardscape.Table.{Table, lookup}

contains-In : (h : Bytes) (hashes : List Bytes) → In h hashes → contains hashes h ≡ true
contains-In h hashes m = (any_iff (λ x. x == h) hashes).1 (h, m, eq_refl h)

object_blocks-In :
    (k : Bytes × Bytes) (row : ObjectRow) (h : Bytes) (objects : Table (Bytes × Bytes) ObjectRow)
    → lookup k objects ≡ some row
    → row.deleted ≡ false
    → In h (decode_blocks row.blocks)
    → In h (object_blocks objects)
unfolding lookup object_blocks
object_blocks-In k row h [] e live m = absurd (ground arith)
object_blocks-In k row h ((j, r) ∷ rows) e live m = elim (Bool-cases (j == k)) [
  | inl same ↦
      let found : some r ≡ some row = rw same at e in
      let q : r ≡ row = cc (found) in
      let present : r.deleted ≡ false = ap (λ (x : ObjectRow). x.deleted) q ∙ live in
      rw present (
        In-append_left h (decode_blocks r.blocks) (object_blocks rows)
          (subst (λ (x : ObjectRow). In h (decode_blocks x.blocks)) (sym q) m))
  | inr other ↦
      let found : lookup k rows ≡ some row = rw other at e in
      let rest = object_blocks-In k row h rows found live m in
      elim (Bool-cases r.deleted) [
        | inl dead ↦ rw dead rest
        | inr present ↦
            rw present (In-append_right h (decode_blocks r.blocks) (object_blocks rows) rest)
      ]
]

live_row-In :
    (o : Option ObjectRow) (blocks : List Bytes) (size : ℤ) (etag : Bytes)
    → live_row o ≡ some (blocks, size, etag)
    → (row : ObjectRow) × (o ≡ some row)
      × (row.deleted ≡ false)
      × (decode_blocks row.blocks ≡ blocks)
unfolding live_row
live_row-In none blocks size etag h = absurd (ground arith)
live_row-In (some row) blocks size etag h = (row, refl, ground arith, ground arith)

module _ {J : Type 0} where
  reap-objects : (hash : Bytes) (w : Swept J) → (reap hash w).store.objects ≡ w.store.objects
  unfolding reap remove_pending_deletion delete_local_block
  reap-objects hash w = elim (Option-cases (get_local_block_fid w.store hash)) [
    | inl e ↦ rw e refl
    | inr (fid, e) ↦ elim (Bool-cases (delete_local_block w.store hash).0) [
      | inl gone ↦ rw (e, gone) refl
      | inr kept ↦ rw (e, kept) refl
    ]
  ]

  sweep_block-objects :
      (m : Marked) (force : Bool) (hash : Bytes) (w : Swept J)
      → (sweep_block m force hash w).store.objects ≡ w.store.objects
  unfolding sweep_block first_sighting add_pending_deletion remove_pending_deletion
  sweep_block-objects m force hash w =
      ground (arith, reap-objects hash w, reap-objects hash (first_sighting m hash w))

  sweep_blocks-objects :
      (m : Marked) (force : Bool) (hashes : List Bytes) (w : Swept J)
      → (sweep_blocks m force hashes w).store.objects ≡ w.store.objects
  unfolding sweep_blocks
  sweep_blocks-objects m force [] w = refl
  sweep_blocks-objects m force (x ∷ xs) w =
      sweep_blocks-objects m force xs (sweep_block m force x w) ∙ sweep_block-objects m force x w

  drop_stale-objects :
      (held : List Bytes) (rows : Table Bytes ℤ) (s : Store J)
      → (drop_stale held rows s).objects ≡ s.objects
  unfolding drop_stale remove_pending_deletion
  drop_stale-objects held [] s = refl
  drop_stale-objects held ((hash, t) ∷ rows) s = ground (
    arith,
    drop_stale-objects held rows s,
    drop_stale-objects held rows (remove_pending_deletion s hash),
  )

  get_object-live :
      (s : Store J) (bucket key : Bytes) (blocks : List Bytes) (size : ℤ) (etag h : Bytes)
      → get_object s bucket key ≡ some (blocks, size, etag)
      → In h blocks
      → In h (compute_live_block_set s)
  unfolding get_object compute_live_block_set
  get_object-live s bucket key blocks size etag h read m =
      let (row, found, live, decoded) =
        live_row-In (lookup (bucket, key) s.objects) blocks size etag read in
      In-append_left h (object_blocks s.objects) (part_blocks s.parts)
        (object_blocks-In (bucket, key) row h s.objects found live (subst (In h) (sym decoded) m))

  sweep-objects :
      (s : Store J) (now grace_seconds : ℕ) (sighted : Bytes → ℕ) (force : Bool)
      → (sweep_orphaned_blocks s now grace_seconds sighted force).store.objects ≡ s.objects
  unfolding sweep_orphaned_blocks
  sweep-objects s now grace_seconds sighted force =
      drop_stale-objects _ _ _
      ∙ sweep_blocks-objects _ force _ (record { store = s; deletions = [] })

  -- An object that reads before a sweep reads the same after it, and the record of every site's copy of each of its blocks is unchanged, forced or not.
  pub object_survives :
      (s : Store J) (now grace_seconds : ℕ) (sighted : Bytes → ℕ) (force : Bool)
      (bucket key : Bytes) (blocks : List Bytes) (size : ℤ) (etag h site : Bytes)
      → get_object s bucket key ≡ some (blocks, size, etag)
      → In h blocks
      → (get_object (sweep_orphaned_blocks s now grace_seconds sighted force).store bucket key
          ≡ some (blocks, size, etag))
        × (lookup
              (h, site)
              (sweep_orphaned_blocks s now grace_seconds sighted force).store.block_locations
            ≡ lookup (h, site) s.block_locations)
  unfolding mark get_object
  object_survives s now grace_seconds sighted force bucket key blocks size etag h site read m =
      let live =
        contains-In h (compute_live_block_set s)
          (get_object-live s bucket key blocks size etag h read m) in
      (
        ap (λ o. live_row (lookup (bucket, key) o))
              (sweep-objects s now grace_seconds sighted force)
            ∙ read,
        sweep-location s now grace_seconds sighted force h site ∙ ground (arith, live),
      )
