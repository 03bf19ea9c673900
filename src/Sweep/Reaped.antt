-- ===== src/Sweep/Reaped.antt =====
-- What the sweep removes, exactly.
use shardscape.Base.{
  ℕ, ℤ, pos, ◌*◌, ◌+ℤ◌, ltb_ℤ, ◌≡◌, refl, ap, ◌∙◌, Bool, true, not, ◌&&◌, ◌||◌, List, [], ◌∷◌, ◌==◌,
  Bytes, Option, none, some, ◌⊎◌, if◌then◌else◌, list_eq, nat_eq, pair_eq, pair_beq, eq_iff,
  Bool-cases, Option-cases, inl, inr, arith,
}
use shardscape.Store.{Store, LocationRow}
use shardscape.Store.Blocks.{
  list_local_block_hashes, hashes_at, get_local_block_fid, delete_local_block,
}
use shardscape.Store.Locations.{no_fid}
use shardscape.Store.Gc.{add_pending_deletion, remove_pending_deletion}
use shardscape.Sweep.{
  Swept, Marked, mark, contains, reap, first_sighting, sweep_block, sweep_blocks, drop_stale,
  sweep_orphaned_blocks,
}
use shardscape.Table.{Table, lookup, lookup-delete_where}

abbrev pub reap_at : Marked → Option ℤ → ℤ
reap_at m none = m.now +ℤ pos (m.grace_seconds * 1000)
reap_at m (some t) = t

-- An orphan whose time has come, or that is forced.
abbrev pub reaped : Marked → Bool → Bytes → Bool
reaped m force hash =
    not (contains m.live hash) && (force || not (ltb_ℤ m.now (reap_at m (lookup hash m.pending))))

none_where :
    (hash l h site : Bytes) (t : Table (Bytes × Bytes) LocationRow)
    → lookup (hash, l) t ≡ none
    → lookup (h, site) t ≡ (if (h == hash) && (site == l) then none else lookup (h, site) t)
unfolding pair_beq
none_where hash l h site t e = elim (Bool-cases ((h == hash) && (site == l))) [
  | inl same ↦
      let q : (h, site) ≡ (hash, l) = (eq_iff {A = Bytes × Bytes} (h, site) (hash, l)).0 same in
      rw same (ap (λ k. lookup k t) q ∙ e)
  | inr other ↦ rw other refl
]

contains-hashes_at :
    (site h : Bytes) (t : Table (Bytes × Bytes) LocationRow)
    → (contains (hashes_at site t) h ≡ true) ⊎ (lookup (h, site) t ≡ none)
unfolding hashes_at lookup pair_beq
contains-hashes_at site h [] = inr refl
contains-hashes_at site h (((x, l), row) ∷ rows) = ground (arith, contains-hashes_at site h rows)

module _ {J : Type 0} where
  abbrev site_of : Swept J → Bytes
  site_of w = w.store.local_location_id

  abbrev location : Bytes → Bytes → Swept J → Option LocationRow
  location hash site w = lookup (hash, site) w.store.block_locations

  location-delete_local_block :
      (s : Store J) (hash h site : Bytes)
      → lookup (h, site) (delete_local_block s hash).1.block_locations ≡ (
          if (h == hash) && (site == s.local_location_id)
          then none
          else lookup (h, site) s.block_locations)
  unfolding delete_local_block pair_beq
  location-delete_local_block s hash h site =
      lookup-delete_where (λ (j : Bytes × Bytes). j == (hash, s.local_location_id)) (h, site)
        s.block_locations

  -- Reaping removes the site's own row of the block, and no other.
  reap-location :
      (hash h site : Bytes) (w : Swept J)
      → location h site (reap hash w)
        ≡ (if (h == hash) && (site == site_of w) then none else location h site w)
  unfolding reap remove_pending_deletion
  reap-location hash h site w = elim (Option-cases (get_local_block_fid w.store hash)) [
    | inl e ↦
        rw e (none_where hash (site_of w) h site w.store.block_locations (no_fid w.store hash e))
    | inr (fid, e) ↦ elim (Bool-cases (delete_local_block w.store hash).0) [
      | inl gone ↦ rw (e, gone) (location-delete_local_block w.store hash h site)
      | inr kept ↦ rw (e, kept) (location-delete_local_block w.store hash h site)
    ]
  ]

  reap-site : (hash : Bytes) (w : Swept J) → site_of (reap hash w) ≡ site_of w
  unfolding reap remove_pending_deletion delete_local_block
  reap-site hash w = elim (Option-cases (get_local_block_fid w.store hash)) [
    | inl e ↦ rw e refl
    | inr (fid, e) ↦ elim (Bool-cases (delete_local_block w.store hash).0) [
      | inl gone ↦ rw (e, gone) refl
      | inr kept ↦ rw (e, kept) refl
    ]
  ]

  sweep_block-location :
      (m : Marked) (force : Bool) (hash h site : Bytes) (w : Swept J)
      → location h site (sweep_block m force hash w) ≡ (
          if (h == hash) && (site == site_of w) && reaped m force hash
          then none
          else location h site w)
  unfolding sweep_block first_sighting add_pending_deletion remove_pending_deletion
  sweep_block-location m force hash h site w =
      ground
        (arith, reap-location hash h site w, reap-location hash h site (first_sighting m hash w))

  sweep_block-site :
      (m : Marked) (force : Bool) (hash : Bytes) (w : Swept J)
      → site_of (sweep_block m force hash w) ≡ site_of w
  unfolding sweep_block first_sighting add_pending_deletion remove_pending_deletion
  sweep_block-site m force hash w =
      ground (arith, reap-site hash w, reap-site hash (first_sighting m hash w))

  sweep_blocks-location :
      (m : Marked) (force : Bool) (hashes : List Bytes) (h site : Bytes) (w : Swept J)
      → location h site (sweep_blocks m force hashes w) ≡ (
          if contains hashes h && (site == site_of w) && reaped m force h
          then none
          else location h site w)
  unfolding sweep_blocks
  sweep_blocks-location m force [] h site w = refl
  sweep_blocks-location m force (x ∷ xs) h site w = ground (
    arith,
    sweep_blocks-location m force xs h site (sweep_block m force x w),
    sweep_block-location m force x h site w,
    sweep_block-site m force x w,
    eq_iff x h,
    eq_iff h x,
    ap (reaped m force) {x = x} {y = h},
  )

  drop_stale-locations :
      (held : List Bytes) (rows : Table Bytes ℤ) (s : Store J)
      → (drop_stale held rows s).block_locations ≡ s.block_locations
  unfolding drop_stale remove_pending_deletion
  drop_stale-locations held [] s = refl
  drop_stale-locations held ((hash, t) ∷ rows) s = ground (
    arith,
    drop_stale-locations held rows s,
    drop_stale-locations held rows (remove_pending_deletion s hash),
  )

  -- A sweep removes a row exactly where it is this site's own row of an orphan that is due: the block is in no manifest, and the sweep is forced, or the time recorded at the first sighting has come. No other row of any site changes.
  pub sweep-location :
      (s : Store J) (now grace_seconds : ℕ) (sighted : Bytes → ℕ) (force : Bool) (h site : Bytes)
      → lookup
          (h, site)
          (sweep_orphaned_blocks s now grace_seconds sighted force).store.block_locations
        ≡ (if (site == s.local_location_id) && reaped (mark s now grace_seconds sighted) force h
            then none
            else lookup (h, site) s.block_locations)
  unfolding sweep_orphaned_blocks list_local_block_hashes
  sweep-location s now grace_seconds sighted force h site =
      let m = mark s now grace_seconds sighted in
      let held = hashes_at s.local_location_id s.block_locations in
      let start : Swept J = record { store = s; deletions = [] } in
      let w = sweep_blocks m force held start in
      let row_of = λ (l : Bytes). lookup (h, l) s.block_locations in
      let held_or_absent = contains-hashes_at s.local_location_id h s.block_locations in
      ap (lookup (h, site)) (drop_stale-locations held m.pending w.store)
      ∙ sweep_blocks-location m force held h site start
      ∙ ground (
        arith,
        held_or_absent,
        eq_iff site s.local_location_id,
        ap row_of {x = site} {y = s.local_location_id},
      )
