-- ===== src/Disk/Check.antt =====
-- When the guard refuses writes, and how it recovers.
use shardscape.Base.{ℕ, ◌≤◌, ◌<◌, ◌≡◌, ◌↔◌, ◌⊎◌, true, none, some, arith}
use shardscape.Disk.{
  DiskGuard, low_free_space, over_quota, refresh, set_local_usage, check, writes_allowed,
}

-- Writes are allowed exactly when each limit is disabled or kept: at least the reserve is free, and
-- the usage is below the cap. The low-space reason goes first, and a quota trip means that the reserve
-- is kept.
pub check_iff :
    (g : DiskGuard)
    → ((writes_allowed g ≡ true) ↔ (
        ((g.min_free_bytes ≡ 0) ⊎ (g.min_free_bytes ≤ g.free))
        × ((g.max_bytes ≡ 0) ⊎ (g.local_usage < g.max_bytes))))
      × ((check g ≡ some low_free_space) ↔ (g.free < g.min_free_bytes))
      × ((check g ≡ some over_quota) ↔ (
          ((g.min_free_bytes ≡ 0) ⊎ (g.min_free_bytes ≤ g.free))
          × (0 < g.max_bytes)
          × (g.max_bytes ≤ g.local_usage)))
unfolding writes_allowed
check_iff g = ground arith

-- A tripped guard recovers: a reading of enough free space and a usage below the cap allow writes
-- again, and a failed reading leaves the guard as it was.
pub refresh_recovers :
    (g : DiskGuard) (free usage : ℕ)
    → g.min_free_bytes ≤ free
    → (g.max_bytes ≡ 0) ⊎ (usage < g.max_bytes)
    → (writes_allowed (set_local_usage usage (refresh (some free) g)) ≡ true) × (refresh none g ≡ g)
unfolding writes_allowed set_local_usage refresh
refresh_recovers g free usage h k = ground arith
