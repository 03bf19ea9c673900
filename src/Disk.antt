-- ===== src/Disk.antt =====
-- The disk guard of src/disk.rs. The atomics of the program are read and written one at a time, so the
-- guard is a record of the values that they hold; what `statvfs` says is an argument.
pub mod Check
mod Examples
use shardscape.Base.{
  ℕ, ◌-◌, ◌^◌, Bool, true, false, ◌&&◌, ◌||◌, Option, none, some, ltb, leb, if◌then◌else◌,
}

pub data GuardTrip : Type 0 where
  low_free_space over_quota : GuardTrip

-- A limit of 0 is disabled. The path is only handed on to `statvfs`.
pub record DiskGuard : Type 0 where
  pub min_free_bytes : ℕ
  pub free : ℕ
  pub max_bytes : ℕ
  pub local_usage : ℕ

abbrev pub u64_max : ℕ
u64_max = 2 ^ 64 - 1

abbrev pub disabled : DiskGuard
disabled = record { min_free_bytes = 0; free = u64_max; max_bytes = 0; local_usage = 0 }

-- `none` is a call of `statvfs` that failed: the last reading is kept.
unfoldable pub refresh : Option ℕ → DiskGuard → DiskGuard
refresh none g = g
refresh (some f) g = if ltb 0 g.min_free_bytes then record g { free = f } else g

unfoldable pub set_local_usage : ℕ → DiskGuard → DiskGuard
set_local_usage bytes g = record g { local_usage = bytes }

unfoldable pub free_space_enabled : DiskGuard → Bool
free_space_enabled g = ltb 0 g.min_free_bytes

unfoldable pub quota_enabled : DiskGuard → Bool
quota_enabled g = ltb 0 g.max_bytes

unfoldable pub enabled : DiskGuard → Bool
enabled g = ltb 0 g.min_free_bytes || ltb 0 g.max_bytes

unfoldable pub check : DiskGuard → Option GuardTrip
check g =
    if ltb 0 g.min_free_bytes && ltb g.free g.min_free_bytes
    then some low_free_space
    else if ltb 0 g.max_bytes && leb g.max_bytes g.local_usage
    then some over_quota
    else none

unfoldable pub writes_allowed : DiskGuard → Bool
unfolding check
writes_allowed g = elim (check g) [ none ↦ true | some _ ↦ false ]
