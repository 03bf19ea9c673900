-- ===== src/Disk/Examples.antt =====
-- Runs of the disk guard, and its theorems at concrete inputs.
use shardscape.Base.{◌≡◌, refl, true, some}
use shardscape.Disk.{DiskGuard, low_free_space, check, writes_allowed, disabled}

abbrev full : DiskGuard
full = record { min_free_bytes = 1000; free = 0; max_bytes = 100; local_usage = 200 }

free_space_first : check full ≡ some low_free_space
unfolding check
free_space_first = refl

disabled_allows : writes_allowed disabled ≡ true
unfolding writes_allowed
disabled_allows = refl
