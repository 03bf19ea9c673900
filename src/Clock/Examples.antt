-- ===== src/Clock/Examples.antt =====
-- The clock on concrete readings.
use shardscape.Base.{to_i64, ◌+ℤ◌, ◌-ℤ◌, div_ℤ, scale_ℤ, ◌≡◌, refl, pos, negsuc}
use shardscape.Clock.{ClusterClock, new, now_micros, refresh_clock_offset}

abbrev behind_clock : ClusterClock
behind_clock = record { offset_ms = negsuc 4 }

now_micros_test : now_micros behind_clock 7000 ≡ pos 2000
unfolding now_micros to_i64 ◌+ℤ◌ scale_ℤ
now_micros_test = refl

refresh_clock_offset_test :
    refresh_clock_offset (pos 9000000) 4000 8000000 behind_clock ≡ new (pos 1002)
unfolding refresh_clock_offset new to_i64 ◌-ℤ◌ div_ℤ ◌+ℤ◌
refresh_clock_offset_test = refl

refresh_clock_offset_small_test :
    refresh_clock_offset (pos 8004000) 2000 8000000 behind_clock ≡ behind_clock
unfolding refresh_clock_offset new to_i64 ◌-ℤ◌ div_ℤ ◌+ℤ◌
refresh_clock_offset_small_test = refl
