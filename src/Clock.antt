-- ===== src/Clock.antt =====
-- The cluster clock of src/clock.rs and its adjustment in src/main.rs. The system's time is an argument,
-- in microseconds since the epoch; the arithmetic is that of `i64`, which wraps around.
pub mod Drift
mod Examples
use shardscape.Base.{
  ℕ, ◌/◌, ℤ, pos, ◌+ℤ◌, ◌-ℤ◌, scale_ℤ, div_ℤ, to_i64, ltb_ℤ, pos_part, neg_part, ltb, ◌+◌,
  if◌then◌else◌,
}

pub record ClusterClock : Type 0 where
  pub offset_ms : ℤ

unfoldable pub new : ℤ → ClusterClock
new offset_ms = record { offset_ms = offset_ms }

unfoldable pub set_offset : ℤ → ClusterClock → ClusterClock
set_offset offset_ms clock = record clock { offset_ms = offset_ms }

-- `system` is `SystemTime::now()` since the epoch, as a number of microseconds.
unfoldable pub now_micros : ClusterClock → ℕ → ℤ
now_micros clock system = to_i64 (to_i64 (pos system) +ℤ to_i64 (scale_ℤ clock.offset_ms 1000))

-- The offset that a reading of the leader's clock gives: half of the round trip is added to it.
unfoldable pub offset_of : ℤ → ℕ → ℕ → ℤ
offset_of cluster_time_micros rtt_micros system =
    let adjusted_leader_time = to_i64 (cluster_time_micros +ℤ to_i64 (pos (rtt_micros / 2))) in
    let offset_micros = to_i64 (adjusted_leader_time -ℤ to_i64 (pos system)) in
    div_ℤ offset_micros 1000

-- `refresh_clock_offset`, after the request: a drift of at most 10 ms is left alone.
unfoldable pub refresh_clock_offset : ℤ → ℕ → ℕ → ClusterClock → ClusterClock
unfolding offset_of set_offset
refresh_clock_offset cluster_time_micros rtt_micros system clock =
    let offset_ms = offset_of cluster_time_micros rtt_micros system in
    let drift = to_i64 (offset_ms -ℤ clock.offset_ms) in
    if ltb 10 (pos_part drift + neg_part drift) then set_offset offset_ms clock else clock
