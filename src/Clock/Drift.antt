-- ===== src/Clock/Drift.antt =====
-- The clock within the range of `i64`.
use shardscape.Base.{
  ℕ, ◌*◌, ◌^◌, ◌≤◌, ◌<◌, ◌≡◌, ℤ, pos, negsuc, pos_part, neg_part, ◌+ℤ◌, ◌≤ℤ◌, scale_ℤ, to_i64,
  to_i64_lem, IsI64, +ℤ_parts, arith,
}
use shardscape.Clock.{ClusterClock, now_micros}

-- Readings whose sum with the offset stays inside `i64`: the year is below 146,000 and the offset too.
pub record InRange (clock : ClusterClock) (system : ℕ) : Type 0 where
  pub time : system < 2 ^ 62
  pub ahead : pos_part clock.offset_ms * 1000 < 2 ^ 62
  pub behind : neg_part clock.offset_ms * 1000 < 2 ^ 62

scale_parts :
    (a : ℤ)
    → (pos_part (scale_ℤ a 1000) ≡ pos_part a * 1000)
      × (neg_part (scale_ℤ a 1000) ≡ neg_part a * 1000)
unfolding scale_ℤ
scale_parts (pos n) = (ground arith, ground arith)
scale_parts (negsuc n) = (ground arith, ground arith)

sum-IsI64 :
    (a b : ℤ)
    → pos_part a < 2 ^ 62
    → neg_part a < 2 ^ 62
    → pos_part b < 2 ^ 62
    → neg_part b < 2 ^ 62
    → IsI64 (a +ℤ b)
unfolding ◌+ℤ◌
sum-IsI64 a b h k m n = record { low = ground arith; high = ground arith }

-- In range, the cluster time is the system's time plus the offset, with no wrap-around.
pub now_micros-eq :
    (clock : ClusterClock) (system : ℕ)
    → InRange clock system
    → now_micros clock system ≡ pos system +ℤ scale_ℤ clock.offset_ms 1000
unfolding now_micros
now_micros-eq clock system h =
    let sum = scale_ℤ clock.offset_ms 1000 in
    let p = (scale_parts clock.offset_ms).0 in
    let q = (scale_parts clock.offset_ms).1 in
    let t = h.time in
    let a : pos_part sum < 2 ^ 62 = omega (arith, p, h.ahead) in
    let b : neg_part sum < 2 ^ 62 = omega (arith, q, h.behind) in
    let time : to_i64 (pos system) ≡ pos system =
      to_i64_lem (pos system) (record { low = omega arith; high = omega arith }) in
    let offset : to_i64 sum ≡ sum =
      to_i64_lem sum (record { low = omega arith; high = omega arith }) in
    rw (time, offset)
      (to_i64_lem (pos system +ℤ sum) (sum-IsI64 (pos system) sum t (omega arith) a b))

-- Where neither sum leaves `i64`, a later reading of the system's clock gives no earlier cluster time.
pub now_micros_mono :
    (clock : ClusterClock) (s t : ℕ)
    → InRange clock s
    → InRange clock t
    → s ≤ t
    → now_micros clock s ≤ℤ now_micros clock t
now_micros_mono clock s t h k le =
    let sum = scale_ℤ clock.offset_ms 1000 in
    let p = +ℤ_parts (pos s) sum in
    let q = +ℤ_parts (pos t) sum in
    rw (now_micros-eq clock s h, now_micros-eq clock t k) (omega arith)
