-- ===== src/Hashing/Shards.antt =====
-- Shard ids are shard ids.
use Prim.Native.Nat.{bit_and}
use shardscape.Base.{
  ℕ, zero, suc, ◌<◌, ◌≡◌, refl, Bool, true, ◌&&◌, Bytes, IsBytes, [], ◌∷◌, get_or, arith, nat_beq,
  nat_beq_iff, ◌%◌,
}
use shardscape.Hashing.{compute_shard_id, num_shards}

-- The mask and the remainder agree on each of the numbers below a bound, by running through them.
agree_below : ℕ → Bool
agree_below zero = true
agree_below (suc n) = nat_beq (bit_and n 63) (n % 64) && agree_below n

mask_below : (bound x : ℕ) → x < bound → agree_below bound ≡ true → bit_and x 63 ≡ x % 64
unfolding agree_below
mask_below zero x lt h = absurd (omega arith)
mask_below (suc bound) x lt h =
    ground (arith, nat_beq_iff (bit_and bound 63) (bound % 64), mask_below bound x)

mask_lem : (x : ℕ) → x < 256 → bit_and x 63 ≡ x % 64
unfolding agree_below
mask_lem x h = mask_below 256 x h refl

first-lt : (digest : Bytes) → IsBytes digest → get_or digest 0 0 < 256
first-lt [] h = omega arith
first-lt (b ∷ digest) h = h.0

-- With a digest of bytes, the shard id is the first of them modulo the number of shards.
pub compute_shard_id-eq-mod :
    (blake3 : Bytes → Bytes) (key : Bytes)
    → IsBytes (blake3 key)
    → (compute_shard_id blake3 key ≡ get_or (blake3 key) 0 0 % num_shards)
      × (compute_shard_id blake3 key < num_shards)
unfolding compute_shard_id
compute_shard_id-eq-mod blake3 key h =
    let e = mask_lem (get_or (blake3 key) 0 0) (first-lt (blake3 key) h) in (e, rw e (omega arith))
