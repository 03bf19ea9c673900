-- ===== src/Hashing.antt =====
-- src/hashing.rs: shard ids and the key ranges of prefixes.
pub mod Utf8
pub mod Range
pub mod Panics
pub mod Shards
mod Examples
use Prim.Native.Nat.{bit_and}
use mathlib.Core.List.{reverse}
use shardscape.Base.{
  ℕ, suc, ◌+◌, ◌-◌, Bytes, Option, none, some, [], ◌∷◌, get_or, ltb, if◌then◌else◌, Result, ok, err,
  panic, ◌>>=◌,
}
use Utf8.{is_utf8}

abbrev pub num_shards : ℕ
num_shards = 64

-- `blake3` is the hash crate's function, from the bytes hashed to the digest.
unfoldable pub compute_shard_id : (Bytes → Bytes) → Bytes → ℕ
compute_shard_id blake3 key = bit_and (get_or (blake3 key) 0 0) (num_shards - 1)

-- The loop of `increment_prefix`; the list has the last byte first.
unfoldable pub increment_last : Bytes → Option Bytes
increment_last [] = none
increment_last (b ∷ bytes) = if ltb b 0xff then some ((b + 1) ∷ bytes) else increment_last bytes

-- `String::from_utf8(bytes).expect(…)`
unfoldable pub expect_utf8 : Bytes → Result Bytes
unfolding is_utf8
expect_utf8 bytes = if is_utf8 bytes then ok bytes else err panic

unfoldable pub increment_prefix : Bytes → Result (Option Bytes)
unfolding increment_last expect_utf8
increment_prefix prefix = elim (increment_last (reverse prefix)) [
  | none ↦ ok none
  | some bytes ↦ (expect_utf8 (reverse bytes) >>= λ s. ok (some s))
]

unfoldable pub prefix_key_range : Bytes → Result (Bytes × Option Bytes)
unfolding increment_prefix
prefix_key_range prefix = increment_prefix prefix >>= λ upper. ok (prefix, upper)
