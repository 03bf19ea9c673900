-- ===== src/Store/Writes.antt =====
-- The rows that a fact of src/store.rs writes, and that `apply_fact` writes them.
use shardscape.Base.{
  ℕ, ℤ, pos, ◌≡◌, true, false, List, [], ◌∷◌, Bytes, none, some, ok, collect, pair_eq, list_eq,
  nat_eq, arith,
}
use shardscape.Hashing.{compute_shard_id}
use shardscape.Store.{
  Store, Crates, Fact, ObjectRow, BlockRow, LocationRow, UserRow, object_put, object_delete,
  block_announce, user_put,
}
use shardscape.Store.Objects.{put_object_row, encode_blocks}
use shardscape.Store.Blocks.{upsert_block_location}
use shardscape.Store.Queue.{enqueue_replication}
use shardscape.Store.Users.{put_user_row}
use shardscape.Store.Facts.{apply_fact, apply_announce}
use shardscape.Table.Lww.{put_all}

module _ {V J : Type 0} (crates : Crates V J) where
  -- The rows that a fact writes.
  unfoldable pub object_writes : ℤ → Fact V → List ((Bytes × Bytes) × ObjectRow)
  object_writes ts (object_put bucket key blocks size etag) =
      elim (collect crates.hex_decode blocks) [
        | none ↦ []
        | some decoded ↦
            (
              (bucket, key),
              record {
                blocks = encode_blocks decoded;
                size = size;
                etag = etag;
                shard_id = compute_shard_id crates.blake3 key;
                updated_at = ts;
                deleted = false;
              },
            )
            ∷ []
      ]
  object_writes ts (object_delete bucket key) =
      (
        (bucket, key),
        record {
          blocks = [];
          size = pos 0;
          etag = [];
          shard_id = compute_shard_id crates.blake3 key;
          updated_at = ts;
          deleted = true;
        },
      )
      ∷ []
  object_writes ts _ = []

  unfoldable pub user_writes : ℤ → Fact V → List (Bytes × UserRow J)
  user_writes ts (user_put access_key secret_key policy) =
      (
        access_key,
        record { secret_key = secret_key; policy = crates.value_to_string policy; updated_at = ts },
      )
      ∷ []
  user_writes ts _ = []

  unfoldable pub location_writes : ℤ → Fact V → List ((Bytes × Bytes) × LocationRow)
  location_writes ts (block_announce hash location_id fid size) = elim (crates.hex_decode hash) [
    | none ↦ []
    | some hash_b ↦ elim (crates.hex_decode fid) [
      | none ↦ []
      | some fid_b ↦ ((hash_b, location_id), record { fid = fid_b; updated_at = ts }) ∷ []
    ]
  ]
  location_writes ts _ = []

  unfoldable pub block_writes : ℤ → Fact V → List (Bytes × BlockRow)
  block_writes ts (block_announce hash location_id fid size) = elim (crates.hex_decode hash) [
    | none ↦ []
    | some hash_b ↦ elim (crates.hex_decode fid) [
      | none ↦ []
      | some fid_b ↦ (hash_b, record { size = size; updated_at = ts }) ∷ []
    ]
  ]
  block_writes ts _ = []

  pub apply_fact-objects :
      (s t : Store J) (system : ℕ) (seq ts : ℤ) (fact : Fact V)
      → apply_fact crates s system (record { seq = seq; ts = ts; fact = fact }) ≡ ok t
      → t.objects ≡ put_all (λ (r : ObjectRow). r.updated_at) (object_writes ts fact) s.objects
  unfolding apply_fact apply_announce object_writes put_all put_object_row put_user_row
      enqueue_replication upsert_block_location
  apply_fact-objects s t system seq ts (object_put bucket key blocks size etag) h = ground arith
  apply_fact-objects s t system seq ts (object_delete bucket key) h = ground arith
  apply_fact-objects s t system seq ts (block_announce hash location_id fid size) h = ground arith
  apply_fact-objects s t system seq ts (user_put access_key secret_key policy) h = ground arith

  pub apply_fact-users :
      (s t : Store J) (system : ℕ) (seq ts : ℤ) (fact : Fact V)
      → apply_fact crates s system (record { seq = seq; ts = ts; fact = fact }) ≡ ok t
      → t.users ≡ put_all (λ (r : UserRow J). r.updated_at) (user_writes ts fact) s.users
  unfolding apply_fact apply_announce user_writes put_all put_object_row put_user_row
      enqueue_replication upsert_block_location
  apply_fact-users s t system seq ts (object_put bucket key blocks size etag) h = ground arith
  apply_fact-users s t system seq ts (object_delete bucket key) h = ground arith
  apply_fact-users s t system seq ts (block_announce hash location_id fid size) h = ground arith
  apply_fact-users s t system seq ts (user_put access_key secret_key policy) h = ground arith

  pub apply_fact-locations :
      (s t : Store J) (system : ℕ) (seq ts : ℤ) (fact : Fact V)
      → apply_fact crates s system (record { seq = seq; ts = ts; fact = fact }) ≡ ok t
      → t.block_locations
        ≡ put_all (λ (r : LocationRow). r.updated_at) (location_writes ts fact) s.block_locations
  unfolding apply_fact apply_announce location_writes put_all put_object_row put_user_row
      enqueue_replication upsert_block_location
  apply_fact-locations s t system seq ts (object_put bucket key blocks size etag) h = ground arith
  apply_fact-locations s t system seq ts (object_delete bucket key) h = ground arith
  apply_fact-locations s t system seq ts (block_announce hash location_id fid size) h = ground arith
  apply_fact-locations s t system seq ts (user_put access_key secret_key policy) h = ground arith

  pub apply_fact-blocks :
      (s t : Store J) (system : ℕ) (seq ts : ℤ) (fact : Fact V)
      → apply_fact crates s system (record { seq = seq; ts = ts; fact = fact }) ≡ ok t
      → t.blocks ≡ put_all (λ (r : BlockRow). r.updated_at) (block_writes ts fact) s.blocks
  unfolding apply_fact apply_announce block_writes put_all put_object_row put_user_row
      enqueue_replication upsert_block_location
  apply_fact-blocks s t system seq ts (object_put bucket key blocks size etag) h = ground arith
  apply_fact-blocks s t system seq ts (object_delete bucket key) h = ground arith
  apply_fact-blocks s t system seq ts (block_announce hash location_id fid size) h = ground arith
  apply_fact-blocks s t system seq ts (user_put access_key secret_key policy) h = ground arith
