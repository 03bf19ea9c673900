-- ===== src/Store/Objects.antt =====
-- Objects and the fact log's appends of src/store.rs.
use shardscape.Base.{
  ℕ, ℤ, pos, Bool, true, false, List, [], ◌∷◌, ◌++◌, Bytes, text, Option, none, some, length, take,
  drop, suc, zero, leb, if◌then◌else◌, map, pair_eq, list_eq, nat_eq,
}
use shardscape.Hashing.{compute_shard_id}
use shardscape.Store.{
  Store, Crates, Fact, ObjectRow, object_put, object_delete, block_announce, user_put, now_micros,
}
use shardscape.Table.{lookup}
use shardscape.Table.Lww.{put}

-- `encode_blocks` and `decode_blocks`: a manifest is the concatenation of its 32-byte hashes, and a
-- stray tail is dropped.
unfoldable pub encode_blocks : List Bytes → Bytes
encode_blocks [] = []
encode_blocks (b ∷ bs) = b ++ encode_blocks bs

-- `chunks_exact(32)`; a chunk is taken for each unit of fuel.
unfoldable pub chunks_exact : ℕ → Bytes → List Bytes
chunks_exact zero raw = []
chunks_exact (suc fuel) raw =
    let rest = chunks_exact fuel (drop 32 raw) in
    if leb 32 (length raw) then take 32 raw ∷ rest else []

unfoldable pub decode_blocks : Bytes → List Bytes
decode_blocks raw = chunks_exact (length raw) raw

unfoldable pub kind_str : {V : Type 0} → Fact V → Bytes
kind_str (object_put bucket key blocks size etag) = text "object_put"
kind_str (object_delete bucket key) = text "object_delete"
kind_str (block_announce hash location_id fid size) = text "block_announce"
kind_str (user_put access_key secret_key policy) = text "user_put"

module _ {V J : Type 0} (crates : Crates V J) where
  -- `append_fact_tx`: INSERT INTO fact_log, under the next number.
  unfoldable pub append_fact_tx : Store J → ℤ → Fact V → Store J
  append_fact_tx s ts fact = record s {
    fact_log =
        s.fact_log
        ++ (record {
          seq = suc s.fact_seq;
          ts = ts;
          kind = kind_str fact;
          payload = crates.fact_to_string fact;
        }
            ∷ []);
    fact_seq = suc s.fact_seq;
  }

-- `put_object_row`: an upsert that wins only with a newer `updated_at`.
unfoldable pub put_object_row :
    {J : Type 0} → Store J → Bytes → Bytes → Bytes → ℤ → Bytes → ℕ → Bool → ℤ → Store J
put_object_row s bucket key encoded_blocks size etag shard_id deleted ts = record s {
  objects =
      put (λ (r : ObjectRow). r.updated_at) (bucket, key)
        (record {
          blocks = encoded_blocks;
          size = size;
          etag = etag;
          shard_id = shard_id;
          updated_at = ts;
          deleted = deleted;
        })
        s.objects;
}

-- WHERE deleted = 0, of the row that a key has.
unfoldable pub live_row : Option ObjectRow → Option (List Bytes × ℤ × Bytes)
live_row none = none
live_row (some r) = if r.deleted then none else some (decode_blocks r.blocks, r.size, r.etag)

unfoldable pub get_object : {J : Type 0} → Store J → Bytes → Bytes → Option (List Bytes × ℤ × Bytes)
get_object s bucket key = live_row (lookup (bucket, key) s.objects)

module _ {V J : Type 0} (crates : Crates V J) where
  unfoldable pub insert_object : Store J → ℕ → Bytes → ℕ → Bytes → List Bytes → ℤ → Bytes → Store J
  insert_object s system bucket shard_id key blocks size etag =
      let ts = now_micros s system in
      let stored = put_object_row s bucket key (encode_blocks blocks) size etag shard_id false ts in
      append_fact_tx crates stored ts
        (object_put bucket key (map crates.hex_encode blocks) size etag)

  unfoldable pub delete_object : Store J → ℕ → Bytes → Bytes → Store J
  delete_object s system bucket key =
      let ts = now_micros s system in
      let shard_id = compute_shard_id crates.blake3 key in
      let stored = put_object_row s bucket key [] (pos 0) [] shard_id true ts in
      append_fact_tx crates stored ts (object_delete bucket key)
