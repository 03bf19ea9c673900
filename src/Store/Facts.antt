-- ===== src/Store/Facts.antt =====
-- The fact log and the application of a peer's facts, of src/store.rs.
use shardscape.Base.{
  ℕ, ℤ, pos, negsuc, Bool, true, false, ◌&&◌, not, List, [], ◌∷◌, ◌==◌, Bytes, Option, none, some,
  Result, ok, or_err, bad_json, bad_hex, ◌>>=◌, collect, keep, take, ltb_ℤ, if◌then◌else◌, pair_eq,
  list_eq, nat_eq,
}
use shardscape.Hashing.{compute_shard_id}
use shardscape.Store.{
  Store, Crates, FactRecord, FactRow, object_put, object_delete, block_announce, user_put,
}
use shardscape.Store.Objects.{put_object_row, encode_blocks}
use shardscape.Store.Blocks.{upsert_block_location}
use shardscape.Store.Queue.{enqueue_replication}
use shardscape.Store.Users.{put_user_row}
use shardscape.Table.{lookup, upsert}

-- LIMIT; a negative one is none.
abbrev pub limited : {A : Type 0} → ℤ → List A → List A
limited (pos n) rows = take n rows
limited (negsuc n) rows = rows

abbrev pub is_none : {A : Type 0} → Option A → Bool
is_none none = true
is_none (some a) = false

abbrev pub cursor_or_zero : Option ℤ → ℤ
cursor_or_zero none = pos 0
cursor_or_zero (some seq) = seq

module _ {J : Type 0} where
  unfoldable pub get_cursor : Store J → Bytes → ℤ
  get_cursor s peer = cursor_or_zero (lookup peer s.replication_cursors)

  unfoldable pub set_cursor : Store J → Bytes → ℤ → Store J
  set_cursor s peer last_seq = record s {
    replication_cursors =
        upsert peer last_seq (λ old. if ltb_ℤ old last_seq then last_seq else old)
          s.replication_cursors;
  }

module _ {V J : Type 0} (crates : Crates V J) where
  unfoldable pub record_of : FactRow J → Option (FactRecord V)
  record_of row = elim (crates.fact_from_str row.payload) [
    | none ↦ none
    | some fact ↦ some (record { seq = pos row.seq; ts = row.ts; fact = fact })
  ]

  -- The log stands in the order of `seq`, its primary key.
  unfoldable pub facts_since : Store J → ℤ → ℤ → Result (List (FactRecord V))
  facts_since s after limit =
      let rows = limited limit (keep (λ (row : FactRow J). ltb_ℤ after (pos row.seq)) s.fact_log) in
      or_err (collect record_of rows) bad_json

  -- The block that a peer announces is queued for this site unless it is here.
  unfoldable pub apply_announce : Store J → ℕ → ℤ → Bytes → Bytes → Bytes → ℤ → Store J
  apply_announce s system ts hash location_id fid size =
      let announced = upsert_block_location s hash location_id fid size ts in
      let have_local = lookup (hash, s.local_location_id) announced.block_locations in
      let need_pull = is_none have_local && not (location_id == s.local_location_id) in
      if need_pull
      then enqueue_replication announced system hash (s.local_location_id ∷ [])
      else announced

  unfoldable pub apply_fact : Store J → ℕ → FactRecord V → Result (Store J)
  apply_fact s system rec = elim (rec.fact) [
    | object_put bucket key blocks size etag ↦
        or_err (collect crates.hex_decode blocks) bad_hex >>= λ decoded. ok (
          put_object_row s bucket key (encode_blocks decoded) size etag
            (compute_shard_id crates.blake3 key) false rec.ts)
    | object_delete bucket key ↦
        ok (
          put_object_row s bucket key [] (pos 0) [] (compute_shard_id crates.blake3 key) true
            rec.ts)
    | block_announce hash location_id fid size ↦
        or_err (crates.hex_decode hash) bad_hex >>= λ hash_b.
        or_err (crates.hex_decode fid) bad_hex >>= λ fid_b.
        ok (apply_announce s system rec.ts hash_b location_id fid_b size)
    | user_put access_key secret_key policy ↦
        ok (put_user_row s access_key secret_key (crates.value_to_string policy) rec.ts)
  ]
