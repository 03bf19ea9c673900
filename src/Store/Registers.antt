-- ===== src/Store/Registers.antt =====
-- The registers of a store: reading an object after a write of any site.
use shardscape.Base.{
  ℕ, ℤ, pos, ltb_ℤ, ◌≡◌, refl, Bool, true, false, List, [], Bytes, Option, none, some, All, ◌==◌,
  ◌&&◌, pair_beq, if◌then◌else◌, arith, pair_eq, list_eq, nat_eq, Bool-cases, inl, inr,
}
use shardscape.Store.{Store, Crates, ObjectRow, now_micros}
use shardscape.Store.Objects.{
  put_object_row, encode_blocks, decode_blocks, live_row, get_object, insert_object, delete_object,
  append_fact_tx,
}
use shardscape.Store.Manifests.{IsHash, decode_blocks-encode_blocks}
use shardscape.Table.{lookup}
use shardscape.Table.Lww.{newer, lookup-put}

-- The row that a key has, if it is not newer than a time.
abbrev pub wins : ℤ → Option ObjectRow → Bool
wins ts none = true
wins ts (some r) = ltb_ℤ r.updated_at ts

-- What a key reads as after a write of a row with this content at this time.
abbrev pub after_write :
    ℤ → Option (List Bytes × ℤ × Bytes) → Option ObjectRow → Option (List Bytes × ℤ × Bytes)
after_write ts content old = if wins ts old then content else live_row old

pub get_object-put_object_row :
    {J : Type 0} (s : Store J) (bucket key encoded : Bytes) (size : ℤ) (etag : Bytes) (shard_id : ℕ)
    (deleted : Bool) (ts : ℤ) (b k : Bytes)
    → get_object (put_object_row s bucket key encoded size etag shard_id deleted ts) b k ≡ (
        if (bucket == b) && (key == k)
        then after_write ts
            (if deleted then none else some (decode_blocks encoded, size, etag))
            (lookup (bucket, key) s.objects)
        else get_object s b k)
unfolding get_object put_object_row live_row newer pair_beq
get_object-put_object_row s bucket key encoded size etag shard_id deleted ts b k =
    let old =
      lookup-put (λ (r : ObjectRow). r.updated_at) (bucket, key) (b, k)
        (record {
          blocks = encoded;
          size = size;
          etag = etag;
          shard_id = shard_id;
          updated_at = ts;
          deleted = deleted;
        })
        s.objects in
    rw old (elim (Bool-cases ((bucket == b) && (key == k))) [
      | inl same ↦ rw same (ground arith)
      | inr other ↦ rw other refl
    ])

module _ {V J : Type 0} (crates : Crates V J) where
  -- After an object of 32-byte hashes is inserted, its key reads as that object, unless a row with the same or a later timestamp was there, which then stays; other keys read as before.
  pub get_object-insert_object :
      (s : Store J) (system : ℕ) (bucket : Bytes) (shard_id : ℕ) (key : Bytes) (blocks : List Bytes)
      (size : ℤ) (etag : Bytes) (b k : Bytes)
      → All IsHash blocks
      → get_object (insert_object crates s system bucket shard_id key blocks size etag) b k ≡ (
          if (bucket == b) && (key == k)
          then after_write
              (now_micros s system)
              (some (blocks, size, etag))
              (lookup (bucket, key) s.objects)
          else get_object s b k)
  unfolding insert_object append_fact_tx get_object
  get_object-insert_object s system bucket shard_id key blocks size etag b k h =
      let read =
        get_object-put_object_row s bucket key (encode_blocks blocks) size etag shard_id false
          (now_micros s system) b k in
      rw (decode_blocks-encode_blocks blocks h) at read

  -- After an object is deleted, its key reads as absent, unless a row with the same or a later timestamp was there, which then stays; other keys read as before.
  pub get_object-delete_object :
      (s : Store J) (system : ℕ) (bucket key b k : Bytes)
      → get_object (delete_object crates s system bucket key) b k ≡ (
          if (bucket == b) && (key == k)
          then after_write (now_micros s system) none (lookup (bucket, key) s.objects)
          else get_object s b k)
  unfolding delete_object append_fact_tx get_object
  get_object-delete_object s system bucket key b k =
      get_object-put_object_row s bucket key [] (pos 0) [] _ true (now_micros s system) b k
