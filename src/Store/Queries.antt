-- ===== src/Store/Queries.antt =====
-- The listings and the counts of src/store.rs.
use shardscape.Base.{
  ℕ, ℤ, suc, Bool, true, List, [], ◌∷◌, ◌==◌, ◌&&◌, not, Bytes, Option, none, some, Result, ok,
  ◌>>=◌, ltb, ltb_ℤ, keep, take, length, sort, lex_ltb, lex_leb, if◌then◌else◌, list_eq, nat_eq,
}
use shardscape.Hashing.{prefix_key_range}
use shardscape.Store.{Store, ObjectRow}
use shardscape.Store.Blocks.{hashes_at, local_block_bytes}
use shardscape.Store.Queue.{queued_for}
use shardscape.Table.{Table}

-- A listed object: key, size, etag.
abbrev pub Listed : Type 0
Listed = Bytes × ℤ × Bytes

-- The live objects of a bucket.
unfoldable pub live_in : Bytes → Table (Bytes × Bytes) ObjectRow → List Listed
live_in bucket [] = []
live_in bucket (((b, key), row) ∷ rows) =
    if (b == bucket) && not row.deleted
    then (key, row.size, row.etag) ∷ live_in bucket rows
    else live_in bucket rows

-- A prefix becomes the bounds of its keys; finding them can panic.
unfoldable pub key_range : Option Bytes → Result (Option Bytes × Option Bytes)
key_range none = ok (none, none)
key_range (some prefix) = prefix_key_range prefix >>= λ range. ok (some range.0, range.1)

-- `key > after`, or `key >= lower` where no cursor is given.
unfoldable pub above : Option Bytes → Option Bytes → Bytes → Bool
above (some a) lower key = lex_ltb a key
above none (some l) key = lex_leb l key
above none none key = true

-- `key < upper`.
unfoldable pub below : Option Bytes → Bytes → Bool
below none key = true
below (some u) key = lex_ltb key u

abbrev pub key_before : Listed → Listed → Bool
key_before a b = lex_ltb a.0 b.0

-- GROUP BY bucket with MIN(updated_at), in the order of the buckets.
unfoldable pub group_min : Bytes → ℤ → List (Bytes × ℤ) → List (Bytes × ℤ)
group_min bucket ts [] = (bucket, ts) ∷ []
group_min bucket ts ((b, least) ∷ groups) =
    if b == bucket
    then (b, if ltb_ℤ ts least then ts else least) ∷ groups
    else let rest = group_min bucket ts groups in
      if lex_ltb b bucket then (b, least) ∷ rest else (bucket, ts) ∷ (b, least) ∷ groups

unfoldable pub group_all : Table (Bytes × Bytes) ObjectRow → List (Bytes × ℤ)
group_all [] = []
group_all (((b, key), row) ∷ rows) =
    if row.deleted then group_all rows else group_min b row.updated_at (group_all rows)

unfoldable pub count_live : Table (Bytes × Bytes) ObjectRow → ℕ
count_live [] = 0
count_live ((k, row) ∷ rows) = if row.deleted then count_live rows else suc (count_live rows)

pub record StoreStats : Type 0 where
  pub live_objects : ℕ
  pub local_blocks : ℕ
  pub local_block_bytes : ℤ
  pub pending_deletions : ℕ
  pub pending_pulls : ℕ
  pub fact_count : ℕ

module _ {J : Type 0} where
  unfoldable pub list_buckets : Store J → List (Bytes × ℤ)
  list_buckets s = group_all s.objects

  -- One row more than the page is read, to know whether there is more.
  unfoldable pub list_objects :
      Store J → Bytes → Option Bytes → Option Bytes → ℕ → Result (List Listed × Bool)
  list_objects s bucket after prefix page_size = key_range prefix >>= λ range.
      let test = λ (row : Listed). above after range.0 row.0 && below range.1 row.0 in
      let rows = take (suc page_size) (sort key_before (keep test (live_in bucket s.objects))) in
      ok (take page_size rows, ltb page_size (length rows))

  unfoldable pub stats : Store J → StoreStats
  stats s = record {
    live_objects = count_live s.objects;
    local_blocks = length (hashes_at s.local_location_id s.block_locations);
    local_block_bytes = local_block_bytes s;
    pending_deletions = length s.pending_deletions;
    pending_pulls = length (queued_for s.local_location_id s.replication_queue);
    fact_count = length s.fact_log;
  }
