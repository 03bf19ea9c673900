-- ===== src/Store/Multipart.antt =====
-- Multipart uploads of src/store.rs. An upload id is the text of its UUID.
use shardscape.Base.{
  ◌++◌, text, ℕ, ℤ, suc, Bool, true, ◌&&◌, ◌||◌, List, [], ◌∷◌, ◌==◌, Bytes, Option, none, some,
  ltb_ℤ, keep, take, sort, lex_ltb, if◌then◌else◌, pair_eq, list_eq, nat_eq, int_eq,
}
use shardscape.Store.{Store, PartRow}
use shardscape.Store.Objects.{encode_blocks, decode_blocks}
use shardscape.Table.{Table, lookup, upsert, delete, delete_where}

-- A part as `list_parts` gives it: number, blocks, size, etag.
abbrev pub Part : Type 0
Part = ℤ × List Bytes × ℤ × Bytes

unfoldable pub parts_of : Bytes → Bytes → Table ((Bytes × Bytes) × ℤ) PartRow → List Part
parts_of bucket upload_id [] = []
parts_of bucket upload_id ((((b, u), n), row) ∷ rows) =
    if (b == bucket) && (u == upload_id)
    then (n, decode_blocks row.blocks, row.size, row.etag) ∷ parts_of bucket upload_id rows
    else parts_of bucket upload_id rows

-- The uploads of a bucket as (key, upload id).
unfoldable pub uploads_of : Bytes → Table (Bytes × Bytes) Bytes → List (Bytes × Bytes)
uploads_of bucket [] = []
uploads_of bucket (((b, u), key) ∷ rows) =
    if b == bucket then (key, u) ∷ uploads_of bucket rows else uploads_of bucket rows

-- ORDER BY key, upload_id
unfoldable pub upload_before : Bytes × Bytes → Bytes × Bytes → Bool
upload_before (k, u) (l, v) = lex_ltb k l || ((k == l) && lex_ltb u v)

abbrev pub unless_none : {A : Type 0} → Option A → (A → Bool) → Bool
unless_none none test = true
unless_none (some a) test = test a

module _ {J : Type 0} where
  unfoldable pub insert_multipart : Store J → Bytes → Bytes → Bytes → Store J
  insert_multipart s bucket upload_id key = record s {
    multipart_uploads = upsert (bucket, upload_id) key (λ old. key) s.multipart_uploads;
  }

  unfoldable pub get_multipart_key : Store J → Bytes → Bytes → Option Bytes
  get_multipart_key s bucket upload_id = lookup (bucket, upload_id) s.multipart_uploads

  unfoldable pub delete_parts : Store J → Bytes → Bytes → Store J
  delete_parts s bucket upload_id = record s {
    parts =
        delete_where (λ (k : (Bytes × Bytes) × ℤ). (k.0.0 == bucket) && (k.0.1 == upload_id))
          s.parts;
  }

  unfoldable pub delete_multipart_upload : Store J → Bytes → Bytes → Store J
  delete_multipart_upload s bucket upload_id =
      let s1 : Store J = record s {
        multipart_uploads = delete (bucket, upload_id) s.multipart_uploads;
      } in
      delete_parts s1 bucket upload_id

  unfoldable pub insert_part : Store J → Bytes → Bytes → ℤ → List Bytes → ℤ → Bytes → Store J
  insert_part s bucket upload_id part_number blocks size etag =
      let part : PartRow = record { blocks = encode_blocks blocks; size = size; etag = etag } in
      record s { parts = upsert ((bucket, upload_id), part_number) part (λ row. part) s.parts }

  unfoldable pub list_parts : Store J → Bytes → Bytes → List Part
  list_parts s bucket upload_id =
      sort (λ (a b : Part). ltb_ℤ a.0 b.0) (parts_of bucket upload_id s.parts)

  -- `like key pattern` is SQLite's LIKE.
  unfoldable pub list_multipart_uploads :
      (Bytes → Bytes → Bool)
      → Store J
      → Bytes
      → Option Bytes
      → Option Bytes
      → ℕ
      → List (Bytes × Bytes)
  list_multipart_uploads like s bucket prefix key_marker max_uploads =
      let by_prefix =
        keep (λ (row : Bytes × Bytes). unless_none prefix (λ p. like row.0 (p ++ text "%")))
          (uploads_of bucket s.multipart_uploads) in
      let by_marker =
        keep (λ (row : Bytes × Bytes). unless_none key_marker (λ m. lex_ltb m row.0)) by_prefix in
      take (suc max_uploads) (sort upload_before by_marker)
