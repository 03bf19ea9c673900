-- ===== src/S3/Multipart/Examples.antt =====
-- Copies and multipart uploads on a small site.
use shardscape.Base.{
  split_once, ℕ, ℤ, pos, ◌≡◌, refl, ◌⊎◌, ◌++◌, map, concat, length, List, [], ◌∷◌, Bytes, text,
  Option, none, some, arith, if◌then◌else◌, ◌==◌, false, true, list_eq, nat_eq, pair_eq, int_eq,
}
use shardscape.Disk.{disabled, check}
use shardscape.Distributed.{Site, store_block}
use shardscape.Distributed.Local.{Files, local_blob, put}
use shardscape.Fixtures.{
  Doc, user_store, small_store, hash_1, hash_2, short_crates, by_4, plain_md5, with_user,
  unreachable,
}
use shardscape.Policy.{is_allowed}
use shardscape.S3.{done, authorize, check_writable, store_body, store_blocks, given}
use shardscape.S3.Access.{Guarded}
use shardscape.S3.Access.Writers.{writers-Guarded}
use shardscape.S3.Chunkers.{fixed_size_strategy-Conserves}
use shardscape.S3.Copy.{bucket_source, copy_object, copy_from, copy_manifest}
use shardscape.S3.Copy.Copied.{IsCopied, copy_object-done}
use shardscape.S3.Multipart.{
  upload_of, complete_multipart_upload, create_multipart_upload, abort_multipart_upload, write_part,
  upload_part,
}
use shardscape.S3.Multipart.PartCopy.{upload_part_copy, copy_range}
use shardscape.S3.Multipart.Parts.{PartIs, upload_part-done}
use shardscape.Store.{Store}
use shardscape.Store.Multipart.{get_multipart_key}
use shardscape.Store.Objects.{encode_blocks, get_object, live_row, append_fact_tx}
use shardscape.Store.Users.{get_user}
use shardscape.Table.{lookup}

-- An upload of `k` with two parts, the second written first.
abbrev uploading : Site Doc Files
uploading = record with_user {
  store = record user_store {
    multipart_uploads = ((text "bk", text "u"), text "k") ∷ [];
    parts =
        (((text "bk", text "u"), pos 2), record { blocks = hash_2; size = pos 3; etag = text "p2" })
        ∷ (
          ((text "bk", text "u"), pos 1),
          record { blocks = hash_1; size = pos 4; etag = text "p1" },
        )
        ∷ [];
  };
}

-- A user and an object to copy.
abbrev copying : Site Doc Files
copying = record with_user { store = record small_store { users = user_store.users } }

copied :
    (copy_object short_crates copying 9
      (some (text "ak"))
      (text "bk")
      (text "l")
      (bucket_source (text "bk") (text "k"))).0
    ≡ done (text "\"e\"")
unfolding copy_object authorize get_user is_allowed copy_from copy_manifest get_object live_row
    shardscape.Store.Users.user_of lookup shardscape.Base.list_beq shardscape.Base.pair_beq
    shardscape.Policy.matches shardscape.Policy.wildcard_match shardscape.Base.strip_prefix
copied = refl

copy_object-done_example :
    IsCopied short_crates copying
      (copy_object short_crates copying 9
        (some (text "ak"))
        (text "bk")
        (text "l")
        (bucket_source (text "bk") (text "k"))).1
      9
      (text "bk")
      (text "l")
      (bucket_source (text "bk") (text "k"))
      (text "\"e\"")
copy_object-done_example =
    copy_object-done short_crates copying 9 (some (text "ak")) (text "bk") (text "l")
      (bucket_source (text "bk") (text "k")) (text "\"e\"") copied

abbrev part_body : List (Option Bytes)
part_body = some (text "abcde") ∷ some (text "f") ∷ []

part_written :
    (upload_part short_crates local_blob by_4 plain_md5 some uploading disabled 9
      (some (text "ak"))
      (text "bk")
      (text "k")
      (text "u")
      (pos 2)
      (some part_body)).0
    ≡ done (text "\"abcdef\"")
unfolding upload_part authorize get_user is_allowed check_writable check upload_of get_multipart_key
    write_part store_body store_blocks store_block shardscape.Chunking.fixed_size_strategy
    shardscape.Chunking.fixed_loop shardscape.Chunking.finalize
    shardscape.Store.Blocks.get_local_block_fid shardscape.Store.Blocks.store_local_block
    shardscape.Store.Blocks.upsert_block_location put append_fact_tx shardscape.Table.Lww.put
    shardscape.Table.upsert shardscape.Store.Users.user_of lookup shardscape.Base.list_beq
    shardscape.Base.pair_beq shardscape.Policy.matches shardscape.Policy.wildcard_match
    shardscape.Base.strip_prefix
part_written = refl

upload_part-done_example :
    (id : Bytes) × (stored_key : Bytes) × (pieces : List (Option Bytes)) × (blocks : List Bytes)
    × (upload_of some uploading.store (text "bk") (text "u") ≡ done (id, stored_key))
    × (some part_body ≡ some pieces)
    × (concat blocks ≡ concat (given pieces))
    × PartIs short_crates local_blob by_4 uploading
        (upload_part short_crates local_blob by_4 plain_md5 some uploading disabled 9
          (some (text "ak"))
          (text "bk")
          (text "k")
          (text "u")
          (pos 2)
          (some part_body)).1
        (text "bk")
        id
        (pos 2)
        (record {
          blocks = encode_blocks (map short_crates.blake3 blocks);
          size = pos (length (concat (given pieces)));
          etag = short_crates.hex_encode (plain_md5 (concat (given pieces)));
        })
upload_part-done_example =
    upload_part-done short_crates local_blob by_4 plain_md5 some uploading disabled 9
      (some (text "ak")) (text "bk") (text "k") (text "u") (pos 2) (some part_body)
      (text "\"abcdef\"") (fixed_size_strategy-Conserves 4 (omega arith)) part_written

-- A range of a copy that ends before it starts is taken.
backwards : copy_range (some (text "bytes=5-2")) (pos 9) ≡ done (5, 2)
unfolding copy_range split_once shardscape.Base.strip_prefix shardscape.Base.parse_u64
backwards = refl

writers-Guarded_example :
    Guarded short_crates (text "s3:PutObject") (some (text "l")) none (text "bk") uploading (
      copy_object short_crates uploading 9 none
        (text "bk")
        (text "l")
        (bucket_source (text "bk") (text "k")))
    × Guarded short_crates
        (text "s3:PutObject")
        (some (text "l"))
        none
        (text "bk")
        uploading
        (create_multipart_upload short_crates uploading none (text "v") (text "bk") (text "l"))
    × Guarded short_crates (text "s3:PutObject") (some (text "l")) none (text "bk") uploading (
        upload_part short_crates local_blob by_4 plain_md5 some uploading disabled 9 none
          (text "bk")
          (text "l")
          (text "u")
          (pos 2)
          (some part_body))
    × Guarded short_crates (text "s3:PutObject") (some (text "l")) none (text "bk") uploading (
        upload_part_copy short_crates local_blob by_4 unreachable plain_md5 some uploading disabled
          9 none
          (text "bk")
          (text "l")
          (text "u")
          (pos 2)
          (bucket_source (text "bk") (text "k"))
          none)
    × Guarded short_crates (text "s3:PutObject") (some (text "l")) none (text "bk") uploading (
        complete_multipart_upload short_crates plain_md5 some uploading 9 none
          (text "bk")
          (text "l")
          (text "u"))
    × Guarded short_crates
        (text "s3:AbortMultipartUpload")
        (some (text "l"))
        none
        (text "bk")
        uploading
        (abort_multipart_upload short_crates some uploading none (text "bk") (text "l") (text "u"))
writers-Guarded_example =
    writers-Guarded short_crates local_blob by_4 unreachable plain_md5 some uploading disabled 9
      none (text "bk") (text "l") (text "v") (text "u") (pos 2) (some part_body)
      (bucket_source (text "bk") (text "k")) none
