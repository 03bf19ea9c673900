-- ===== src/S3/Examples.antt =====
-- Requests on a small site.
use shardscape.Base.{
  ℕ, pos, ◌≡◌, refl, ◌⊎◌, ◌++◌, map, concat, length, List, [], ◌∷◌, Bytes, text, Option, none, some,
  arith, false, true, list_eq, nat_eq, pair_eq,
}
use shardscape.Chunking.{fixed_size_strategy, fixed_loop, finalize}
use shardscape.Disk.{disabled, check}
use shardscape.Distributed.{store_block}
use shardscape.Distributed.Local.{local_blob, put}
use shardscape.Fixtures.{short_crates, empty_site, by_4, plain_md5, with_user, unreachable}
use shardscape.Policy.{Policy, is_allowed}
use shardscape.S3.{
  done, failed, access_denied, internal_error, check_writable, store_blocks, store_body, authorize,
  write_object, put_object, delete_object_handler, delete_objects,
}
use shardscape.S3.Get.{get_object_handler}
use shardscape.S3.Access.{Guarded, handlers-Guarded}
use shardscape.S3.Chunkers.{fixed_size_strategy-Conserves}
use shardscape.Distributed.Integrity.{Sound}
use shardscape.Distributed.Local.{local_blob-BlobLaws}
use shardscape.S3.PutGet.{Served, put_object-get_object_handler}
use shardscape.S3.Put.{put_object-failed}
use shardscape.Store.{Store, Crates, now_micros}
use shardscape.Store.Objects.{append_fact_tx}
use shardscape.Store.Blocks.{get_local_block_fid, store_local_block, upsert_block_location}
use shardscape.Store.Users.{get_user}
use shardscape.Table.{lookup}

abbrev body : List (Option Bytes)
body = some (text "abcde") ∷ some (text "f") ∷ []

written :
    (write_object short_crates local_blob by_4 plain_md5 empty_site 9 (text "bk") (text "k") body).0
    ≡ done (text "\"abcdef\"")
unfolding write_object store_body store_blocks store_block fixed_size_strategy fixed_loop finalize
    get_local_block_fid lookup put append_fact_tx upsert_block_location store_local_block
    shardscape.Table.Lww.put shardscape.Table.upsert shardscape.Base.pair_beq
    shardscape.Base.list_beq
written = refl

-- A stream that breaks after its first block.
abbrev broken_body : List (Option Bytes)
broken_body = some (text "abcde") ∷ none ∷ []

broken_off :
    (put_object short_crates local_blob by_4 plain_md5 with_user disabled 9
      (some (text "ak"))
      (text "bk")
      (text "k")
      (some broken_body)).0
    ≡ failed internal_error
unfolding put_object authorize get_user check_writable check is_allowed write_object
    shardscape.Store.Users.user_of lookup shardscape.Base.list_beq shardscape.Policy.matches
    shardscape.Policy.wildcard_match shardscape.Base.strip_prefix store_body fixed_size_strategy
    store_blocks store_block get_local_block_fid put
broken_off = refl

put_object-failed_example :
    (put_object short_crates local_blob by_4 plain_md5 with_user disabled 9
      (some (text "ak"))
      (text "bk")
      (text "k")
      (some broken_body)).1.store.objects
    ≡ []
put_object-failed_example =
    put_object-failed short_crates local_blob by_4 plain_md5 with_user disabled 9 (some (text "ak"))
      (text "bk") (text "k") (some broken_body) internal_error broken_off

-- The deletion of one object is denied to this user.
kept_key :
    (delete_object_handler short_crates local_blob by_4 with_user 9
      (some (text "ak"))
      (text "bk")
      (text "keep/k")).0
    ≡ failed access_denied
unfolding delete_object_handler authorize get_user is_allowed shardscape.Store.Users.user_of lookup
    shardscape.Base.list_beq shardscape.Policy.matches shardscape.Policy.wildcard_match
    shardscape.Base.strip_prefix
kept_key = refl

-- The deletion of a list of objects is not.
listed_key :
    (delete_objects short_crates local_blob by_4 with_user 9
      (some (text "ak"))
      (text "bk")
      (text "keep/k" ∷ [])).0
    ≡ done (text "keep/k" ∷ [])
unfolding delete_objects authorize get_user is_allowed shardscape.Store.Users.user_of lookup
    shardscape.Base.list_beq shardscape.Policy.matches shardscape.Policy.wildcard_match
    shardscape.Base.strip_prefix
listed_key = refl

handlers-Guarded_example :
    Guarded short_crates (text "s3:PutObject") (some (text "k")) none (text "bk") with_user (
      put_object short_crates local_blob by_4 plain_md5 with_user disabled 9 none
        (text "bk")
        (text "k")
        (some body))
    × Guarded short_crates (text "s3:GetObject") (some (text "k")) none (text "bk") with_user (
        get_object_handler short_crates local_blob unreachable with_user 9 none
          (text "bk")
          (text "k")
          none)
    × Guarded short_crates
        (text "s3:DeleteObject")
        (some (text "k"))
        none
        (text "bk")
        with_user
        (delete_object_handler short_crates local_blob by_4 with_user 9 none (text "bk") (text "k"))
    × Guarded short_crates
        (text "s3:DeleteObject")
        none
        none
        (text "bk")
        with_user
        (delete_objects short_crates local_blob by_4 with_user 9 none (text "bk") (text "k" ∷ []))
handlers-Guarded_example =
    handlers-Guarded short_crates local_blob by_4 plain_md5 unreachable with_user disabled 9 none
      (text "bk") (text "k") (text "k" ∷ []) (some body) none

with_user-Sound : Sound short_crates local_blob with_user
unfolding Sound shardscape.Store.Blocks.get_local_block_fid lookup
with_user-Sound h fid e = absurd (cc (e))

put_whole :
    (put_object short_crates local_blob by_4 plain_md5 with_user disabled 9
      (some (text "ak"))
      (text "bk")
      (text "k")
      (some body)).0
    ≡ done (text "\"abcdef\"")
unfolding put_object authorize get_user check_writable check is_allowed write_object
    shardscape.Store.Users.user_of lookup shardscape.Base.list_beq shardscape.Policy.matches
    shardscape.Policy.wildcard_match shardscape.Base.strip_prefix store_body fixed_size_strategy
    fixed_loop finalize store_blocks store_block get_local_block_fid put append_fact_tx
    upsert_block_location store_local_block shardscape.Table.Lww.put shardscape.Table.upsert
    shardscape.Base.pair_beq
put_whole = refl

may_read :
    authorize short_crates with_user.store
      (some (text "ak"))
      (text "s3:GetObject")
      (some (text "bk"))
      (some (text "k"))
    ≡ done tt
unfolding authorize get_user is_allowed shardscape.Store.Users.user_of lookup
    shardscape.Base.list_beq shardscape.Policy.matches shardscape.Policy.wildcard_match
    shardscape.Base.strip_prefix
may_read = refl

put_object-get_object_handler_example :
    Served short_crates local_blob by_4 unreachable 10
      (some (text "ak"))
      (text "bk")
      (text "k")
      (text "abcdef")
      (text "\"abcdef\"")
      (put_object short_crates local_blob by_4 plain_md5 with_user disabled 9
        (some (text "ak"))
        (text "bk")
        (text "k")
        (some body)).1
unfolding lookup
put_object-get_object_handler_example =
    put_object-get_object_handler short_crates local_blob by_4 plain_md5 unreachable with_user
      disabled 9 10 (some (text "ak")) (some (text "ak")) (text "bk") (text "k") body
      (text "\"abcdef\"") (fixed_size_strategy-Conserves 4 (omega arith)) (λ b. refl)
      local_blob-BlobLaws with_user-Sound put_whole may_read refl
