-- ===== src/S3/Get/Examples.antt =====
-- A download of a part of a small object.
use shardscape.Base.{
  ℕ, pos, ◌≡◌, refl, ◌⊎◌, ◌++◌, map, concat, length, List, [], ◌∷◌, Bytes, text, Option, none, some,
  arith, false, true, list_eq, nat_eq, pair_eq,
}
use shardscape.Distributed.{Site}
use shardscape.Distributed.Local.{Files, local_blob, get}
use shardscape.Fixtures.{Doc, plain_crates, user_store, hash_1, hash_2}
use shardscape.Policy.{Policy, is_allowed}
use shardscape.S3.{done, failed, invalid_range, authorize}
use shardscape.Range.{int}
use shardscape.S3.Get.{Reply, get_object_handler}
use shardscape.S3.Get.Serve.{Whole, asked, get_object_handler-Whole}
use shardscape.Store.{Store, Crates, now_micros}
use shardscape.Store.Objects.{get_object, append_fact_tx}
use shardscape.Store.Blocks.{
  get_local_block_fid, block_sizes, store_local_block, upsert_block_location,
}
use shardscape.Store.Users.{get_user}
use shardscape.Table.{lookup}

abbrev unreachable : Bytes → Bytes → Option Bytes
unreachable url hash = none

-- A site that has an object of two blocks, which are their own hashes.
abbrev full_site : Site Doc Files
full_site = record {
  store = record user_store {
    objects =
        (
          (text "bk", text "k"),
          record {
            blocks = hash_1 ++ hash_2;
            size = pos 64;
            etag = text "e";
            shard_id = 43;
            updated_at = pos 5;
            deleted = false;
          },
        )
        ∷ [];
    blocks =
        (hash_1, record { size = pos 32; updated_at = pos 5 })
        ∷ (hash_2, record { size = pos 32; updated_at = pos 5 })
        ∷ [];
    block_locations =
        ((hash_1, text "a"), record { fid = text "local"; updated_at = pos 5 })
        ∷ ((hash_2, text "a"), record { fid = text "local"; updated_at = pos 5 })
        ∷ [];
  };
  disk = record { files = (hash_1, hash_1) ∷ (hash_2, hash_2) ∷ []; broken = false };
}

full_site-Whole :
    Whole plain_crates local_blob unreachable full_site
      (text "bk")
      (text "k")
      (hash_1 ∷ hash_2 ∷ [])
      (text "e")
unfolding get_object get_local_block_fid block_sizes get lookup shardscape.Store.Objects.live_row
    shardscape.Base.pair_beq shardscape.Base.list_beq shardscape.Store.Objects.decode_blocks
    shardscape.Store.Objects.chunks_exact shardscape.Store.Blocks.size_or_zero
full_site-Whole = record {
  manifest = refl;
  held = ((text "local", refl, refl), ((text "local", refl, refl), tt));
  sizes = refl;
  short = omega arith;
}

may_read :
    authorize plain_crates full_site.store
      (some (text "ak"))
      (text "s3:GetObject")
      (some (text "bk"))
      (some (text "k"))
    ≡ done tt
unfolding authorize get_user is_allowed shardscape.Store.Users.user_of lookup
    shardscape.Base.list_beq shardscape.Policy.matches shardscape.Policy.wildcard_match
    shardscape.Base.strip_prefix
may_read = refl

get_object_handler-Whole_example :
    ((get_object_handler plain_crates local_blob unreachable full_site 9
        (some (text "ak"))
        (text "bk")
        (text "k")
        (some (int 10 (some 40)))).1
      ≡ full_site)
    × (((asked (some (int 10 (some 40))) (hash_1 ++ hash_2) ≡ none)
          × ((get_object_handler plain_crates local_blob unreachable full_site 9
                (some (text "ak"))
                (text "bk")
                (text "k")
                (some (int 10 (some 40)))).0
              ≡ failed invalid_range))
        ⊎ ((frames : List Bytes) × (reply : Reply) × ((get_object_handler plain_crates local_blob
                unreachable full_site 9
                (some (text "ak"))
                (text "bk")
                (text "k")
                (some (int 10 (some 40)))).0
              ≡ done reply)
            × (reply.frames ≡ map some frames)
            × (asked (some (int 10 (some 40))) (hash_1 ++ hash_2) ≡ some (concat frames))
            × (reply.content_length ≡ pos (length (concat frames)))))
get_object_handler-Whole_example =
    get_object_handler-Whole plain_crates local_blob unreachable full_site 9 (some (text "ak"))
      (text "bk") (text "k") (some (int 10 (some 40))) (hash_1 ∷ hash_2 ∷ []) (text "e")
      full_site-Whole may_read
