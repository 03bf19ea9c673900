-- ===== src/S3/Multipart/Completed.antt =====
-- What a completed upload is: the blocks of its parts, in the order of their numbers.
use shardscape.Base.{
  ℕ, ℤ, pos, ◌+ℤ◌, ◌≡◌, List, [], ◌∷◌, Bytes, none, some, map, concat, All, ltb_ℤ, sort, list_eq,
  nat_eq, pair_eq, int_eq,
}
use shardscape.Distributed.{Site}
use shardscape.S3.Multipart.{Gathered}
use shardscape.Store.{Store, Crates, now_micros}
use shardscape.Store.Manifests.{IsHash}
use shardscape.Store.Multipart.{Part, list_parts, get_multipart_key}
use shardscape.Store.Objects.{get_object}
use shardscape.Store.Registers.{after_write}
use shardscape.Table.{Table, lookup}

abbrev pub blocks_of : List Part → List Bytes
blocks_of parts = concat (map (λ (p : Part). p.1) parts)

abbrev pub total_size : List Part → ℤ
total_size [] = pos 0
total_size (p ∷ parts) = p.2 +ℤ total_size parts

-- The parts in the order in which they are put together.
abbrev pub in_order : List Part → List Part
in_order parts = sort (λ (a b : Part). ltb_ℤ a.0 b.0) parts

abbrev pub nothing : Gathered
nothing = record { hashes = []; total = pos 0; etags = [] }

abbrev HasHashes : Part → Type 0
HasHashes part = All IsHash part.1

module _ {V J D : Type 0} (crates : Crates V J) where
  -- What is there after an upload was completed from these parts.
  pub record IsCompleted (before after : Site J D) (system : ℕ) (bucket key id etag : Bytes)
      (parts : List Part) : Type 0 where
    pub object :
        get_object after.store bucket key
        ≡ after_write
            (now_micros before.store system)
            (some (blocks_of parts, total_size parts, etag))
            (lookup (bucket, key) before.store.objects)
    pub upload_gone : get_multipart_key after.store bucket id ≡ none
    pub parts_gone : list_parts after.store bucket id ≡ []
