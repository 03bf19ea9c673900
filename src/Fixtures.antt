-- ===== src/Fixtures.antt =====
-- Test data that the examples share: crates whose texts are the values themselves, and small stores.
use shardscape.Base.{
  all, ltb, arith, pos, true, false, [], ◌∷◌, Bytes, text, Option, none, some, refl, ◌≡◌, IsBytes,
}
use shardscape.Chunking.{ChunkingStrategy, fixed_size_strategy}
use shardscape.Distributed.{Site}
use shardscape.Distributed.Local.{Files}
use shardscape.Clock.{ClusterClock}
use shardscape.Policy.{Policy}
use shardscape.Store.{Store, Crates, Fact, FactRecord, object_put, object_delete, new}
use shardscape.Store.Sites.{Laws}

pub data Doc : Type 0 where
  fact_doc : Fact Policy → Doc
  policy_doc : Policy → Doc

abbrev pub fact_of : Doc → Option (Fact Policy)
fact_of (fact_doc f) = some f
fact_of (policy_doc p) = none

abbrev pub policy_of : Doc → Option Policy
policy_of (fact_doc f) = none
policy_of (policy_doc p) = some p

abbrev pub plain_crates : Crates Policy Doc
plain_crates = record {
  blake3 = λ b. b;
  hex_encode = λ b. b;
  hex_decode = some;
  fact_to_string = fact_doc;
  fact_from_str = fact_of;
  policy_to_value = λ p. p;
  value_to_string = policy_doc;
  policy_to_string = policy_doc;
  policy_from_str = policy_of;
}

pub plain_crates-Laws : Laws plain_crates
plain_crates-Laws = record {
  hex = λ b h. refl;
  fact = λ f. refl;
  policy = λ p. refl;
  value = λ p. refl;
}

abbrev pub zero_clock : ClusterClock
zero_clock = record { offset_ms = pos 0 }

abbrev pub site_a : Store Doc
site_a = new (text "a") zero_clock

abbrev pub site_b : Store Doc
site_b = new (text "b") zero_clock

abbrev pub put_fact : FactRecord Policy
put_fact = record {
  seq = pos 1;
  ts = pos 5;
  fact = object_put (text "bk") (text "k") [] (pos 0) (text "e");
}

abbrev pub delete_fact : FactRecord Policy
delete_fact = record { seq = pos 2; ts = pos 7; fact = object_delete (text "bk") (text "k") }

pub bytes_check : (b : Bytes) → all (λ x. ltb x 256) b ≡ true → IsBytes b
bytes_check [] h = tt
bytes_check (x ∷ xs) h = (ground (arith, h), bytes_check xs (ground (arith, h)))

-- A hash of 32 bytes.
abbrev pub hash_1 : Bytes
hash_1 = text "11111111111111111111111111111111"

abbrev pub hash_2 : Bytes
hash_2 = text "22222222222222222222222222222222"

-- A store with one object of one block, which is here, and another block that no object has.
abbrev pub small_store : Store Doc
small_store = record site_a {
  objects =
      (
        (text "bk", text "k"),
        record {
          blocks = hash_1;
          size = pos 4;
          etag = text "e";
          shard_id = 43;
          updated_at = pos 5;
          deleted = false;
        },
      )
      ∷ [];
  blocks =
      (hash_1, record { size = pos 4; updated_at = pos 5 })
      ∷ (hash_2, record { size = pos 4; updated_at = pos 6 })
      ∷ [];
  block_locations =
      ((hash_1, text "a"), record { fid = text "local"; updated_at = pos 5 })
      ∷ ((hash_2, text "a"), record { fid = text "local"; updated_at = pos 6 })
      ∷ [];
  pending_deletions = (hash_2, pos 100) ∷ [];
}

-- A user who may write and delete everything but the objects below `keep/`.
abbrev pub careful : Policy
careful = record {
  statements =
      record { effect = text "Allow"; actions = text "s3:*" ∷ []; resources = text "*" ∷ [] }
      ∷ record {
        effect = text "Deny";
        actions = text "s3:*" ∷ [];
        resources = text "arn:ss:bucket:::bk/keep/*" ∷ [];
      }
      ∷ [];
}

abbrev pub user_store : Store Doc
user_store = record site_a {
  users =
      (text "ak", record { secret_key = text "s"; policy = policy_doc careful; updated_at = pos 1 })
      ∷ [];
}

-- A digest of 32 bytes.
abbrev pub short_crates : Crates Policy Doc
short_crates = record plain_crates { blake3 = λ b. hash_1 }

abbrev pub empty_site : Site Doc Files
empty_site = record { store = site_a; disk = record { files = []; broken = false } }

abbrev pub by_4 : ChunkingStrategy
by_4 = fixed_size_strategy 4

abbrev pub plain_md5 : Bytes → Bytes
plain_md5 b = b

abbrev pub with_user : Site Doc Files
with_user = record empty_site { store = user_store }

abbrev pub unreachable : Bytes → Bytes → Option Bytes
unreachable url hash = none
