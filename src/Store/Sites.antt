-- ===== src/Store/Sites.antt =====
-- Convergence of the four replicated tables, and of a site with the peers that replay its facts.
use shardscape.Base.{ℕ, ◌≡◌, List, Bytes, some, ok, IsBytes, pair_eq, list_eq, nat_eq}
use shardscape.Store.{Store, Crates, Fact, FactRecord, ObjectRow, BlockRow, LocationRow, UserRow}
use shardscape.Store.Writes.{
  object_writes, user_writes, location_writes, block_writes, apply_fact-objects, apply_fact-users,
  apply_fact-locations, apply_fact-blocks,
}
use shardscape.Store.Convergence.{
  Register, apply_all, SameFacts, NoTies, SameRows, register_converges,
}

module _ {V J : Type 0} (crates : Crates V J) where
  abbrev pub objects_register : Register crates (Bytes × Bytes) ObjectRow
  objects_register = record {
    table = λ (s : Store J). s.objects;
    stamp = λ (r : ObjectRow). r.updated_at;
    writes = object_writes crates;
    step = apply_fact-objects crates;
  }

  abbrev pub users_register : Register crates Bytes (UserRow J)
  users_register = record {
    table = λ (s : Store J). s.users;
    stamp = λ (r : UserRow J). r.updated_at;
    writes = user_writes crates;
    step = apply_fact-users crates;
  }

  abbrev pub locations_register : Register crates (Bytes × Bytes) LocationRow
  locations_register = record {
    table = λ (s : Store J). s.block_locations;
    stamp = λ (r : LocationRow). r.updated_at;
    writes = location_writes crates;
    step = apply_fact-locations crates;
  }

  abbrev pub blocks_register : Register crates Bytes BlockRow
  blocks_register = record {
    table = λ (s : Store J). s.blocks;
    stamp = λ (r : BlockRow). r.updated_at;
    writes = block_writes crates;
    step = apply_fact-blocks crates;
  }

  -- Two sites whose replicated tables read the same.
  pub record Agree (s t : Store J) : Type 0 where
    pub objects : SameRows crates objects_register s t
    pub users : SameRows crates users_register s t
    pub locations : SameRows crates locations_register s t
    pub blocks : SameRows crates blocks_register s t

  -- No key of a replicated table has two different rows with one timestamp.
  pub record Untied (s : Store J) (recs : List (ℕ × FactRecord V)) : Type 0 where
    pub objects : NoTies crates objects_register s recs
    pub users : NoTies crates users_register s recs
    pub locations : NoTies crates locations_register s recs
    pub blocks : NoTies crates blocks_register s recs

  -- Two sites that agree, and that apply the same facts in any two orders, with any repetitions, agree afterwards, provided that no key gets two different rows with one timestamp.
  pub sites_converge :
      (s t s' t' : Store J) (recs others : List (ℕ × FactRecord V))
      → apply_all crates s recs ≡ ok s'
      → apply_all crates t others ≡ ok t'
      → SameFacts recs others
      → Agree s t
      → Untied s recs
      → Agree s' t'
  sites_converge s t s' t' recs others h g same agree untied = record {
    objects =
        register_converges crates objects_register s t s' t' recs others h g same agree.objects
          untied.objects;
    users =
        register_converges crates users_register s t s' t' recs others h g same agree.users
          untied.users;
    locations =
        register_converges crates locations_register s t s' t' recs others h g same agree.locations
          untied.locations;
    blocks =
        register_converges crates blocks_register s t s' t' recs others h g same agree.blocks
          untied.blocks;
  }

-- What the code relies on in the crates: texts parse back to what they were printed from.
module _ {V J : Type 0} (crates : Crates V J) where
  pub record Laws : Type 0 where
    pub hex : (b : Bytes) → IsBytes b → crates.hex_decode (crates.hex_encode b) ≡ some b
    pub fact : (f : Fact V) → crates.fact_from_str (crates.fact_to_string f) ≡ some f
    pub policy : (p : _) → crates.policy_from_str (crates.policy_to_string p) ≡ some p
    pub value :
        (p : _)
        → crates.policy_from_str (crates.value_to_string (crates.policy_to_value p)) ≡ some p
