-- ===== src/Store.antt =====
-- The metadata store of src/store.rs: its tables, the facts that sites exchange, and the crates that
-- it calls. The tables stand in the record `Store` as SQLite holds them.
pub mod Objects
pub mod Blocks
pub mod Queue
pub mod Facts
pub mod Users
pub mod Nodes
pub mod Multipart
pub mod Gc
pub mod Queries
pub mod Manifests
pub mod Registers
pub mod Writes
pub mod Convergence
pub mod Sites
pub mod Log
pub mod Cursors
pub mod Locations
pub mod Sorting
pub mod Listing
pub mod Walk
mod Examples
use shardscape.Base.{ℕ, ℤ, Bool, List, [], Bytes, Option, Result, div_ℤ}
use shardscape.Clock
use shardscape.Clock.{ClusterClock}
use shardscape.Policy.{Policy}
use shardscape.Table.{Table}

-- One replicated change, hashes and fids in hexadecimal; `V` is serde_json's `Value`.
pub data Fact (V : Type 0) : Type 0 where
  object_put : (bucket key : Bytes) (blocks : List Bytes) (size : ℤ) (etag : Bytes) → Fact V
  object_delete : (bucket key : Bytes) → Fact V
  block_announce : (hash location_id fid : Bytes) (size : ℤ) → Fact V
  user_put : (access_key secret_key : Bytes) (policy : V) → Fact V

pub record FactRecord (V : Type 0) : Type 0 where
  pub seq : ℤ
  pub ts : ℤ
  pub fact : Fact V

-- The functions of other crates that the store calls: blake3, hex and serde_json, whose texts are
-- the type `J`. Serializing a fact or a policy cannot fail; parsing can.
pub record Crates (V J : Type 0) : Type 0 where
  pub blake3 : Bytes → Bytes
  pub hex_encode : Bytes → Bytes
  pub hex_decode : Bytes → Option Bytes
  pub fact_to_string : Fact V → J
  pub fact_from_str : J → Option (Fact V)
  pub policy_to_value : Policy → V
  pub value_to_string : V → J
  pub policy_to_string : Policy → J
  pub policy_from_str : J → Option Policy

pub record ObjectRow : Type 0 where
  pub blocks : Bytes
  pub size : ℤ
  pub etag : Bytes
  pub shard_id : ℕ
  pub updated_at : ℤ
  pub deleted : Bool

pub record BlockRow : Type 0 where
  pub size : ℤ
  pub updated_at : ℤ

pub record LocationRow : Type 0 where
  pub fid : Bytes
  pub updated_at : ℤ

pub record UserRow (J : Type 0) : Type 0 where
  pub secret_key : Bytes
  pub policy : J
  pub updated_at : ℤ

pub record PartRow : Type 0 where
  pub blocks : Bytes
  pub size : ℤ
  pub etag : Bytes

pub record NodeRow : Type 0 where
  pub api_url : Bytes
  pub last_heartbeat : ℤ

pub record QueueRow : Type 0 where
  pub next_attempt_at : ℤ
  pub attempts : ℕ
  pub enqueued_at : ℤ

pub record FactRow (J : Type 0) : Type 0 where
  pub seq : ℕ
  pub ts : ℤ
  pub kind : Bytes
  pub payload : J

-- Keys: `objects` and `multipart_uploads` (bucket, key or upload), `block_locations` (hash, site),
-- `parts` (bucket, upload, number), `replication_queue` (target, hash). `fact_seq` is the counter
-- of the log's AUTOINCREMENT.
pub record Store (J : Type 0) : Type 0 where
  pub local_location_id : Bytes
  pub clock : ClusterClock
  pub objects : Table (Bytes × Bytes) ObjectRow
  pub blocks : Table Bytes BlockRow
  pub block_locations : Table (Bytes × Bytes) LocationRow
  pub pending_deletions : Table Bytes ℤ
  pub users : Table Bytes (UserRow J)
  pub multipart_uploads : Table (Bytes × Bytes) Bytes
  pub parts : Table ((Bytes × Bytes) × ℤ) PartRow
  pub nodes : Table Bytes NodeRow
  pub replication_queue : Table (Bytes × Bytes) QueueRow
  pub fact_log : List (FactRow J)
  pub fact_seq : ℕ
  pub replication_cursors : Table Bytes ℤ

-- A store on a fresh file, after its migration.
abbrev pub new : {J : Type 0} → Bytes → ClusterClock → Store J
new local_location_id clock = record {
  local_location_id = local_location_id;
  clock = clock;
  objects = [];
  blocks = [];
  block_locations = [];
  pending_deletions = [];
  users = [];
  multipart_uploads = [];
  parts = [];
  nodes = [];
  replication_queue = [];
  fact_log = [];
  fact_seq = 0;
  replication_cursors = [];
}

unfoldable pub now_micros : {J : Type 0} → Store J → ℕ → ℤ
now_micros s system = Clock.now_micros s.clock system

unfoldable pub now_millis : {J : Type 0} → Store J → ℕ → ℤ
now_millis s system = div_ℤ (now_micros s system) 1000
