-- ===== src/Internal.antt =====
-- The HTTP interface between sites, `handle_internal_request` of src/main.rs.
pub mod Lossy
pub mod Query
pub mod Join
pub mod Registered
pub mod Guarded
pub mod Gossip
mod Examples
use shardscape.Base.{
  ℕ, ℤ, pos, List, [], ◌∷◌, Bytes, text, Option, none, some, Bool, ◌&&◌, Result, ok, err, ◌>>=◌,
  ◌==◌, nat_beq, length, strip_prefix, parse_i64, if◌then◌else◌, list_eq, nat_eq,
}
use shardscape.Distributed.{BlobStore, Site, get_block}
use shardscape.Distributed.Cycle.{SweepTimes, force_sweep}
use shardscape.Internal.Query.{is_full, url_query_pairs}
use shardscape.Store.{Store, Crates, FactRecord, now_micros}
use shardscape.Store.Facts.{facts_since}
use shardscape.Store.Nodes.{all_nodes, record_peer}
use shardscape.Sync.{fact_sync_batch}

-- What the handler reads of a request: the header X-Shardscape-Secret, and the path and the query of the
-- URI.
pub record Request : Type 0 where
  pub secret : Option Bytes
  pub path : Bytes
  pub query : Option Bytes

-- What it reads of the configuration.
pub record Settings : Type 0 where
  pub cluster_secret : Bytes
  pub local_location_id : Bytes
  pub advertise_addr : Bytes

-- Bodies in JSON are the values that they hold.
pub data Body (V : Type 0) : Type 0 where
  message : Bytes → Body V
  cluster_config : ℤ → Bytes → Bytes → Body V
  nodes : List (Bytes × Bytes) → Body V
  facts : List (FactRecord V) → Body V
  block : Bytes → Body V

pub record Response (V : Type 0) : Type 0 where
  pub status : ℕ
  pub body : Body V

abbrev pub answer : {V : Type 0} → ℕ → Body V → Response V
answer status body = record { status = status; body = body }

abbrev pub says : {V : Type 0} → ℕ → Bytes → Response V
says status words = answer status (message words)

-- The id and the address of a joining node: the last ones that the query has.
unfoldable pub join_fields : List (Bytes × Bytes) → Bytes × Bytes → Bytes × Bytes
join_fields [] fields = fields
join_fields ((k, v) ∷ pairs) (id, addr) =
    join_fields pairs
      (if k == text "id" then (v, addr) else if k == text "addr" then (id, v) else (id, addr))

abbrev pub query_pairs : Option Bytes → Result (List (Bytes × Bytes))
query_pairs none = ok []
query_pairs (some q) = url_query_pairs q

abbrev pub or_no_facts : {V : Type 0} → Result (List (FactRecord V)) → List (FactRecord V)
or_no_facts (err e) = []
or_no_facts (ok rows) = rows

abbrev pub or_0 : Option ℤ → ℤ
or_0 none = pos 0
or_0 (some n) = n

module _ {V J D : Type 0} (crates : Crates V J) (blob : BlobStore D) where
  abbrev pub register : Site J D → ℕ → Bytes × Bytes → Site J D
  register site system (id, addr) =
      if is_full id && is_full addr
      then record site { store = record_peer site.store system id addr }
      else site

  unfoldable pub join : Site J D → ℕ → Option Bytes → Result (Response V × Site J D)
  join site system query = query_pairs query >>= λ pairs.
      ok (says 200 (text "ok"), register site system (join_fields pairs ([], [])))

  -- An unreadable row of the log makes an empty answer.
  abbrev pub facts_after : Site J D → Bytes → Response V
  facts_after site after = answer 200 (
      facts (
        or_no_facts (facts_since crates site.store (or_0 (parse_i64 after)) (pos fact_sync_batch))))

  abbrev pub block_answer : Option Bytes → Response V
  block_answer none = says 404 (text "Not found")
  block_answer (some bytes) = answer 200 (block bytes)

  -- A block that is not here is asked for at other sites, as for a client.
  unfoldable pub serve_block :
      (Bytes → Bytes → Option Bytes) → Site J D → ℕ → Bytes → Response V × Site J D
  serve_block fetch site system hash_hex = elim (crates.hex_decode hash_hex) [
    | none ↦ (says 400 (text "Invalid hash"), site)
    | some hash ↦
        let got = get_block crates blob fetch site system hash in
        if nat_beq (length hash) 32
        then (block_answer (got.0), got.1)
        else (says 400 (text "Hash must be 32 bytes"), site)
  ]

  unfoldable pub route :
      (Bytes → Bytes → Option Bytes)
      → ℕ
      → SweepTimes
      → Settings
      → Bytes
      → Option Bytes
      → Site J D
      → Result (Response V × Site J D)
  route fetch system times settings path query site =
      let config : Body V =
        cluster_config (now_micros site.store system) settings.local_location_id
          settings.advertise_addr in
      let other : Result (Response V × Site J D) =
        elim (strip_prefix (text "/internal/facts/") path) [
          | some after ↦ ok (facts_after site after, site)
          | none ↦
              if path == text "/internal/gc/force"
              then ok (says 200 (text "ok"), force_sweep crates blob times site)
              else elim (strip_prefix (text "/internal/blocks/") path) [
                | some hash_hex ↦ ok (serve_block fetch site system hash_hex)
                | none ↦ ok (says 404 (text "Not found"), site)
              ]
        ] in
      if path == text "/internal/cluster/config"
      then ok (answer 200 config, site)
      else if path == text "/internal/nodes"
      then ok (answer 200 (nodes (all_nodes site.store)), site)
      else if path == text "/internal/join"
      then join site system query
      else other

  unfoldable pub handle_internal_request :
      (Bytes → Bytes → Option Bytes)
      → ℕ
      → SweepTimes
      → Settings
      → Request
      → Site J D
      → Result (Response V × Site J D)
  handle_internal_request fetch system times settings request site = elim (request.secret) [
    | none ↦ ok (says 401 (text "Unauthorized"), site)
    | some secret ↦
        if secret == settings.cluster_secret
        then route fetch system times settings request.path request.query site
        else ok (says 401 (text "Unauthorized"), site)
  ]
