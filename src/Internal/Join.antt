-- ===== src/Internal/Join.antt =====
-- `perform_join_handshake` and `gossip_membership` of src/main.rs. A request to another site is a function
-- from its URL to the body of the answer, `none` when it fails.
use shardscape.Base.{ℕ, ℤ, List, [], ◌∷◌, ◌++◌, Bytes, text, Option, none, some}
use shardscape.Clock.{ClusterClock, offset_of, set_offset}
use shardscape.Store.{Store}
use shardscape.Store.Nodes.{record_peer}

-- The query with which a node registers itself; its parts stand there as they are.
unfoldable pub register_query : Bytes → Bytes → Bytes
register_query local_location_id advertise_addr =
    text "id=" ++ local_location_id ++ text "&addr=" ++ advertise_addr

-- What a join has determined: the query that was sent, the clock, the offset that is saved with the
-- configuration, and the peer.
pub record Joined : Type 0 where
  pub registered : Bytes
  pub clock : ClusterClock
  pub clock_offset_ms : ℤ
  pub peer_id : Bytes
  pub peer_url : Bytes

abbrev pub or_url : Bytes → Bytes → Bytes
or_url [] url = url
or_url (c ∷ id) url = c ∷ id

-- The peer's configuration is its time and its id; its answer to the registration does not matter.
unfoldable pub perform_join_handshake :
    Bytes → Option (ℤ × Bytes) → ℕ → ℕ → Bytes → Bytes → ClusterClock → Option Joined
perform_join_handshake peer_url none rtt_micros system local_location_id advertise_addr clock = none
perform_join_handshake peer_url (some (cluster_time_micros, location_id)) rtt_micros system
      local_location_id advertise_addr clock =
    let offset_ms = offset_of cluster_time_micros rtt_micros system in
    some (record {
      registered = register_query local_location_id advertise_addr;
      clock = set_offset offset_ms clock;
      clock_offset_ms = offset_ms;
      peer_id = or_url location_id peer_url;
      peer_url = peer_url;
    })

module _ {J : Type 0} where
  unfoldable pub record_peers : Store J → ℕ → List (Bytes × Bytes) → Store J
  record_peers s system [] = s
  record_peers s system ((id, url) ∷ nodes) =
      record_peers (record_peer s system id url) system nodes

  -- `noise_get_nodes url` is the peer's list of nodes.
  unfoldable pub gossip_membership :
      (Bytes → Option (List (Bytes × Bytes))) → Store J → ℕ → List (Bytes × Bytes) → Store J
  gossip_membership noise_get_nodes s system [] = s
  gossip_membership noise_get_nodes s system ((peer_id, peer_url) ∷ peers) =
      elim (noise_get_nodes peer_url) [
        | none ↦ gossip_membership noise_get_nodes s system peers
        | some nodes ↦ gossip_membership noise_get_nodes (record_peers s system nodes) system peers
      ]
