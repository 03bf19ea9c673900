-- ===== src/Store/Nodes.antt =====
-- The registry of nodes of src/store.rs.
use shardscape.Base.{ℕ, Bytes, List, [], ◌∷◌, ◌==◌, not, keep, if◌then◌else◌, list_eq, nat_eq}
use shardscape.Store.{Store, NodeRow, now_millis}
use shardscape.Table.{Table, upsert}

abbrev pub urls : Table Bytes NodeRow → List (Bytes × Bytes)
urls [] = []
urls ((id, row) ∷ rows) = (id, row.api_url) ∷ urls rows

module _ {J : Type 0} where
  unfoldable pub upsert_node : Store J → ℕ → Bytes → Bytes → Store J
  upsert_node s system location_id api_url =
      let node : NodeRow = record { api_url = api_url; last_heartbeat = now_millis s system } in
      record s { nodes = upsert location_id node (λ row. node) s.nodes }

  unfoldable pub register_node : Store J → ℕ → Bytes → Store J
  register_node s system api_url = upsert_node s system s.local_location_id api_url

  -- A peer's address; this node's own is left to `register_node`.
  unfoldable pub record_peer : Store J → ℕ → Bytes → Bytes → Store J
  record_peer s system location_id api_url =
      if location_id == s.local_location_id then s else upsert_node s system location_id api_url

  unfoldable pub all_nodes : Store J → List (Bytes × Bytes)
  all_nodes s = urls s.nodes

  unfoldable pub get_peers : Store J → List (Bytes × Bytes)
  get_peers s = keep (λ (node : Bytes × Bytes). not (node.0 == s.local_location_id)) (all_nodes s)

  -- As a map: the location ids are the table's keys, so none stands twice.
  unfoldable pub get_peers_with_urls : Store J → Table Bytes Bytes
  get_peers_with_urls s = get_peers s
