-- ===== src/Internal/Gossip.antt =====
-- What a round of gossip leaves in the registry of nodes.
use shardscape.Base.{
  ℕ, ◌≡◌, refl, sym, ap, ◌∙◌, ◌⊎◌, inl, inr, false, List, [], ◌∷◌, Bytes, Option, some,
  Option-cases, Bool-cases, In, subst, ◌==◌, eq_iff, eq_refl, list_eq, nat_eq,
}
use shardscape.Internal.Join.{record_peers, gossip_membership}
use shardscape.Store.{Store, NodeRow, now_millis}
use shardscape.Store.Nodes.{record_peer, upsert_node}
use shardscape.Table.{lookup, lookup-upsert, upserted}

module _ {J : Type 0} where
  -- The registry knows a node.
  abbrev pub Knows : Store J → Bytes → Type 0
  Knows s id = (row : NodeRow) × (lookup id s.nodes ≡ some row)

  -- What recording peers does to the registry: this node's own row stays, and no node is forgotten.
  pub record Grows (s t : Store J) : Type 0 where
    pub local : t.local_location_id ≡ s.local_location_id
    pub own : lookup s.local_location_id t.nodes ≡ lookup s.local_location_id s.nodes
    pub keeps : (id : Bytes) → Knows s id → Knows t id

  same-Grows : (s : Store J) → Grows s s
  same-Grows s = record { local = refl; own = refl; keeps = λ id k. k }

  Grows-trans : {s t u : Store J} → Grows s t → Grows t u → Grows s u
  Grows-trans a b = record {
    local = b.local ∙ a.local;
    own = (rw (a.local) at b.own) ∙ a.own;
    keeps = λ id k. b.keeps id (a.keeps id k);
  }

  upsert_node-Grows :
      (s : Store J) (system : ℕ) (id url : Bytes)
      → (id == s.local_location_id) ≡ false
      → Grows s (upsert_node s system id url)
  unfolding upsert_node
  upsert_node-Grows s system id url e =
      let node : NodeRow = record { api_url = url; last_heartbeat = now_millis s system } in
      let read = λ (x : Bytes). lookup-upsert id x node (λ row. node) s.nodes in
      record {
        local = refl;
        own = read s.local_location_id ∙ rw e refl;
        keeps = λ x k. elim (Bool-cases (id == x)) [
          | inl same ↦ (upserted node (λ row. node) (lookup id s.nodes), read x ∙ rw same refl)
          | inr different ↦ (k.0, read x ∙ rw different (k.1))
        ];
      }

  record_peer-Grows :
      (s : Store J) (system : ℕ) (id url : Bytes) → Grows s (record_peer s system id url)
  unfolding record_peer
  record_peer-Grows s system id url = elim (Bool-cases (id == s.local_location_id)) [
    | inl e ↦ rw e (same-Grows s)
    | inr e ↦ rw e (upsert_node-Grows s system id url e)
  ]

  record_peer-Knows :
      (s : Store J) (system : ℕ) (id url : Bytes)
      → (id ≡ s.local_location_id) ⊎ Knows (record_peer s system id url) id
  unfolding record_peer upsert_node
  record_peer-Knows s system id url = elim (Bool-cases (id == s.local_location_id)) [
    | inl e ↦ inl ((eq_iff id s.local_location_id).0 e)
    | inr e ↦
        let node : NodeRow = record { api_url = url; last_heartbeat = now_millis s system } in
        inr (
          upserted node (λ row. node) (lookup id s.nodes),
          rw e (lookup-upsert id id node (λ row. node) s.nodes ∙ rw (eq_refl id) refl),
        )
  ]

  record_peers-Grows :
      (s : Store J) (system : ℕ) (nodes : List (Bytes × Bytes))
      → Grows s (record_peers s system nodes)
  unfolding record_peers
  record_peers-Grows s system [] = same-Grows s
  record_peers-Grows s system ((id, url) ∷ nodes) =
      Grows-trans (record_peer-Grows s system id url)
        (record_peers-Grows (record_peer s system id url) system nodes)

  record_peers-Knows :
      (s : Store J) (system : ℕ) (nodes : List (Bytes × Bytes)) (id url : Bytes)
      → In (id, url) nodes
      → (id ≡ s.local_location_id) ⊎ Knows (record_peers s system nodes) id
  unfolding record_peers
  record_peers-Knows s system [] id url m = absurd m
  record_peers-Knows s system ((x, u) ∷ nodes) id url m =
      let first = record_peer-Grows s system x u in
      let rest = record_peers-Grows (record_peer s system x u) system nodes in
      elim m [
        | inl here ↦
            let same : id ≡ x = ap (λ (p : Bytes × Bytes). p.0) here in
            elim (record_peer-Knows s system x u) [
              | inl own ↦ inl (same ∙ own)
              | inr k ↦
                  inr (rest.keeps id (subst (λ y. Knows (record_peer s system x u) y) (sym same) k))
            ]
        | inr later ↦
            elim (record_peers-Knows (record_peer s system x u) system nodes id url later) [
              | inl own ↦ inl (own ∙ first.local)
              | inr k ↦ inr k
            ]
      ]

  gossip-Grows :
      (get : Bytes → Option (List (Bytes × Bytes))) (s : Store J) (system : ℕ)
      (peers : List (Bytes × Bytes))
      → Grows s (gossip_membership get s system peers)
  unfolding gossip_membership
  gossip-Grows get s system [] = same-Grows s
  gossip-Grows get s system ((peer, url) ∷ peers) = elim (Option-cases (get url)) [
    | inl e ↦ rw (e, gossip_membership) (gossip-Grows get s system peers)
    | inr (nodes, e) ↦
        rw (e, gossip_membership)
          (Grows-trans (record_peers-Grows s system nodes)
            (gossip-Grows get (record_peers s system nodes) system peers))
  ]

  gossip-Knows :
      (get : Bytes → Option (List (Bytes × Bytes))) (s : Store J) (system : ℕ)
      (peers : List (Bytes × Bytes)) (peer peer_url id url : Bytes) (nodes : List (Bytes × Bytes))
      → In (peer, peer_url) peers
      → get peer_url ≡ some nodes
      → In (id, url) nodes
      → (id ≡ s.local_location_id) ⊎ Knows (gossip_membership get s system peers) id
  unfolding gossip_membership
  gossip-Knows get s system [] peer peer_url id url nodes m answers there = absurd m
  gossip-Knows get s system ((p, u) ∷ peers) peer peer_url id url nodes (inl here) answers there =
      let same : peer_url ≡ u = ap (λ (x : Bytes × Bytes). x.1) here in
      let e : get u ≡ some nodes = ap get (sym same) ∙ answers in
      rw (e, gossip_membership)
        (elim (record_peers-Knows s system nodes id url there) [
          | inl own ↦ inl own
          | inr k ↦ inr ((gossip-Grows get (record_peers s system nodes) system peers).keeps id k)
        ])
  gossip-Knows get s system ((p, u) ∷ peers) peer peer_url id url nodes (inr later) answers there =
      elim (Option-cases (get u)) [
        | inl e ↦
            rw (e, gossip_membership)
              (gossip-Knows get s system peers peer peer_url id url nodes later answers there)
        | inr (others, e) ↦
            let first = record_peers-Grows s system others in
            rw (e, gossip_membership)
              (elim (gossip-Knows get (record_peers s system others) system peers peer peer_url id
                url nodes later answers there) [
                  | inl own ↦ inl (own ∙ first.local)
                  | inr k ↦ inr k
                ])
      ]

  -- A round of gossip forgets no node, leaves this node's own row as it is, and learns every other node that one of the peers that answer has listed.
  pub gossip_membership-Grows :
      (get : Bytes → Option (List (Bytes × Bytes))) (s : Store J) (system : ℕ)
      (peers : List (Bytes × Bytes)) (peer peer_url id url : Bytes) (nodes : List (Bytes × Bytes))
      → In (peer, peer_url) peers
      → get peer_url ≡ some nodes
      → In (id, url) nodes
      → Grows s (gossip_membership get s system peers)
        × ((id ≡ s.local_location_id) ⊎ Knows (gossip_membership get s system peers) id)
  gossip_membership-Grows get s system peers peer peer_url id url nodes m answers there = (
    gossip-Grows get s system peers,
    gossip-Knows get s system peers peer peer_url id url nodes m answers there,
  )
