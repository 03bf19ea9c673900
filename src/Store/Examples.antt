-- ===== src/Store/Examples.antt =====
-- The store on small data.
use shardscape.Base.{
  ℕ, pos, ◌≡◌, refl, sym, ap, ◌∙◌, ◌⊎◌, inl, inr, true, false, List, [], ◌∷◌, Bytes, text, none,
  some, ok, arith, take, drop, if◌then◌else◌, ◌==◌, ◌&&◌, list_eq, nat_eq, pair_eq,
}
use shardscape.Fixtures.{
  Doc, plain_crates, plain_crates-Laws, site_a, site_b, put_fact, delete_fact, hash_1, small_store,
}
use shardscape.Hashing.{compute_shard_id}
use shardscape.Policy.{Policy}
use shardscape.Store.{Store, ObjectRow, FactRecord, now_micros}
use shardscape.Store.Objects.{get_object, insert_object, encode_blocks}
use shardscape.Store.Facts.{apply_fact, facts_since}
use shardscape.Store.Queries.{key_range}
use shardscape.Store.Registers.{after_write, get_object-insert_object}
use shardscape.Store.Writes.{object_writes, user_writes, location_writes, block_writes}
use shardscape.Store.Convergence.{
  apply_all, delivered, SameFacts, all_writes, NoTies, MayHold, SameRows,
}
use shardscape.Store.Sites.{Agree, Untied, sites_converge, objects_register}
use shardscape.Store.Log.{append_all, numbered, facts_since-append_all}
use shardscape.Base.{In, list_beq, sym, ◌∙◌, inl, inr}
use shardscape.Store.Queries.{live_in, above, below}
use shardscape.Store.Walk.{walk, KeysDiffer, walk_complete}
use shardscape.Table.{lookup}
use shardscape.Table.Lww.{In-rows_at, rows_at}

get_object-insert_object_example :
    get_object
      (insert_object plain_crates site_a 9
        (text "bk")
        43
        (text "k")
        (hash_1 ∷ [])
        (pos 4)
        (text "e"))
      (text "bk")
      (text "k")
    ≡ (if (text "bk" == text "bk") && (text "k" == text "k")
        then after_write
            (now_micros site_a 9)
            (some (hash_1 ∷ [], pos 4, text "e"))
            (lookup (text "bk", text "k") site_a.objects)
        else get_object site_a (text "bk") (text "k"))
get_object-insert_object_example =
    get_object-insert_object plain_crates site_a 9 (text "bk") 43 (text "k") (hash_1 ∷ []) (pos 4)
      (text "e") (text "bk") (text "k") (refl, tt)

facts_since-append_all_example :
    facts_since plain_crates
      (append_all plain_crates site_a ((pos 5, put_fact.fact) ∷ (pos 7, delete_fact.fact) ∷ []))
      (pos 1)
      (pos 10)
    ≡ ok (
        take 10 (
          drop 1
            (numbered plain_crates 0 ((pos 5, put_fact.fact) ∷ (pos 7, delete_fact.fact) ∷ []))))
facts_since-append_all_example =
    facts_since-append_all plain_crates site_a
      ((pos 5, put_fact.fact) ∷ (pos 7, delete_fact.fact) ∷ []) 1 10 plain_crates-Laws refl refl

-- The same two facts, in both orders and one of them twice.
abbrev in_order : List (ℕ × FactRecord Policy)
in_order = (10, put_fact) ∷ (11, delete_fact) ∷ []

abbrev out_of_order : List (ℕ × FactRecord Policy)
out_of_order = (20, delete_fact) ∷ (21, put_fact) ∷ (22, put_fact) ∷ []

abbrev put_row : ObjectRow
put_row = record {
  blocks = encode_blocks [];
  size = pos 0;
  etag = text "e";
  shard_id = compute_shard_id plain_crates.blake3 (text "k");
  updated_at = pos 5;
  deleted = false;
}

abbrev delete_row : ObjectRow
delete_row = record {
  blocks = [];
  size = pos 0;
  etag = [];
  shard_id = compute_shard_id plain_crates.blake3 (text "k");
  updated_at = pos 7;
  deleted = true;
}

held :
    (k : Bytes × Bytes) (r : ObjectRow)
    → MayHold plain_crates (objects_register plain_crates) site_a in_order k r
    → (r ≡ put_row) ⊎ (r ≡ delete_row)
unfolding MayHold all_writes object_writes lookup
held k r (inl e) = absurd (cc (e))
held k r (inr m) =
    elim (In-rows_at k r
      (all_writes plain_crates (objects_register plain_crates) (delivered in_order)) m) [
        | inl q ↦ inl (ap (λ (w : (Bytes × Bytes) × ObjectRow). w.1) q)
        | inr n ↦ elim n [
          | inl q ↦ inr (ap (λ (w : (Bytes × Bytes) × ObjectRow). w.1) q)
          | inr z ↦ absurd z
        ]
      ]

stamps :
    (r q : ObjectRow)
    → (r ≡ put_row) ⊎ (r ≡ delete_row)
    → (q ≡ put_row) ⊎ (q ≡ delete_row)
    → r.updated_at ≡ q.updated_at
    → r ≡ q
stamps r q (inl a) (inl b) e = a ∙ sym b
stamps r q (inr a) (inr b) e = a ∙ sym b
stamps r q (inl a) (inr b) e = absurd (
    let x : pos 5 ≡ pos 7 =
      sym (ap (λ (w : ObjectRow). w.updated_at) a) ∙ e ∙ ap (λ (w : ObjectRow). w.updated_at) b in
    ground (arith, x))
stamps r q (inr a) (inl b) e = absurd (
    let x : pos 7 ≡ pos 5 =
      sym (ap (λ (w : ObjectRow). w.updated_at) a) ∙ e ∙ ap (λ (w : ObjectRow). w.updated_at) b in
    ground (arith, x))

untied : Untied plain_crates site_a in_order
unfolding NoTies MayHold all_writes user_writes location_writes block_writes lookup rows_at
untied = record {
  objects = λ k r q m n e. stamps r q (held k r m) (held k q n) e;
  users = λ k r q m n e. absurd (elim m [ inl x ↦ cc (x) | inr y ↦ y ]);
  locations = λ k r q m n e. absurd (elim m [ inl x ↦ cc (x) | inr y ↦ y ]);
  blocks = λ k r q m n e. absurd (elim m [ inl x ↦ cc (x) | inr y ↦ y ]);
}

same_facts : SameFacts in_order out_of_order
same_facts f = (
  λ m. elim m [ inl p ↦ inr (inl p) | inr n ↦ elim n [ inl q ↦ inl q | inr z ↦ absurd z ] ],
  λ m. elim m [
    | inl q ↦ inr (inl q)
    | inr n ↦ elim n [ inl p ↦ inl p | inr l ↦ elim l [ inl p ↦ inl p | inr z ↦ absurd z ] ]
  ],
)

agree : Agree plain_crates site_a site_b
unfolding SameRows
agree = record { objects = λ k. refl; users = λ k. refl; locations = λ k. refl; blocks = λ k. refl }

after_a : (t : Store Doc) × (apply_all plain_crates site_a in_order ≡ ok t)
unfolding apply_all apply_fact
after_a = (_, refl)

after_b : (t : Store Doc) × (apply_all plain_crates site_b out_of_order ≡ ok t)
unfolding apply_all apply_fact
after_b = (_, refl)

sites_converge_example : Agree plain_crates after_a.0 after_b.0
sites_converge_example =
    sites_converge plain_crates site_a site_b after_a.0 after_b.0 in_order out_of_order after_a.1
      after_b.1 same_facts agree untied

small_store-KeysDiffer : KeysDiffer small_store (text "bk") none 1
unfolding live_in list_beq
small_store-KeysDiffer a b (inl e) (inl f) same = e ∙ sym f
small_store-KeysDiffer a b (inr m) n same = absurd m
small_store-KeysDiffer a b (inl e) (inr m) same = absurd m

walk_complete_example : In (text "k", pos 4, text "e") (walk small_store (text "bk") none 1 2 none)
unfolding live_in list_beq key_range above below
walk_complete_example =
    walk_complete small_store (text "bk") none 1 2 none none none (text "k", pos 4, text "e") refl
      (omega arith) small_store-KeysDiffer (inl refl) refl (omega arith)
