-- ===== src/Sync.antt =====
-- The pull of a peer's facts, `sync_facts_once` of src/main.rs, for one peer.
pub mod Ends
pub mod Pull
mod Examples
use shardscape.Base.{
  ℕ, zero, suc, ℤ, pos, ltb, ltb_ℤ, List, [], ◌∷◌, Bytes, Option, none, some, Result, ok, err,
  diverges, length, if◌then◌else◌,
}
use shardscape.Store.{Store, Crates, FactRecord}
use shardscape.Store.Facts.{apply_fact, get_cursor, set_cursor}

abbrev pub fact_sync_batch : ℕ
fact_sync_batch = 500

abbrev pub max_ℤ : ℤ → ℤ → ℤ
max_ℤ a b = if ltb_ℤ a b then b else a

module _ {V J : Type 0} (crates : Crates V J) where
  -- A page of facts, with the highest number that was applied: a fact that fails is passed over.
  unfoldable pub apply_page : Store J → ℕ → List (FactRecord V) → ℤ → Store J × ℤ
  apply_page s system [] max_seq = (s, max_seq)
  apply_page s system (f ∷ facts) max_seq = elim (apply_fact crates s system f) [
    | err e ↦ apply_page s system facts max_seq
    | ok next ↦ apply_page next system facts (max_ℤ max_seq f.seq)
  ]

  -- One page, and the cursor after it.
  unfoldable pub sync_page : Store J → ℕ → Bytes → List (FactRecord V) → Store J
  sync_page s system peer facts =
      let applied = apply_page s system facts (get_cursor s peer) in
      set_cursor applied.0 peer applied.1

  -- `noise_get_facts after` is a request to the peer. The loop has no bound of its own.
  unfoldable pub sync_peer :
      ℕ → (ℤ → Option (List (FactRecord V))) → Store J → ℕ → Bytes → Result (Store J)
  sync_peer zero noise_get_facts s system peer = err diverges
  sync_peer (suc fuel) noise_get_facts s system peer = elim (noise_get_facts (get_cursor s peer)) [
    | none ↦ ok s
    | some [] ↦ ok s
    | some (f ∷ facts) ↦
        let next = sync_page s system peer (f ∷ facts) in
        let rest = sync_peer fuel noise_get_facts next system peer in
        if ltb (length (f ∷ facts)) fact_sync_batch then ok next else rest
  ]
