-- ===== src/Sync/Pull.antt =====
-- What a pull applies, and what it passes over.
use shardscape.Base.{
  ℕ, ℤ, ◌≤ℤ◌, ltb_ℤ, ◌≡◌, refl, ap, subst, false, List, [], ◌∷◌, Bytes, Option, none, some, Result,
  ok, err, if◌then◌else◌, bind_inverts, In, inl, inr, ◌⊎◌, arith, eq_refl, list_eq, nat_eq,
}
use shardscape.Store.{Store, Crates, FactRecord}
use shardscape.Store.Facts.{apply_fact, get_cursor, set_cursor}
use shardscape.Store.Convergence.{apply_all}
use shardscape.Sync.{apply_page, sync_page, max_ℤ}
use shardscape.Table.{lookup, lookup-upsert, upserted}

reached :
    (o : Option ℤ) (seq : ℤ) → seq ≤ℤ upserted seq (λ old. if ltb_ℤ old seq then seq else old) o
reached none seq = omega arith
reached (some old) seq = ground arith

set_cursor_reaches :
    {J : Type 0} (s : Store J) (peer : Bytes) (seq : ℤ)
    → seq ≤ℤ get_cursor (set_cursor s peer seq) peer
unfolding get_cursor set_cursor
set_cursor_reaches s peer seq =
    rw
      (
        lookup-upsert peer peer seq (λ old. if ltb_ℤ old seq then seq else old)
            s.replication_cursors,
        eq_refl peer,
      )
      (reached (lookup peer s.replication_cursors) seq)

result-cases : {A : Type 0} (r : Result A) → ((e : _) × (r ≡ err e)) ⊎ ((a : A) × (r ≡ ok a))
result-cases (ok a) = inr (a, refl)
result-cases (err e) = inl (e, refl)

module _ {V J : Type 0} (crates : Crates V J) where
  abbrev pub at_time : ℕ → List (FactRecord V) → List (ℕ × FactRecord V)
  at_time system [] = []
  at_time system (f ∷ facts) = (system, f) ∷ at_time system facts

  -- A page of which every fact applies leaves the store that applying its facts in order gives.
  pub apply_page-apply_all :
      (s t : Store J) (system : ℕ) (facts : List (FactRecord V)) (max_seq : ℤ)
      → apply_all crates s (at_time system facts) ≡ ok t
      → (apply_page crates s system facts max_seq).0 ≡ t
  unfolding apply_page apply_all
  apply_page-apply_all s t system [] max_seq h = cc (h)
  apply_page-apply_all s t system (f ∷ facts) max_seq h =
      let (next, rest, first) =
        bind_inverts (apply_fact crates s system f) (λ n. apply_all crates n (at_time system facts))
          h in
      rw (first, apply_page) (apply_page-apply_all next t system facts (max_ℤ max_seq f.seq) rest)

  apply_page_mono :
      (s : Store J) (system : ℕ) (facts : List (FactRecord V)) (max_seq : ℤ)
      → max_seq ≤ℤ (apply_page crates s system facts max_seq).1
  unfolding apply_page
  apply_page_mono s system [] max_seq = omega arith
  apply_page_mono s system (f ∷ facts) max_seq =
      elim (result-cases (apply_fact crates s system f)) [
        | inl (e, failed) ↦ rw (failed, apply_page) (apply_page_mono s system facts max_seq)
        | inr (next, applied) ↦
            let rest = apply_page_mono next system facts (max_ℤ max_seq f.seq) in
            rw (applied, apply_page) (ground (arith, rest))
      ]

  -- A fact that applies to every store.
  abbrev pub Applies : ℕ → FactRecord V → Type 0
  Applies system g = (s : Store J) → (t : Store J) × (apply_fact crates s system g ≡ ok t)

  apply_page-reaches :
      (s : Store J) (system : ℕ) (facts : List (FactRecord V)) (max_seq : ℤ) (g : FactRecord V)
      → In g facts
      → Applies system g
      → g.seq ≤ℤ (apply_page crates s system facts max_seq).1
  unfolding apply_page
  apply_page-reaches s system [] max_seq g m h = absurd m
  apply_page-reaches s system (f ∷ facts) max_seq g (inl q) h =
      let (next, applied) = subst (Applies system) q h s in
      let rest = apply_page_mono next system facts (max_ℤ max_seq f.seq) in
      rw (applied, apply_page) (ground (arith, rest, ap (λ (x : FactRecord V). x.seq) q))
  apply_page-reaches s system (f ∷ facts) max_seq g (inr m) h =
      elim (result-cases (apply_fact crates s system f)) [
        | inl (e, failed) ↦
            rw (failed, apply_page) (apply_page-reaches s system facts max_seq g m h)
        | inr (next, applied) ↦
            rw (applied, apply_page)
              (apply_page-reaches next system facts (max_ℤ max_seq f.seq) g m h)
      ]

  -- After a page in which some fact applies, no fact with the same or a lower number is asked for again, whether it applied or failed.
  pub sync_page-passes :
      (s : Store J) (system : ℕ) (peer : Bytes) (facts : List (FactRecord V)) (f g : FactRecord V)
      → In g facts
      → Applies system g
      → f.seq ≤ℤ g.seq
      → ltb_ℤ (get_cursor (sync_page crates s system peer facts) peer) f.seq ≡ false
  unfolding sync_page
  sync_page-passes s system peer facts f g m h le =
      let applied = apply_page crates s system facts (get_cursor s peer) in
      let reaches = apply_page-reaches s system facts (get_cursor s peer) g m h in
      let written = set_cursor_reaches applied.0 peer applied.1 in
      ground (arith, reaches, written, le)
