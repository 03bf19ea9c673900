-- ===== src/Store/Cursors.antt =====
-- Cursors, nodes and the replication queue of src/store.rs, read back after their writes.
use shardscape.Base.{
  subst, ℕ, zero, suc, ℤ, pos, ◌≤ℤ◌, ltb_ℤ, leb, ◌*◌, ◌^◌, ◌≤◌, min, ◌≡◌, refl, [], ◌∷◌, Bytes,
  Option, none, some, ◌==◌, ◌&&◌, if◌then◌else◌, arith, pair_beq, pair_eq, list_eq, nat_eq,
  Bool-cases, inl, inr, eq_iff, eq_refl, to_i64, to_u64, of_u64,
}
use shardscape.Store.{Store, now_millis}
use shardscape.Store.Facts.{get_cursor, set_cursor, cursor_or_zero}
use shardscape.Store.Queue.{replication_backoff_ms, shl_or, enqueue_replication, enqueue_all}
use shardscape.Table.{lookup, lookup-upsert, upserted}

pow_mono : (a b : ℕ) → a ≤ b → 2 ^ a ≤ 2 ^ b
pow_mono zero zero h = omega arith
pow_mono zero (suc b) h = omega (arith, pow_mono zero b (omega arith))
pow_mono (suc a) zero h = absurd (omega arith)
pow_mono (suc a) (suc b) h = omega (arith, pow_mono a b (omega arith))

abbrev raised : ℕ → ℤ → ℤ
raised seq old = if ltb_ℤ old (pos seq) then pos seq else old

raised_lem :
    (seq : ℕ) (o : Option ℤ)
    → (cursor_or_zero o ≤ℤ upserted (pos seq) (raised seq) o)
      × (pos seq ≤ℤ upserted (pos seq) (raised seq) o)
raised_lem seq none = (omega arith, omega arith)
raised_lem seq (some old) = (ground arith, ground arith)

-- The backoff of a retry is one minute doubled with each failed attempt, and at most six hours, for every number of attempts.
pub replication_backoff_ms-eq :
    (attempts : ℕ)
    → replication_backoff_ms (pos attempts) ≡ pos (min (60000 * 2 ^ attempts) 21600000)
unfolding replication_backoff_ms shl_or to_i64 to_u64 of_u64
replication_backoff_ms-eq zero = refl
replication_backoff_ms-eq (suc n) = elim (Bool-cases (leb 40 (suc n))) [
  | inl high ↦ let p = pow_mono 40 (suc n) (ground arith) in ground arith
  | inr low ↦ let p = pow_mono (suc n) 40 (ground arith) in ground arith
]

module _ {J : Type 0} where
  -- Setting a cursor to a number moves no cursor backward, and the cursor set reaches the number.
  pub set_cursor_mono :
      (s : Store J) (peer other : Bytes) (seq : ℕ)
      → (get_cursor s other ≤ℤ get_cursor (set_cursor s peer (pos seq)) other)
        × (pos seq ≤ℤ get_cursor (set_cursor s peer (pos seq)) peer)
  unfolding get_cursor set_cursor
  set_cursor_mono s peer other seq =
      let (grows, reaches) = raised_lem seq (lookup peer s.replication_cursors) in
      let moved = lookup-upsert peer other (pos seq) (raised seq) s.replication_cursors in
      let reached = lookup-upsert peer peer (pos seq) (raised seq) s.replication_cursors in
      (
        elim (Bool-cases (peer == other)) [
          | inl same ↦
              rw (moved, same)
                (subst
                  (λ p.
                    cursor_or_zero (lookup p s.replication_cursors)
                    ≤ℤ upserted (pos seq) (raised seq) (lookup peer s.replication_cursors))
                  ((eq_iff peer other).0 same) grows)
          | inr distinct ↦ rw (moved, distinct) (omega arith)
        ],
        rw (reached, eq_refl peer) reaches,
      )

  pub lookup-enqueue_replication :
      (s : Store J) (system : ℕ) (hash target site h : Bytes)
      → lookup (site, h) (enqueue_replication s system hash (target ∷ [])).replication_queue ≡ (
          if (target == site) && (hash == h)
          then some (
              upserted
                (record {
                  next_attempt_at = pos 0;
                  attempts = 0;
                  enqueued_at = now_millis s system;
                })
                (λ row. row)
                (lookup (target, hash) s.replication_queue))
          else lookup (site, h) s.replication_queue)
  unfolding enqueue_replication enqueue_all pair_beq
  lookup-enqueue_replication s system hash target site h =
      lookup-upsert (target, hash) (site, h) _ (λ row. row) s.replication_queue
