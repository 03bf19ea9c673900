-- ===== src/Store/Queue.antt =====
-- The replication queue of src/store.rs and its retry schedule.
use shardscape.Base.{
  ℕ, ℤ, pos, suc, ◌*◌, ◌^◌, ◌+ℤ◌, to_i64, leb, ltb, leb_ℤ, ltb_ℤ, pos_part, min, List, [], ◌∷◌,
  ◌==◌, Bytes, if◌then◌else◌, keep, map, take, sort, pair_eq, list_eq, nat_eq,
}
use shardscape.Store.{Store, QueueRow, now_millis}
use shardscape.Table.{Table, upsert, modify, delete}

abbrev pub replication_backoff_base_ms : ℤ
replication_backoff_base_ms = pos 60000

abbrev pub replication_backoff_cap_ms : ℤ
replication_backoff_cap_ms = pos 21600000

abbrev pub replication_drain_page : ℕ
replication_drain_page = 500

abbrev pub replication_stuck_attempts : ℕ
replication_stuck_attempts = 10

abbrev pub min_ℤ : ℤ → ℤ → ℤ
min_ℤ a b = if leb_ℤ a b then a else b

-- `i64::checked_shl(…).unwrap_or(…)`, of a number that is not negative.
unfoldable pub shl_or : ℤ → ℕ → ℤ → ℤ
shl_or a shift default = if ltb shift 64 then to_i64 (pos (pos_part a * 2 ^ shift)) else default

unfoldable pub replication_backoff_ms : ℤ → ℤ
replication_backoff_ms attempts =
    if leb_ℤ attempts (pos 0)
    then replication_backoff_base_ms
    else let shift = min (pos_part attempts) 40 in
      min_ℤ (shl_or replication_backoff_base_ms shift replication_backoff_cap_ms)
        replication_backoff_cap_ms

-- `ReplicationEntry`: a row as the drainer reads it.
pub record ReplicationEntry : Type 0 where
  pub hash : Bytes
  pub next_attempt_at : ℤ
  pub attempts : ℕ
  pub enqueued_at : ℤ

-- The rows of one target.
unfoldable pub queued_for : Bytes → Table (Bytes × Bytes) QueueRow → List ReplicationEntry
queued_for site [] = []
queued_for site (((target, hash), row) ∷ rows) =
    if target == site
    then record {
      hash = hash;
      next_attempt_at = row.next_attempt_at;
      attempts = row.attempts;
      enqueued_at = row.enqueued_at;
    }
      ∷ queued_for site rows
    else queued_for site rows

unfoldable pub enqueue_all :
    Bytes → ℤ → List Bytes → Table (Bytes × Bytes) QueueRow → Table (Bytes × Bytes) QueueRow
enqueue_all hash now_ms [] queue = queue
enqueue_all hash now_ms (target ∷ targets) queue = enqueue_all hash now_ms targets (
    upsert (target, hash) (record { next_attempt_at = pos 0; attempts = 0; enqueued_at = now_ms })
      (λ row. row) queue)

abbrev pub deferred : ℤ → QueueRow → QueueRow
deferred new_next row = record row { next_attempt_at = new_next; attempts = suc row.attempts }

module _ {J : Type 0} where
  unfoldable pub enqueue_replication : Store J → ℕ → Bytes → List Bytes → Store J
  enqueue_replication s system hash target_ids = record s {
    replication_queue = enqueue_all hash (now_millis s system) target_ids s.replication_queue;
  }

  unfoldable pub get_replication_queue : Store J → ℕ → List ReplicationEntry
  get_replication_queue s system =
      let now = now_millis s system in
      let ready =
        keep (λ (entry : ReplicationEntry). leb_ℤ entry.next_attempt_at now)
          (queued_for s.local_location_id s.replication_queue) in
      take replication_drain_page
        (sort (λ (a b : ReplicationEntry). ltb_ℤ a.next_attempt_at b.next_attempt_at) ready)

  unfoldable pub dequeue_replication : Store J → Bytes → ℤ → Store J
  dequeue_replication s hash next_attempt_at = record s {
    replication_queue = delete (s.local_location_id, hash) s.replication_queue;
  }

  unfoldable pub defer_replication : Store J → ℕ → ReplicationEntry → Store J
  defer_replication s system entry =
      let new_next = now_millis s system +ℤ replication_backoff_ms (pos entry.attempts) in
      record s {
        replication_queue =
            modify (s.local_location_id, entry.hash) (deferred new_next) s.replication_queue;
      }

  unfoldable pub get_stuck_replications : Store J → List (Bytes × ℕ × ℤ)
  get_stuck_replications s =
      map (λ (entry : ReplicationEntry). (entry.hash, entry.attempts, entry.enqueued_at))
        (keep (λ (entry : ReplicationEntry). leb replication_stuck_attempts entry.attempts)
          (queued_for s.local_location_id s.replication_queue))
