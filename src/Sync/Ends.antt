-- ===== src/Sync/Ends.antt =====
-- That a pull comes to an end, and how far it gets.
use shardscape.Base.{
  ℕ, zero, suc, ◌+◌, ◌-◌, ◌≤◌, ◌<◌, ℤ, pos, ltb, ltb_ℤ, ◌≡◌, refl, sym, ap, ◌∙◌, inl, inr, true,
  false, Bool, List, [], ◌∷◌, Bytes, Option, some, ok, err, if◌then◌else◌, bad_hex, collect, All,
  Bool-cases, Option-cases, length, take, drop, min, max, subst, ◌⊎◌, length-take, length-drop,
  arith, eq_refl, list_eq, nat_eq,
}
use shardscape.Store.{
  Store, Crates, FactRecord, Fact, object_put, object_delete, block_announce, user_put,
}
use shardscape.Store.Blocks.{upsert_block_location}
use shardscape.Store.Facts.{apply_fact, apply_announce, get_cursor, set_cursor}
use shardscape.Hashing.{compute_shard_id}
use shardscape.Store.Objects.{put_object_row, encode_blocks}
use shardscape.Store.Queue.{enqueue_replication}
use shardscape.Store.Users.{put_user_row}
use shardscape.Sync.{apply_page, sync_page, sync_peer, max_ℤ, fact_sync_batch}
use shardscape.Sync.Pull.{Applies}
use shardscape.Table.{lookup, lookup-upsert}

module _ {A : Type 0} (P : A → Type 0) where
  All-take : (n : ℕ) (xs : List A) → All P xs → All P (take n xs)
  All-take zero xs h = tt
  All-take (suc n) [] h = tt
  All-take (suc n) (x ∷ xs) (p, h) = (p, All-take n xs h)

  All-drop : (n : ℕ) (xs : List A) → All P xs → All P (drop n xs)
  All-drop zero xs h = h
  All-drop (suc n) [] h = tt
  All-drop (suc n) (x ∷ xs) (p, h) = All-drop n xs h

list-cases : {A : Type 0} (xs : List A) → (xs ≡ []) ⊎ ((x : A) × (ys : List A) × (xs ≡ x ∷ ys))
list-cases [] = inl refl
list-cases (x ∷ xs) = inr (x, xs, refl)

module _ {V : Type 0} where
  -- The facts have the numbers behind the given one, each one more than the one before.
  abbrev pub Numbered : ℕ → List (FactRecord V) → Type 0
  Numbered n [] = Unit
  Numbered n (f ∷ facts) = (f.seq ≡ pos (suc n)) × Numbered (suc n) facts

  Numbered-take :
      (k n : ℕ) (facts : List (FactRecord V)) → Numbered n facts → Numbered n (take k facts)
  Numbered-take zero n facts h = tt
  Numbered-take (suc k) n [] h = tt
  Numbered-take (suc k) n (f ∷ facts) (p, h) = (p, Numbered-take k (suc n) facts h)

  Numbered-drop :
      (k n : ℕ) (facts : List (FactRecord V)) → Numbered n facts → Numbered (n + k) (drop k facts)
  Numbered-drop zero n facts h = rw (let q : n + 0 ≡ n = omega arith in q) h
  Numbered-drop (suc k) n [] h = tt
  Numbered-drop (suc k) n (f ∷ facts) (p, h) =
      rw (let q : n + suc k ≡ suc n + k = omega arith in q) (Numbered-drop k (suc n) facts h)

set_cursor_advances :
    {J : Type 0} (s : Store J) (peer : Bytes) (n k : ℕ)
    → get_cursor s peer ≡ pos n
    → get_cursor (set_cursor s peer (pos (n + k))) peer ≡ pos (n + k)
unfolding get_cursor set_cursor
set_cursor_advances s peer n k h =
    let read =
      lookup-upsert peer peer (pos (n + k))
        (λ old. if ltb_ℤ old (pos (n + k)) then pos (n + k) else old) s.replication_cursors in
    elim (Option-cases (lookup peer s.replication_cursors)) [
      | inl e ↦ rw (read, eq_refl peer) (rw e refl)
      | inr (old, e) ↦
          let at : old ≡ pos n = rw e at h in rw (read, eq_refl peer) (rw (e, at) (ground arith))
    ]

module _ {J : Type 0} where
  cursors_of : (s t : Store J) → ok s ≡ ok t → t.replication_cursors ≡ s.replication_cursors
  cursors_of s t h = let q : s ≡ t = cc (h) in ap (λ (x : Store J). x.replication_cursors) (sym q)

  either_cursors :
      (b : Bool) (x y s : Store J)
      → x.replication_cursors ≡ s.replication_cursors
      → y.replication_cursors ≡ s.replication_cursors
      → (if b then x else y).replication_cursors ≡ s.replication_cursors
  either_cursors true x y s h k = h
  either_cursors false x y s h k = k

last_page : (n l len : ℕ) → len ≡ min 500 (l - n) → ltb len 500 ≡ true → 1 ≤ len → n + len ≡ max n l
last_page n l len size short some_left = ground (arith, size, short, some_left)

no_page : (n l len : ℕ) → len ≡ min 500 (l - n) → len ≡ 0 → n ≡ max n l
no_page n l len size none_left = omega (arith, size, none_left)

full_page :
    (n l len : ℕ) → len ≡ min 500 (l - n) → ltb len 500 ≡ false → (len ≡ 500) × (500 ≤ l - n)
full_page n l len size full = (ground (arith, size, full), ground (arith, size, full))

less_left :
    (n l len fuel : ℕ)
    → len ≡ min 500 (l - n)
    → ltb len 500 ≡ false
    → l - n < suc fuel
    → l - (n + len) < fuel
less_left n l len fuel size full enough =
    let (whole, left) = full_page n l len size full in omega (arith, whole, left, enough)

rest_max : (n l len : ℕ) → len ≡ min 500 (l - n) → ltb len 500 ≡ false → max (n + len) l ≡ max n l
rest_max n l len size full =
    let (whole, left) = full_page n l len size full in omega (arith, whole, left)

module _ {V J : Type 0} (crates : Crates V J) where
  announce_cursors :
      (s : Store J) (system : ℕ) (ts : ℤ) (hash location_id fid : Bytes) (size : ℤ)
      → (apply_announce crates s system ts hash location_id fid size).replication_cursors
        ≡ s.replication_cursors
  unfolding apply_announce upsert_block_location enqueue_replication
  announce_cursors s system ts hash location_id fid size = either_cursors _ _ _ s refl refl

  fact_cursors :
      (s t : Store J) (system : ℕ) (seq ts : ℤ) (fact : Fact V)
      → apply_fact crates s system (record { seq = seq; ts = ts; fact = fact }) ≡ ok t
      → t.replication_cursors ≡ s.replication_cursors
  unfolding apply_fact put_object_row put_user_row
  fact_cursors s t system seq ts (object_put bucket key blocks size etag) h =
      elim (Option-cases (collect crates.hex_decode blocks)) [
        | inl e ↦ absurd (let q : err bad_hex ≡ ok t = rw e at h in cc (q))
        | inr (decoded, e) ↦
            cursors_of
              (put_object_row s bucket key (encode_blocks decoded) size etag
                (compute_shard_id crates.blake3 key) false ts)
              t (rw e at h)
      ]
  fact_cursors s t system seq ts (object_delete bucket key) h =
      cursors_of
        (put_object_row s bucket key [] (pos 0) [] (compute_shard_id crates.blake3 key) true ts) t h
  fact_cursors s t system seq ts (block_announce hash location_id fid size) h =
      elim (Option-cases (crates.hex_decode hash)) [
        | inl e ↦ absurd (let q : err bad_hex ≡ ok t = rw e at h in cc (q))
        | inr (hash_b, e) ↦ elim (Option-cases (crates.hex_decode fid)) [
          | inl f ↦ absurd (let q : err bad_hex ≡ ok t = rw f at (rw e at h) in cc (q))
          | inr (fid_b, f) ↦
              cursors_of (apply_announce crates s system ts hash_b location_id fid_b size) t
                (rw f at (rw e at h))
              ∙ announce_cursors s system ts hash_b location_id fid_b size
        ]
      ]
  fact_cursors s t system seq ts (user_put access_key secret_key policy) h =
      cursors_of (put_user_row s access_key secret_key (crates.value_to_string policy) ts) t h

  apply_fact-cursors :
      (s t : Store J) (system : ℕ) (f : FactRecord V)
      → apply_fact crates s system f ≡ ok t
      → t.replication_cursors ≡ s.replication_cursors
  apply_fact-cursors s t system f h = fact_cursors s t system f.seq f.ts f.fact h

  apply_page-cursors :
      (s : Store J) (system : ℕ) (facts : List (FactRecord V)) (n : ℕ)
      → Numbered n facts
      → All (Applies crates system) facts
      → ((apply_page crates s system facts (pos n)).1 ≡ pos (n + length facts))
        × ((apply_page crates s system facts (pos n)).0.replication_cursors ≡ s.replication_cursors)
  unfolding apply_page
  apply_page-cursors s system [] n num all = (ap pos (omega arith), refl)
  apply_page-cursors s system (f ∷ facts) n (seq, num) (applies, all) =
      let (next, applied) = applies s in
      let (highest, cursors) = apply_page-cursors next system facts (suc n) num all in
      let step : max_ℤ (pos n) f.seq ≡ pos (suc n) = rw seq (ground arith) in
      rw (applied, apply_page)
        (rw step
          (highest ∙ ap pos (omega arith), cursors ∙ apply_fact-cursors s next system f applied))

  -- The pull of one page moves the cursor to the number of its last fact.
  sync_page-cursor :
      (s : Store J) (system : ℕ) (peer : Bytes) (facts : List (FactRecord V)) (n : ℕ)
      → get_cursor s peer ≡ pos n
      → Numbered n facts
      → All (Applies crates system) facts
      → get_cursor (sync_page crates s system peer facts) peer ≡ pos (n + length facts)
  unfolding sync_page get_cursor
  sync_page-cursor s system peer facts n at num all =
      let (highest, cursors) = apply_page-cursors s system facts n num all in
      let page = apply_page crates s system facts (pos n) in
      let still : get_cursor page.0 peer ≡ pos n = rw cursors at in
      rw at (rw highest (set_cursor_advances page.0 peer n (length facts) still))

  -- A peer that answers with the next 500 facts of its log.
  abbrev pub Answers : (ℤ → Option (List (FactRecord V))) → List (FactRecord V) → Type 0
  Answers noise_get_facts log =
      (n : ℕ) → noise_get_facts (pos n) ≡ some (take fact_sync_batch (drop n log))

  module _ (get : ℤ → Option (List (FactRecord V))) (fuel : ℕ) (s : Store J) (system : ℕ)
      (peer : Bytes) where
    sync_peer-none_left :
        get (get_cursor s peer) ≡ some [] → sync_peer crates (suc fuel) get s system peer ≡ ok s
    unfolding sync_peer
    sync_peer-none_left answer = rw (answer, sync_peer) refl

    sync_peer-short :
        (page : List (FactRecord V))
        → get (get_cursor s peer) ≡ some page
        → 1 ≤ length page
        → ltb (length page) fact_sync_batch ≡ true
        → sync_peer crates (suc fuel) get s system peer ≡ ok (sync_page crates s system peer page)
    unfolding sync_peer
    sync_peer-short [] answer some_left short = absurd (omega (arith, some_left))
    sync_peer-short (f ∷ facts) answer some_left short = rw (answer, sync_peer) (rw short refl)

    sync_peer-full :
        (page : List (FactRecord V))
        → get (get_cursor s peer) ≡ some page
        → ltb (length page) fact_sync_batch ≡ false
        → sync_peer crates (suc fuel) get s system peer
          ≡ sync_peer crates fuel get (sync_page crates s system peer page) system peer
    unfolding sync_peer
    sync_peer-full [] answer full = absurd (cc (full))
    sync_peer-full (f ∷ facts) answer full = rw (answer, sync_peer) (rw full refl)

  -- The pull of a peer ends, and its cursor then stands at the end of the peer's log, or where it stood beyond it: where the log is numbered from 1 without gaps, the peer answers from it, and each of its facts applies. One page more than facts were missing is fuel enough.
  pub sync_peer_ends :
      (noise_get_facts : ℤ → Option (List (FactRecord V))) (log : List (FactRecord V)) (fuel : ℕ)
      (s : Store J) (system : ℕ) (peer : Bytes) (n : ℕ)
      → Answers noise_get_facts log
      → Numbered 0 log
      → All (Applies crates system) log
      → get_cursor s peer ≡ pos n
      → length log - n < fuel
      → (t : Store J) × (sync_peer crates fuel noise_get_facts s system peer ≡ ok t)
        × (get_cursor t peer ≡ pos (max n (length log)))
  sync_peer_ends get log zero s system peer n answers num all at enough = absurd (omega arith)
  sync_peer_ends get log (suc fuel) s system peer n answers num all at enough =
      let page = take fact_sync_batch (drop n log) in
      let answer : get (get_cursor s peer) ≡ some page = ap get at ∙ answers n in
      let left : Numbered n (drop n log) =
        subst (λ k. Numbered k (drop n log)) (let q : 0 + n ≡ n = omega arith in q)
          (Numbered-drop n 0 log num) in
      let here : Numbered n page = Numbered-take fact_sync_batch n (drop n log) left in
      let applies =
        All-take (Applies crates system) fact_sync_batch (drop n log) (All-drop _ n log all) in
      let size : length page ≡ min 500 (length log - n) =
        length-take 500 (drop n log) ∙ ap (min 500) (length-drop n log) in
      let next = sync_page crates s system peer page in
      let cursor : get_cursor next peer ≡ pos (n + length page) =
        sync_page-cursor s system peer page n at here applies in
      elim (list-cases page) [
        | inl none_left ↦ (
          s,
          sync_peer-none_left get fuel s system peer (answer ∙ ap some none_left),
          at ∙ ap pos (no_page n (length log) (length page) size (ap length none_left)),
        )
        | inr (f, facts, some_left) ↦ elim (Bool-cases (ltb (length page) fact_sync_batch)) [
          | inl short ↦
              let one : 1 ≤ length page = omega (arith, ap length some_left) in
              (
                next,
                sync_peer-short get fuel s system peer page answer one short,
                cursor ∙ ap pos (last_page n (length log) (length page) size short one),
              )
          | inr full ↦
              let (t, rest, ends) =
                sync_peer_ends get log fuel next system peer (n + length page) answers num all
                  cursor (less_left n (length log) (length page) fuel size full enough) in
              (
                t,
                sync_peer-full get fuel s system peer page answer full ∙ rest,
                ends ∙ ap pos (rest_max n (length log) (length page) size full),
              )
        ]
      ]
