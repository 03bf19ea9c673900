-- ===== src/Store/Log.antt =====
-- The fact log as peers read it: every fact once, in order, from any cursor.
use shardscape.Base.{
  ℕ, zero, suc, ℤ, pos, ltb_ℤ, leb, ◌-◌, ◌≡◌, refl, sym, ◌∙◌, List, [], ◌∷◌, ◌++◌, append-nil,
  append_assoc, Option, some, ok, collect, keep, take, drop, arith, Bool-cases, inl, inr,
}
use shardscape.Store.{Store, Crates, Fact, FactRecord, FactRow}
use shardscape.Store.Objects.{append_fact_tx, kind_str}
use shardscape.Store.Facts.{facts_since, record_of}
use shardscape.Store.Sites.{Laws}

drop_nil : {A : Type 0} (n : ℕ) → drop {A = A} n [] ≡ []
drop_nil zero = refl
drop_nil (suc n) = refl

module _ {A B : Type 0} (f : A → Option B) where
  collect-take :
      (n : ℕ) (xs : List A) (ys : List B)
      → collect f xs ≡ some ys
      → collect f (take n xs) ≡ some (take n ys)
  collect-take zero xs ys h = refl
  collect-take (suc n) [] ys h = ground arith
  collect-take (suc n) (x ∷ xs) [] h = ground arith
  collect-take (suc n) (x ∷ xs) (y ∷ ys) h = ground (arith, collect-take n xs ys)

  collect-drop :
      (n : ℕ) (xs : List A) (ys : List B)
      → collect f xs ≡ some ys
      → collect f (drop n xs) ≡ some (drop n ys)
  collect-drop zero xs ys h = h
  collect-drop (suc n) [] ys h = ground arith
  collect-drop (suc n) (x ∷ xs) [] h = ground arith
  collect-drop (suc n) (x ∷ xs) (y ∷ ys) h = ground (arith, collect-drop n xs ys)

module _ {V J : Type 0} (crates : Crates V J) where
  -- The changes of a site one after the other.
  unfoldable pub append_all : Store J → List (ℤ × Fact V) → Store J
  append_all s [] = s
  append_all s ((ts, fact) ∷ facts) = append_all (append_fact_tx crates s ts fact) facts

  -- The facts under the numbers after `n`.
  unfoldable pub numbered : ℕ → List (ℤ × Fact V) → List (FactRecord V)
  numbered n [] = []
  numbered n ((ts, fact) ∷ facts) =
      record { seq = pos (suc n); ts = ts; fact = fact } ∷ numbered (suc n) facts

  rows : ℕ → List (ℤ × Fact V) → List (FactRow J)
  rows n [] = []
  rows n ((ts, fact) ∷ facts) =
      record { seq = suc n; ts = ts; kind = kind_str fact; payload = crates.fact_to_string fact }
      ∷ rows (suc n) facts

  append_all-fact_log :
      (s : Store J) (facts : List (ℤ × Fact V))
      → (append_all s facts).fact_log ≡ s.fact_log ++ rows s.fact_seq facts
  unfolding append_all append_fact_tx rows
  append_all-fact_log s [] = sym (append-nil _)
  append_all-fact_log s ((ts, fact) ∷ facts) =
      append_all-fact_log (append_fact_tx crates s ts fact) facts ∙ rw append_assoc

  keep-rows :
      (after n : ℕ) (facts : List (ℤ × Fact V))
      → keep (λ (row : FactRow J). ltb_ℤ (pos after) (pos row.seq)) (rows n facts)
        ≡ drop (after - n) (rows n facts)
  unfolding rows
  keep-rows after n [] = sym (drop_nil (after - n))
  keep-rows after n ((ts, fact) ∷ facts) = elim (Bool-cases (leb after n)) [
    | inl low ↦
        let zero_here : after - n ≡ 0 = ground arith in
        let zero_next : after - suc n ≡ 0 = ground arith in
        let rest = keep-rows after (suc n) facts in
        rw zero_here (ground (arith, rw zero_next at rest))
    | inr high ↦
        let next : after - n ≡ suc (after - suc n) = ground arith in
        rw next (ground (arith, keep-rows after (suc n) facts))
  ]

  collect-rows :
      (n : ℕ) (facts : List (ℤ × Fact V))
      → Laws crates
      → collect (record_of crates) (rows n facts) ≡ some (numbered n facts)
  unfolding rows numbered record_of
  collect-rows n [] laws = refl
  collect-rows n ((ts, fact) ∷ facts) laws =
      ground (arith, laws.fact fact, collect-rows (suc n) facts laws)

  -- Where facts parse back from their texts, a peer that asks for what follows a cursor in a log that started empty gets the facts that the site appended, in order, without a gap, up to the limit.
  pub facts_since-append_all :
      (s : Store J) (facts : List (ℤ × Fact V)) (after limit : ℕ)
      → Laws crates
      → s.fact_log ≡ []
      → s.fact_seq ≡ 0
      → facts_since crates (append_all s facts) (pos after) (pos limit)
        ≡ ok (take limit (drop after (numbered 0 facts)))
  unfolding facts_since
  facts_since-append_all s facts after limit laws empty start =
      let log : (append_all s facts).fact_log ≡ rows 0 facts =
        append_all-fact_log s facts ∙ rw (empty, start) refl in
      let whole : after - 0 ≡ after = omega arith in
      let kept = keep-rows after 0 facts in
      let parsed =
        collect-take (record_of crates) limit (drop after (rows 0 facts))
          (drop after (numbered 0 facts))
          (collect-drop (record_of crates) after (rows 0 facts) (numbered 0 facts)
            (collect-rows 0 facts laws)) in
      rw (log, kept, whole, parsed) refl
