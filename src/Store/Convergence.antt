-- ===== src/Store/Convergence.antt =====
-- Sites that have applied the same facts hold the same rows, whatever the order and the repetition.
use shardscape.Base.{
  arith, subst, ℕ, ℤ, ◌≡◌, refl, ap, sym, ◌∙◌, List, [], ◌∷◌, ◌++◌, Result, ok, ◌>>=◌, bind_inverts,
  In, inl, inr, In-append, In-append_left, In-append_right, ◌↔◌, Eq, pair_eq, list_eq, nat_eq,
}
use shardscape.Store.{Store, Crates, Fact, FactRecord}
use shardscape.Store.Facts.{apply_fact}
use shardscape.Table.{Table, lookup}
use shardscape.Table.Lww.{
  put, put_all, rows_at, In-rows_at, rows_at-In, Candidate, latest-SameCandidates, lookup-put_all,
}

module _ {V J : Type 0} (crates : Crates V J) where
  -- Facts in the order in which a site applies them, each with the time at which it does.
  unfoldable pub apply_all : Store J → List (ℕ × FactRecord V) → Result (Store J)
  apply_all s [] = ok s
  apply_all s ((system, rec) ∷ recs) =
      apply_fact crates s system rec >>= λ next. apply_all next recs

  -- A table of the store that facts write by last write wins.
  pub record Register (K R : Type 0) ⦃e : Eq K⦄ : Type 0 where
    pub table : Store J → Table K R
    pub stamp : R → ℤ
    pub writes : ℤ → Fact V → List (K × R)
    pub step :
        (s t : Store J) (system : ℕ) (seq ts : ℤ) (fact : Fact V)
        → apply_fact crates s system (record { seq = seq; ts = ts; fact = fact }) ≡ ok t
        → table t ≡ put_all stamp (writes ts fact) (table s)

-- What was delivered: the facts with their timestamps.
abbrev pub delivered : {V : Type 0} → List (ℕ × FactRecord V) → List (ℤ × Fact V)
delivered [] = []
delivered ((system, rec) ∷ recs) = (rec.ts, rec.fact) ∷ delivered recs

abbrev pub SameFacts : {V : Type 0} → List (ℕ × FactRecord V) → List (ℕ × FactRecord V) → Type 0
SameFacts {V} recs others = (f : ℤ × Fact V) → In f (delivered recs) ↔ In f (delivered others)

module _ {K R : Type 0} ⦃e : Eq K⦄ (stamp : R → ℤ) where
  put_all-append :
      (xs ys : List (K × R)) (t : Table K R)
      → put_all stamp (xs ++ ys) t ≡ put_all stamp ys (put_all stamp xs t)
  unfolding put_all
  put_all-append [] ys t = refl
  put_all-append ((k, v) ∷ xs) ys t = put_all-append xs ys (put stamp k v t)

module _ {V J : Type 0} (crates : Crates V J) {K R : Type 0} ⦃e : Eq K⦄
    (reg : Register crates K R) where
  unfoldable pub all_writes : List (ℤ × Fact V) → List (K × R)
  all_writes [] = []
  all_writes ((ts, fact) ∷ facts) = reg.writes ts fact ++ all_writes facts

  apply_all-table :
      (s t : Store J) (recs : List (ℕ × FactRecord V))
      → apply_all crates s recs ≡ ok t
      → reg.table t ≡ put_all reg.stamp (all_writes (delivered recs)) (reg.table s)
  unfolding apply_all all_writes put_all
  apply_all-table s t [] h = ground arith
  apply_all-table s t ((system, rec) ∷ recs) h =
      let (next, rest, first) =
        bind_inverts (apply_fact crates s system rec) (λ n. apply_all crates n recs) h in
      apply_all-table next t recs rest
      ∙ ap (put_all reg.stamp (all_writes (delivered recs)))
          (reg.step s next system rec.seq rec.ts rec.fact first)
      ∙ sym (
          put_all-append reg.stamp (reg.writes rec.ts rec.fact) (all_writes (delivered recs))
            (reg.table s))

  written :
      (w : K × R) (facts : List (ℤ × Fact V)) (f : ℤ × Fact V)
      → In f facts
      → In w (reg.writes f.0 f.1)
      → In w (all_writes facts)
  unfolding all_writes
  written w [] f m n = m
  written w ((ts, fact) ∷ facts) f (inl x) n =
      In-append_left w (reg.writes ts fact) (all_writes facts)
        (subst (λ (g : ℤ × Fact V). In w (reg.writes g.0 g.1)) x n)
  written w ((ts, fact) ∷ facts) f (inr m) n =
      In-append_right w (reg.writes ts fact) (all_writes facts) (written w facts f m n)

  all_writes-In :
      (w : K × R) (facts others : List (ℤ × Fact V))
      → ((f : ℤ × Fact V) → In f facts → In f others)
      → In w (all_writes facts)
      → In w (all_writes others)
  unfolding all_writes
  all_writes-In w [] others h m = absurd m
  all_writes-In w ((ts, fact) ∷ facts) others h m =
      elim (In-append w (reg.writes ts fact) (all_writes facts) m) [
        | inl here ↦ written w others (ts, fact) (h (ts, fact) (inl refl)) here
        | inr there ↦ all_writes-In w facts others (λ f n. h f (inr n)) there
      ]

  -- The rows that a key of the table may end with.
  unfoldable pub MayHold : Store J → List (ℕ × FactRecord V) → K → R → Type 0
  MayHold s recs k r =
      Candidate reg.stamp (lookup k (reg.table s)) (rows_at k (all_writes (delivered recs))) r

  -- No two different rows of one key with one timestamp.
  unfoldable pub NoTies : Store J → List (ℕ × FactRecord V) → Type 0
  unfolding MayHold
  NoTies s recs =
      (k : K) (r q : R)
      → MayHold s recs k r
      → MayHold s recs k q
      → reg.stamp r ≡ reg.stamp q
      → r ≡ q

  unfoldable pub SameRows : Store J → Store J → Type 0
  SameRows s t = (k : K) → lookup k (reg.table s) ≡ lookup k (reg.table t)

  MayHold-SameFacts :
      (s t : Store J) (recs others : List (ℕ × FactRecord V)) (k : K) (r : R)
      → lookup k (reg.table s) ≡ lookup k (reg.table t)
      → ((f : ℤ × Fact V) → In f (delivered recs) → In f (delivered others))
      → MayHold s recs k r
      → MayHold t others k r
  unfolding MayHold
  MayHold-SameFacts s t recs others k r same h (inl x) = inl (sym same ∙ x)
  MayHold-SameFacts s t recs others k r same h (inr m) = inr (
      rows_at-In k r (all_writes (delivered others)) (
        all_writes-In (k, r) (delivered recs) (delivered others) h
          (In-rows_at k r (all_writes (delivered recs)) m)))

  pub register_converges :
      (s t s' t' : Store J) (recs others : List (ℕ × FactRecord V))
      → apply_all crates s recs ≡ ok s'
      → apply_all crates t others ≡ ok t'
      → SameFacts recs others
      → SameRows s t
      → NoTies s recs
      → SameRows s' t'
  unfolding NoTies SameRows MayHold
  register_converges s t s' t' recs others h g same rows ties k =
      ap (lookup k) (apply_all-table s s' recs h)
      ∙ lookup-put_all reg.stamp k (all_writes (delivered recs)) (reg.table s)
      ∙ latest-SameCandidates reg.stamp (lookup k (reg.table s)) (lookup k (reg.table t))
          (rows_at k (all_writes (delivered recs))) (rows_at k (all_writes (delivered others)))
          (record {
            there = λ r. MayHold-SameFacts s t recs others k r (rows k) (λ f. (same f).0);
            back = λ r. MayHold-SameFacts t s others recs k r (sym (rows k)) (λ f. (same f).1);
            distinct = ties k;
          })
      ∙ sym (lookup-put_all reg.stamp k (all_writes (delivered others)) (reg.table t))
      ∙ sym (ap (lookup k) (apply_all-table t t' others g))
