-- ===== src/Table/Lww.antt =====
-- Last write wins: a row is replaced only by a row with a newer `updated_at`. Whatever the order of
-- the writes, and however often each arrives, the newest row is what stays.
use shardscape.Base.{
  ℤ, ltb_ℤ, ◌≤ℤ◌, ◌≡◌, refl, sym, ◌∙◌, ap, ◌⊎◌, inl, inr, true, Option, none, some, List, [], ◌∷◌,
  arith, Eq, ◌==◌, if◌then◌else◌, Bool-cases, Option-cases, eq_of_parts, In,
}
use shardscape.Table.{Table, lookup, upsert, upserted, lookup-upsert}

module _ {V : Type 0} (stamp : V → ℤ) where
  -- ON CONFLICT DO UPDATE SET … WHERE excluded.updated_at > updated_at
  unfoldable pub newer : V → V → V
  newer v w = if ltb_ℤ (stamp w) (stamp v) then v else w

  -- One key, as the writes to it come in.
  pub latest : Option V → List V → Option V
  latest o [] = o
  latest o (v ∷ vs) = latest (some (upserted v (newer v) o)) vs

  abbrev pub Candidate : Option V → List V → V → Type 0
  Candidate o vs r = (o ≡ some r) ⊎ In r vs

  latest-chosen : (o : Option V) (vs : List V) (r : V) → latest o vs ≡ some r → Candidate o vs r
  unfolding latest newer
  latest-chosen o [] r h = inl h
  latest-chosen none (v ∷ vs) r h = elim (latest-chosen (some v) vs r h) [
    | inl e ↦ inr (inl (ground arith))
    | inr m ↦ inr (inr m)
  ]
  latest-chosen (some w) (v ∷ vs) r h = elim (latest-chosen (some (newer v w)) vs r h) [
    | inl e ↦ ground arith
    | inr m ↦ inr (inr m)
  ]

  abbrev AtLeast : V → Option V → Type 0
  AtLeast r o = (s : V) × (o ≡ some s) × (stamp r ≤ℤ stamp s)

  latest-AtLeast : (o : Option V) (vs : List V) (r : V) → AtLeast r o → AtLeast r (latest o vs)
  unfolding latest newer
  latest-AtLeast o [] r h = h
  latest-AtLeast none (v ∷ vs) r h = absurd (cc (h.1))
  latest-AtLeast (some w) (v ∷ vs) r (s, e, le) =
      latest-AtLeast (some (newer v w)) vs r (newer v w, refl, ground arith)

  latest-newest : (o : Option V) (vs : List V) (r : V) → Candidate o vs r → AtLeast r (latest o vs)
  unfolding latest newer
  latest-newest o vs r (inl e) = latest-AtLeast o vs r (r, e, omega arith)
  latest-newest o [] r (inr m) = absurd m
  latest-newest none (v ∷ vs) r (inr (inl e)) = latest-AtLeast (some v) vs r (v, refl, ground arith)
  latest-newest (some w) (v ∷ vs) r (inr (inl e)) =
      latest-AtLeast (some (newer v w)) vs r (newer v w, refl, ground arith)
  latest-newest o (v ∷ vs) r (inr (inr m)) =
      latest-newest (some (upserted v (newer v) o)) vs r (inr m)

  -- Two histories of one key with the same candidates, no two of which differ at one time.
  pub record SameCandidates (o p : Option V) (vs ws : List V) : Type 0 where
    pub there : (r : V) → Candidate o vs r → Candidate p ws r
    pub back : (r : V) → Candidate p ws r → Candidate o vs r
    pub distinct : (r s : V) → Candidate o vs r → Candidate o vs s → stamp r ≡ stamp s → r ≡ s

  pub latest-SameCandidates :
      (o p : Option V) (vs ws : List V) → SameCandidates o p vs ws → latest o vs ≡ latest p ws
  latest-SameCandidates o p vs ws h = elim (Option-cases (latest o vs)) [
    | inl e ↦ elim (Option-cases (latest p ws)) [
      | inl f ↦ e ∙ sym f
      | inr (s, f) ↦
          let (t, g, _) = latest-newest o vs s (h.back s (latest-chosen p ws s f)) in
          absurd (cc (e, g))
    ]
    | inr (r, e) ↦
        let c = latest-chosen o vs r e in
        let (s, f, r_le) = latest-newest p ws r (h.there r c) in
        let d = h.back s (latest-chosen p ws s f) in
        let (t, g, s_le) = latest-newest o vs s d in
        let same : t ≡ r = ground (arith, e, g) in
        let le : stamp s ≤ℤ stamp r = rw same at s_le in
        e ∙ ap some (h.distinct r s c d (eq_of_parts (stamp r) (stamp s) (omega arith))) ∙ sym f
  ]

module _ {K V : Type 0} ⦃e : Eq K⦄ where
  -- The rows that a series of writes has for one key.
  unfoldable pub rows_at : K → List (K × V) → List V
  rows_at j [] = []
  rows_at j ((k, v) ∷ ws) = if k == j then v ∷ rows_at j ws else rows_at j ws

  pub In-rows_at : (j : K) (r : V) (ws : List (K × V)) → In r (rows_at j ws) → In (j, r) ws
  unfolding rows_at
  In-rows_at j r [] m = m
  In-rows_at j r ((k, v) ∷ ws) m = elim (Bool-cases (k == j)) [
    | inl same ↦ elim (let q : In r (v ∷ rows_at j ws) = rw same at m in q) [
      | inl x ↦ inl (ground (arith, e.beq_iff k j))
      | inr n ↦ inr (In-rows_at j r ws n)
    ]
    | inr other ↦ inr (In-rows_at j r ws (rw other at m))
  ]

  pub rows_at-In : (j : K) (r : V) (ws : List (K × V)) → In (j, r) ws → In r (rows_at j ws)
  unfolding rows_at
  rows_at-In j r [] m = m
  rows_at-In j r ((k, v) ∷ ws) (inl x) =
      let same : (k == j) ≡ true = ground (arith, e.beq_iff k j) in rw same (inl (ground arith))
  rows_at-In j r ((k, v) ∷ ws) (inr m) = elim (Bool-cases (k == j)) [
    | inl same ↦ rw same (inr (rows_at-In j r ws m))
    | inr other ↦ rw other (rows_at-In j r ws m)
  ]

module _ {K V : Type 0} ⦃e : Eq K⦄ (stamp : V → ℤ) where
  unfoldable pub put : K → V → Table K V → Table K V
  put k v t = upsert k v (newer stamp v) t

  -- A series of writes, the first one first.
  unfoldable pub put_all : List (K × V) → Table K V → Table K V
  put_all [] t = t
  put_all ((k, v) ∷ ws) t = put_all ws (put k v t)

  pub lookup-put :
      (k j : K) (v : V) (t : Table K V)
      → lookup j (put k v t)
        ≡ (if k == j then some (upserted v (newer stamp v) (lookup k t)) else lookup j t)
  unfolding put
  lookup-put k j v t = lookup-upsert k j v (newer stamp v) t

  -- Every key of the table has the newest row that it was ever given.
  pub lookup-put_all :
      (j : K) (ws : List (K × V)) (t : Table K V)
      → lookup j (put_all ws t) ≡ latest stamp (lookup j t) (rows_at j ws)
  unfolding put_all latest rows_at
  lookup-put_all j [] t = refl
  lookup-put_all j ((k, v) ∷ ws) t = elim (Bool-cases (k == j)) [
    | inl same ↦ rw (same) (
        lookup-put_all j ws (put k v t)
        ∙ ap (λ o. latest stamp o (rows_at j ws))
            (ground (arith, lookup-put k j v t, e.beq_iff k j)))
    | inr other ↦ rw (other) (
        lookup-put_all j ws (put k v t)
        ∙ ap (λ o. latest stamp o (rows_at j ws)) (ground (arith, lookup-put k j v t)))
  ]
