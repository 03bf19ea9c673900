-- ===== src/Table.antt =====
-- SQL tables, as src/store.rs writes them: rows under a primary key, INSERT with its ON CONFLICT
-- clause, DELETE and SELECT by key. Rows stand in the order of their insertion, which no statement
-- of the program depends on: where it wants an order it says ORDER BY.
pub mod Lww
use shardscape.Base.{
  ◌≡◌, refl, ◌⊎◌, inl, inr, Bool, true, false, Option, none, some, List, [], ◌∷◌, arith, Eq, eq_iff,
  eq_refl, ◌==◌, if◌then◌else◌, not, length, ℕ, keep, Bool-cases, ap,
}

abbrev pub Table {ℓ κ} : Type ℓ → Type κ → Type (ℓ ⊔ κ)
Table K V = List (K × V)

module _ {κ} {V : Type κ} where
  -- What an upsert leaves under its key, and what an update does, by what stood there before.
  abbrev pub upserted : V → (V → V) → Option V → V
  upserted v update none = v
  upserted v update (some w) = update w

  abbrev pub modified : (V → V) → Option V → Option V
  modified update none = none
  modified update (some w) = some (update w)

module _ {ℓ κ} {K : Type ℓ} {V : Type κ} ⦃e : Eq K⦄ where
  -- SELECT … WHERE key = k
  unfoldable pub lookup : K → Table K V → Option V
  lookup k [] = none
  lookup k ((j, w) ∷ t) = if j == k then some w else lookup k t

  -- INSERT … ON CONFLICT (key) DO UPDATE: a stored row `w` becomes `update w`. With
  -- `update = λ w. w` it is DO NOTHING.
  unfoldable pub upsert : K → V → (V → V) → Table K V → Table K V
  upsert k v update [] = (k, v) ∷ []
  upsert k v update ((j, w) ∷ t) =
      if j == k then (j, update w) ∷ t else (j, w) ∷ upsert k v update t

  -- UPDATE … WHERE key = k
  unfoldable pub modify : K → (V → V) → Table K V → Table K V
  modify k update [] = []
  modify k update ((j, w) ∷ t) =
      if j == k then (j, update w) ∷ modify k update t else (j, w) ∷ modify k update t

  -- DELETE … WHERE test, on the key of a row.
  unfoldable pub delete_where : (K → Bool) → Table K V → Table K V
  delete_where test [] = []
  delete_where test ((j, w) ∷ t) =
      if test j then delete_where test t else (j, w) ∷ delete_where test t

  -- DELETE … WHERE key = k
  abbrev pub delete : K → Table K V → Table K V
  delete k = delete_where (λ j. j == k)

  pub lookup-upsert :
      (k j : K) (v : V) (update : V → V) (t : Table K V)
      → lookup j (upsert k v update t)
        ≡ (if k == j then some (upserted v update (lookup k t)) else lookup j t)
  unfolding lookup upsert
  lookup-upsert k j v update [] = ground arith
  lookup-upsert k j v update ((i, w) ∷ t) =
      ground (arith, e.beq_iff i k, e.beq_iff i j, e.beq_iff k j, lookup-upsert k j v update t)

  pub lookup-modify :
      (k j : K) (update : V → V) (t : Table K V)
      → lookup j (modify k update t) ≡ (if k == j then modified update (lookup j t) else lookup j t)
  unfolding lookup modify
  lookup-modify k j update [] = ground arith
  lookup-modify k j update ((i, w) ∷ t) =
      ground (arith, e.beq_iff i k, e.beq_iff i j, e.beq_iff k j, lookup-modify k j update t)

  pub lookup-delete_where :
      (test : K → Bool) (j : K) (t : Table K V)
      → lookup j (delete_where test t) ≡ (if test j then none else lookup j t)
  unfolding lookup delete_where
  lookup-delete_where test j [] = ground arith
  lookup-delete_where test j ((i, w) ∷ t) =
      ground (arith, e.beq_iff i j, ap test {x = i} {y = j}, lookup-delete_where test j t)
