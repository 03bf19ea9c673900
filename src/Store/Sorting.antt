-- ===== src/Store/Sorting.antt =====
-- ORDER BY and LIMIT: what the sorted rows are, and what a page of them leaves out.
use shardscape.Base.{
  ℕ, zero, suc, ltb, ◌≡◌, refl, ap, sym, subst, Bool, true, false, List, [], ◌∷◌, length, take,
  sort, insert, In, All, ◌⊎◌, inl, inr, ◌↔◌, Bool-cases, arith,
}

module _ {A : Type 0} (before : A → A → Bool) where
  -- No later element stands before an earlier one.
  abbrev pub Sorted : List A → Type 0
  Sorted [] = Unit
  Sorted (x ∷ xs) = All (λ y. before y x ≡ false) xs × Sorted xs

  In-insert : (a x : A) (xs : List A) → In a (insert before x xs) ↔ ((a ≡ x) ⊎ In a xs)
  unfolding insert
  In-insert a x [] = (λ h. h, λ h. h)
  In-insert a x (y ∷ ys) = elim (Bool-cases (before y x)) [
    | inl e ↦ rw e (
      λ h. elim h [
        | inl p ↦ inr (inl p)
        | inr m ↦ elim ((In-insert a x ys).0 m) [ inl p ↦ inl p | inr n ↦ inr (inr n) ]
      ],
      λ h. elim h [
        | inl p ↦ inr ((In-insert a x ys).1 (inl p))
        | inr m ↦ elim m [ inl p ↦ inl p | inr n ↦ inr ((In-insert a x ys).1 (inr n)) ]
      ],
    )
    | inr e ↦ rw e (λ h. h, λ h. h)
  ]

  pub In-sort : (a : A) (xs : List A) → In a (sort before xs) ↔ In a xs
  unfolding sort
  In-sort a [] = (λ h. h, λ h. h)
  In-sort a (x ∷ xs) = (
    λ h. elim ((In-insert a x (sort before xs)).0 h) [
      | inl p ↦ inl p
      | inr m ↦ inr ((In-sort a xs).0 m)
    ],
    λ h.
        (In-insert a x (sort before xs)).1
          (elim h [ inl p ↦ inl p | inr m ↦ inr ((In-sort a xs).1 m) ]),
  )

  -- What a strict weak order gives.
  pub record IsOrder : Type 0 where
    pub asym : (x y : A) → before x y ≡ true → before y x ≡ false
    pub neg_trans : (x y z : A) → before y x ≡ false → before z y ≡ false → before z x ≡ false

  All-insert : (P : A → Type 0) (x : A) (xs : List A) → P x → All P xs → All P (insert before x xs)
  unfolding insert
  All-insert P x [] p h = (p, h)
  All-insert P x (y ∷ ys) p (q, h) = elim (Bool-cases (before y x)) [
    | inl e ↦ rw e (q, All-insert P x ys p h)
    | inr e ↦ rw e (p, (q, h))
  ]

  pub All-sort : (P : A → Type 0) (xs : List A) → All P xs → All P (sort before xs)
  unfolding sort
  All-sort P [] h = tt
  All-sort P (x ∷ xs) (p, h) = All-insert P x (sort before xs) p (All-sort P xs h)

  later :
      (x y : A) (ys : List A)
      → IsOrder
      → before y x ≡ false
      → All (λ z. before z y ≡ false) ys
      → All (λ z. before z x ≡ false) ys
  later x y [] o e h = tt
  later x y (z ∷ zs) o e (q, h) = (o.neg_trans x y z e q, later x y zs o e h)

  insert-Sorted : (x : A) (xs : List A) → IsOrder → Sorted xs → Sorted (insert before x xs)
  unfolding insert
  insert-Sorted x [] o h = (tt, tt)
  insert-Sorted x (y ∷ ys) o (first, rest) = elim (Bool-cases (before y x)) [
    | inl e ↦
        rw e (
          All-insert (λ z. before z y ≡ false) x ys (o.asym y x e) first,
          insert-Sorted x ys o rest,
        )
    | inr e ↦ rw e ((e, later x y ys o e first), (first, rest))
  ]

  pub sort-Sorted : (xs : List A) → IsOrder → Sorted (sort before xs)
  unfolding sort
  sort-Sorted [] o = tt
  sort-Sorted (x ∷ xs) o = insert-Sorted x (sort before xs) o (sort-Sorted xs o)

  pub All-In : (P : A → Type 0) (xs : List A) (a : A) → All P xs → In a xs → P a
  All-In P [] a h m = absurd m
  All-In P (x ∷ xs) a (p, h) (inl e) = subst P (sym e) p
  All-In P (x ∷ xs) a (p, h) (inr m) = All-In P xs a h m

  pub take-take-suc : (n : ℕ) (xs : List A) → take n (take (suc n) xs) ≡ take n xs
  take-take-suc zero xs = refl
  take-take-suc (suc n) [] = refl
  take-take-suc (suc n) (x ∷ xs) = ap (◌∷◌ x) (take-take-suc n xs)

  pub take-In : (n : ℕ) (xs : List A) (a : A) → In a (take n xs) → In a xs
  take-In zero xs a m = absurd m
  take-In (suc n) [] a m = m
  take-In (suc n) (x ∷ xs) a (inl e) = inl e
  take-In (suc n) (x ∷ xs) a (inr m) = inr (take-In n xs a m)

  All-take : (P : A → Type 0) (n : ℕ) (xs : List A) → All P xs → All P (take n xs)
  All-take P zero xs h = tt
  All-take P (suc n) [] h = tt
  All-take P (suc n) (x ∷ xs) (p, h) = (p, All-take P n xs h)

  pub take-Sorted : (n : ℕ) (xs : List A) → Sorted xs → Sorted (take n xs)
  take-Sorted zero xs h = tt
  take-Sorted (suc n) [] h = tt
  take-Sorted (suc n) (x ∷ xs) (first, rest) =
      (All-take (λ y. before y x ≡ false) n xs first, take-Sorted n xs rest)

  -- An element of a sorted list is on the page, or the list is longer than the page and nothing of the page comes after it.
  pub page_lem :
      (n : ℕ) (xs : List A) (a : A)
      → Sorted xs
      → In a xs
      → In a (take n xs) ⊎ ((ltb n (length xs) ≡ true) × All (λ p. before a p ≡ false) (take n xs))
  page_lem zero (x ∷ xs) a h m = inr (ground arith, tt)
  page_lem zero [] a h m = absurd m
  page_lem (suc n) [] a h m = absurd m
  page_lem (suc n) (x ∷ xs) a (first, rest) (inl e) = inl (inl e)
  page_lem (suc n) (x ∷ xs) a (first, rest) (inr m) = elim (page_lem n xs a rest m) [
    | inl here ↦ inl (inr here)
    | inr (more, below) ↦
        inr (ground (arith, more), (All-In (λ y. before y x ≡ false) xs a first m, below))
  ]
