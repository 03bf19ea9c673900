-- ===== src/Store/Walk.antt =====
-- A client that lists a bucket page by page, each from the last key of the one before.
use shardscape.Base.{
  ℕ, zero, suc, ◌≤◌, ◌<◌, ltb, ◌≡◌, refl, sym, ap, ◌∙◌, subst, Bool, true, false, ◌&&◌, List, [],
  ◌∷◌, ◌++◌, Bytes, Option, none, some, length, take, length-take, sort, keep, In, In-append_left,
  In-append_right, All, ◌⊎◌, inl, inr, ok, err, Bool-cases, lex_ltb, lex_irrefl, lex_trans,
  lex_total, get_last?, list_eq, nat_eq, pair_eq, arith,
}
use shardscape.Store.{Store}
use shardscape.Store.Listing.{InRange, IsPage, list_objects-IsPage}
use shardscape.Store.Queries.{Listed, live_in, key_range, above, below, key_before, list_objects}
use shardscape.Store.Sorting.{All-In}

module _ {A : Type 0} where
  last-In : (xs : List A) (a : A) → get_last? xs ≡ some a → In a xs
  last-In [] a h = absurd (cc (h))
  last-In (x ∷ []) a h = let q : x ≡ a = cc (h) in inl (sym q)
  last-In (x ∷ y ∷ xs) a h = inr (last-In (y ∷ xs) a h)

  last-some : (xs : List A) → 1 ≤ length xs → (a : A) × (get_last? xs ≡ some a)
  last-some [] h = absurd (omega arith)
  last-some (x ∷ []) h = (x, refl)
  last-some (x ∷ y ∷ xs) h = last-some (y ∷ xs) (omega arith)

  -- Of two tests, the narrower one keeps no more.
  keep_le :
      (p q : A → Bool) (xs : List A)
      → ((x : A) → p x ≡ true → q x ≡ true)
      → length (keep p xs) ≤ length (keep q xs)
  keep_le p q [] h = omega arith
  keep_le p q (x ∷ xs) h =
      let rest = keep_le p q xs h in
      elim (Bool-cases (p x)) [
        | inl e ↦ rw (e, h x e) (omega arith)
        | inr e ↦ elim (Bool-cases (q x)) [
          | inl f ↦ rw (e, f) (omega arith)
          | inr f ↦ rw (e, f) rest
        ]
      ]

  keep_lt :
      (p q : A → Bool) (a : A) (xs : List A)
      → ((x : A) → p x ≡ true → q x ≡ true)
      → In a xs
      → p a ≡ false
      → q a ≡ true
      → length (keep p xs) < length (keep q xs)
  keep_lt p q a [] h m miss hit = absurd m
  keep_lt p q a (x ∷ xs) h (inl e) miss hit =
      let rest = keep_le p q xs h in
      let f : p x ≡ false = rw e at miss in
      let g : q x ≡ true = rw e at hit in rw (f, g) (omega arith)
  keep_lt p q a (x ∷ xs) h (inr m) miss hit =
      let rest = keep_lt p q a xs h m miss hit in
      elim (Bool-cases (p x)) [
        | inl e ↦ rw (e, h x e) (omega arith)
        | inr e ↦ elim (Bool-cases (q x)) [
          | inl f ↦ rw (e, f) (omega arith)
          | inr f ↦ rw (e, f) rest
        ]
      ]

above_mono :
    (after lower : Option Bytes) (k x : Bytes)
    → above after lower k ≡ true
    → lex_ltb k x ≡ true
    → above after lower x ≡ true
unfolding above
above_mono (some a) lower k x h lt = lex_trans a k x h lt
above_mono none none k x h lt = refl
above_mono none (some l) k x h lt = elim (Bool-cases (lex_ltb x l)) [
  | inr e ↦ rw e refl
  | inl e ↦ absurd (let q = lex_trans k x l lt e in cc (q, h))
]

module _ {J : Type 0} (s : Store J) (bucket : Bytes) (prefix : Option Bytes) (page_size : ℕ) where
  -- The pages put together, on fuel.
  unfoldable pub walk : ℕ → Option Bytes → List Listed
  walk zero after = []
  walk (suc fuel) after = elim (list_objects s bucket after prefix page_size) [
    | err e ↦ []
    | ok result ↦ elim (result.1) [
      | false ↦ result.0
      | true ↦
          result.0 ++ elim (get_last? result.0) [ none ↦ [] | some row ↦ walk fuel (some row.0) ]
    ]
  ]

  -- The live objects that are still to come.
  abbrev pub to_come : Option Bytes → Option Bytes → Option Bytes → List Listed
  to_come after lower upper =
      keep (λ (row : Listed). above after lower row.0 && below upper row.0)
        (live_in bucket s.objects)

  full_page :
      (after lower upper : Option Bytes) (page : List Listed) (more : Bool)
      → key_range prefix ≡ ok (lower, upper)
      → list_objects s bucket after prefix page_size ≡ ok (page, more)
      → (more ≡ false) ⊎ (length page ≡ page_size)
  unfolding list_objects
  full_page after lower upper page more h e =
      let rows = sort key_before (to_come after lower upper) in
      let q : ok (
        take page_size (take (suc page_size) rows),
        ltb page_size (length (take (suc page_size) rows)),
      )
          ≡ ok (page, more) =
        rw (h, list_objects) at e in
      let p1 : take page_size (take (suc page_size) rows) ≡ page = cc (q) in
      let p2 : ltb page_size (length (take (suc page_size) rows)) ≡ more = cc (q) in
      elim (Bool-cases more) [
        | inr e ↦ inl e
        | inl e ↦
            let longer : ltb page_size (length (take (suc page_size) rows)) ≡ true = p2 ∙ e in
            inr (
              ground (
                arith,
                sym (ap length p1),
                length-take page_size (take (suc page_size) rows),
                longer,
              ))
      ]

  -- What a client has to be sure of: no two live objects of the bucket have one key.
  abbrev pub KeysDiffer : Type 0
  KeysDiffer =
      (a b : Listed)
      → In a (live_in bucket s.objects)
      → In b (live_in bucket s.objects)
      → a.0 ≡ b.0
      → a ≡ b

  -- A row that is not on the page comes after its last key.
  past_last :
      (after lower upper : Option Bytes) (page : List Listed) (more : Bool) (last row : Listed)
      → KeysDiffer
      → IsPage s bucket after page_size lower upper page more
      → In last page
      → In row (live_in bucket s.objects)
      → All (λ p. key_before row p ≡ false) page
      → In row page ⊎ (lex_ltb last.0 row.0 ≡ true)
  past_last after lower upper page more last row differ is m live past =
      let not_before = All-In key_before (λ p. key_before row p ≡ false) page last past m in
      elim (lex_total last.0 row.0) [
        | inl lt ↦ inr lt
        | inr (inl same) ↦
            inl (subst (λ r. In r page) (differ last row (is.only last m).0 live same) m)
        | inr (inr gt) ↦ absurd (cc (gt, not_before))
      ]

  next_range :
      (after lower upper : Option Bytes) (last row : Bytes)
      → InRange after lower upper row
      → lex_ltb last row ≡ true
      → InRange (some last) lower upper row
  unfolding above
  next_range after lower upper last row range lt = ground (arith, lt, range)

  -- From the last key of a page on, fewer are to come.
  fewer :
      (after lower upper : Option Bytes) (last : Listed)
      → In last (live_in bucket s.objects)
      → InRange after lower upper last.0
      → length (to_come (some last.0) lower upper) < length (to_come after lower upper)
  unfolding above
  fewer after lower upper last live range =
      keep_lt _ _ last (live_in bucket s.objects)
        (λ x h.
          let start : above after lower last.0 ≡ true = ground (arith, range) in
          let later : lex_ltb last.0 x.0 ≡ true = ground (arith, h) in
          let up = above_mono after lower last.0 x.0 start later in ground (arith, up, h))
        live (rw (lex_irrefl last.0) refl) range

  -- Where the keys of the live objects of a bucket differ and a page has room for one, a client that starts the next page at the last key of the page before, until no more is reported, is given every live object in the range that it asked for: it needs no more pages than there are such objects, and one.
  pub walk_complete :
      (fuel : ℕ) (after lower upper : Option Bytes) (row : Listed)
      → key_range prefix ≡ ok (lower, upper)
      → 1 ≤ page_size
      → KeysDiffer
      → In row (live_in bucket s.objects)
      → InRange after lower upper row.0
      → length (to_come after lower upper) < fuel
      → In row (walk fuel after)
  unfolding walk
  walk_complete zero after lower upper row h room differ live range enough = absurd (omega arith)
  walk_complete (suc fuel) after lower upper row h room differ live range enough =
      let (page, more, answer, is) =
        list_objects-IsPage s bucket after page_size prefix lower upper h in
      elim (Bool-cases more) [
        | inr done ↦ elim (is.complete row live range) [
          | inl here ↦ rw (answer, walk) (rw done here)
          | inr (goes_on, past) ↦ absurd (cc (goes_on, done))
        ]
        | inl goes_on ↦ elim (full_page after lower upper page more h answer) [
          | inl done ↦ absurd (cc (goes_on, done))
          | inr full ↦
              let (last, is_last) = last-some page (omega (arith, full, room)) in
              let m = last-In page last is_last in
              let (last_live, last_range) = is.only last m in
              rw (answer, walk)
                (rw goes_on (
                  rw is_last (elim (is.complete row live range) [
                    | inl here ↦ In-append_left row page _ here
                    | inr (_, past) ↦
                        elim (past_last after lower upper page more last row differ is m live
                          past) [
                            | inl here ↦ In-append_left row page _ here
                            | inr lt ↦ In-append_right row page _ (
                                walk_complete fuel (some last.0) lower upper row h room differ live
                                  (next_range after lower upper last.0 row.0 range lt)
                                  (omega (
                                    arith,
                                    enough,
                                    fewer after lower upper last last_live last_range,
                                  )))
                          ]
                  ])))
        ]
      ]
