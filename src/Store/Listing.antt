-- ===== src/Store/Listing.antt =====
-- What a page of `list_objects` holds and what it leaves for the next one.
use shardscape.Base.{
  ℕ, suc, ltb, ◌≤◌, ◌≡◌, refl, subst, Bool, true, false, ◌&&◌, List, Bytes, Option, length, take,
  length-take, sort, keep, In, In-keep, All, ◌⊎◌, inl, inr, ok, Bool-cases, lex_ltb, lex_irrefl,
  lex_trans, lex_total, list_eq, nat_eq, pair_eq, arith,
}
use shardscape.Store.{Store}
use shardscape.Store.Queries.{Listed, live_in, key_range, above, below, key_before, list_objects}
use shardscape.Store.Sorting.{
  Sorted, IsOrder, In-sort, sort-Sorted, take-Sorted, take-In, take-take-suc, page_lem,
}

lex_asym : (a b : Bytes) → lex_ltb a b ≡ true → lex_ltb b a ≡ false
lex_asym a b h = elim (Bool-cases (lex_ltb b a)) [
  | inl e ↦ absurd (let q = lex_trans a b a h e in let r = lex_irrefl a in cc (q, r))
  | inr e ↦ e
]

lex_neg_trans : (a b c : Bytes) → lex_ltb b a ≡ false → lex_ltb c b ≡ false → lex_ltb c a ≡ false
lex_neg_trans a b c h k = elim (Bool-cases (lex_ltb c a)) [
  | inl e ↦ elim (lex_total a b) [
    | inl ab ↦ absurd (let q = lex_trans c a b e ab in cc (q, k))
    | inr (inl q) ↦ absurd (let r = subst (λ x. lex_ltb c x ≡ true) q e in cc (r, k))
    | inr (inr ba) ↦ absurd (cc (ba, h))
  ]
  | inr e ↦ e
]

pub key_before-IsOrder : IsOrder key_before
key_before-IsOrder = record {
  asym = λ x y h. lex_asym x.0 y.0 h;
  neg_trans = λ x y z h k. lex_neg_trans x.0 y.0 z.0 h k;
}

-- The keys of a request: those of the bucket's live objects that are in the range.
abbrev pub InRange : Option Bytes → Option Bytes → Option Bytes → Bytes → Type 0
InRange after lower upper key = (above after lower key && below upper key) ≡ true

module _ {J : Type 0} (s : Store J) (bucket : Bytes) (after : Option Bytes) (page_size : ℕ) where
  abbrev wanted : Option Bytes → Option Bytes → List Listed
  wanted lower upper = sort key_before (
      keep (λ (row : Listed). above after lower row.0 && below upper row.0)
        (live_in bucket s.objects))

  -- A page of a listing: in the order of the keys, no longer than asked, only live objects in the range, and all of them or, where more is reported, all but such as come after the page.
  pub record IsPage (lower upper : Option Bytes) (page : List Listed) (more : Bool) : Type 0 where
    pub sorted : Sorted key_before page
    pub short : length page ≤ page_size
    pub only :
        (row : Listed)
        → In row page
        → In row (live_in bucket s.objects) × InRange after lower upper row.0
    pub complete :
        (row : Listed)
        → In row (live_in bucket s.objects)
        → InRange after lower upper row.0
        → In row page ⊎ ((more ≡ true) × All (λ p. key_before row p ≡ false) page)

  pub list_objects-IsPage :
      (prefix lower upper : Option Bytes)
      → key_range prefix ≡ ok (lower, upper)
      → (page : List Listed) × (more : Bool) × (list_objects s bucket after prefix page_size
          ≡ ok (page, more))
        × IsPage lower upper page more
  unfolding list_objects
  list_objects-IsPage prefix lower upper h =
      let test = λ (row : Listed). above after lower row.0 && below upper row.0 in
      let live = live_in bucket s.objects in
      let rows = wanted lower upper in
      let page = take page_size (take (suc page_size) rows) in
      let ordered = sort-Sorted key_before (keep test live) key_before-IsOrder in
      (
        page,
        ltb page_size (length (take (suc page_size) rows)),
        rw (h, list_objects) refl,
        record {
          sorted =
              take-Sorted key_before page_size (take (suc page_size) rows)
                (take-Sorted key_before (suc page_size) rows ordered);
          short = omega (arith, length-take page_size (take (suc page_size) rows));
          only = λ row m. (In-keep test row live).0 (
              (In-sort key_before row (keep test live)).0 (
                take-In key_before (suc page_size) rows row
                  (take-In key_before page_size (take (suc page_size) rows) row m)));
          complete = λ row m in_range.
              let found =
                (In-sort key_before row (keep test live)).1
                  ((In-keep test row live).1 (m, in_range)) in
              rw (take-take-suc key_before page_size rows)
                (elim (page_lem key_before page_size rows row ordered found) [
                  | inl here ↦ inl here
                  | inr (longer, past) ↦
                      inr (ground (arith, longer, length-take (suc page_size) rows), past)
                ]);
        },
      )
