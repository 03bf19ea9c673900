-- ===== src/Delimiter/Pages.antt =====
-- The merged page of a listing with a delimiter, and the end of its scan.
use shardscape.Base.{
  ℕ, zero, suc, ◌+◌, ◌≤◌, ltb, ◌≡◌, refl, sym, subst, ap, inl, inr, ◌↔◌, ◌&&◌, false, List, [], ◌∷◌,
  ◌++◌, Bytes, Option, none, some, Result, ok, ◌>>=◌, In, map, take, length, length-take,
  length-append, sort, Bool, Bool-cases, Option-cases, arith,
}
use shardscape.Delimiter.{
  Item, obj, common, item_before, objects_of, prefixes_of, Page, merge_and_truncate, last_key, scan,
  scan_cap, list_page,
}
use shardscape.Store.{Store}
use shardscape.Store.Queries.{Listed, key_range, list_objects}
use shardscape.Store.Sorting.{In-sort, take-In}
use shardscape.Store.Listing.{list_objects-IsPage}

objects_of-In : (o : Listed) (items : List Item) → In o (objects_of items) ↔ In (obj o) items
objects_of-In o [] = (λ m. m, λ m. m)
objects_of-In o (obj x ∷ items) = (
  λ m. elim m [ inl q ↦ inl (ap obj q) | inr n ↦ inr ((objects_of-In o items).0 n) ],
  λ m. elim m [ inl q ↦ inl (cc (q)) | inr n ↦ inr ((objects_of-In o items).1 n) ],
)
objects_of-In o (common p ∷ items) = (
  λ m. inr ((objects_of-In o items).0 m),
  λ m. elim m [ inl q ↦ absurd (cc (q)) | inr n ↦ (objects_of-In o items).1 n ],
)

prefixes_of-In : (p : Bytes) (items : List Item) → In p (prefixes_of items) ↔ In (common p) items
prefixes_of-In p [] = (λ m. m, λ m. m)
prefixes_of-In p (common x ∷ items) = (
  λ m. elim m [ inl q ↦ inl (ap common q) | inr n ↦ inr ((prefixes_of-In p items).0 n) ],
  λ m. elim m [ inl q ↦ inl (cc (q)) | inr n ↦ inr ((prefixes_of-In p items).1 n) ],
)
prefixes_of-In p (obj o ∷ items) = (
  λ m. inr ((prefixes_of-In p items).0 m),
  λ m. elim m [ inl q ↦ absurd (cc (q)) | inr n ↦ (prefixes_of-In p items).1 n ],
)

objects_of-items :
    (contents : List Listed) (prefixes : List Bytes)
    → objects_of (map obj contents ++ map common prefixes) ≡ contents
objects_of-items [] [] = refl
objects_of-items [] (p ∷ ps) = objects_of-items [] ps
objects_of-items (o ∷ os) ps = ap (◌∷◌ o) (objects_of-items os ps)

prefixes_of-items :
    (contents : List Listed) (prefixes : List Bytes)
    → prefixes_of (map obj contents ++ map common prefixes) ≡ prefixes
prefixes_of-items [] [] = refl
prefixes_of-items [] (p ∷ ps) = ap (◌∷◌ p) (prefixes_of-items [] ps)
prefixes_of-items (o ∷ os) ps = prefixes_of-items os ps

length-items :
    (items : List Item) → length (objects_of items) + length (prefixes_of items) ≡ length items
length-items [] = refl
length-items (obj o ∷ items) = omega (arith, length-items items)
length-items (common p ∷ items) = omega (arith, length-items items)

take_whole : (n : ℕ) (items : List Item) → ltb n (length items) ≡ false → take n items ≡ items
take_whole zero [] h = refl
take_whole zero (x ∷ xs) h = absurd (ground arith)
take_whole (suc n) [] h = refl
take_whole (suc n) (x ∷ xs) h = ap (◌∷◌ x) (take_whole n xs (ground arith))

-- A merged page has at most the number asked for, objects and prefixes together, only such as were given, and all of them where it reports no more.
pub merge_and_truncate_lem :
    (contents : List Listed) (prefixes : List Bytes) (max_keys : ℕ)
    → (let page = merge_and_truncate contents prefixes max_keys in
        (length page.objects + length page.prefixes ≤ max_keys)
        × ((o : Listed) → In o page.objects → In o contents)
        × ((p : Bytes) → In p page.prefixes → In p prefixes)
        × (page.is_truncated ≡ false
            → ((o : Listed) → In o contents → In o page.objects)
              × ((p : Bytes) → In p prefixes → In p page.prefixes)))
unfolding merge_and_truncate
merge_and_truncate_lem contents prefixes max_keys =
    let items = map obj contents ++ map common prefixes in
    let merged = sort item_before items in
    let kept = take max_keys merged in
    let sound : (i : Item) → In i kept → In i items =
      λ i m. (In-sort item_before i items).0 (take-In item_before max_keys merged i m) in
    let whole : ltb max_keys (length merged) ≡ false → (i : Item) → In i items → In i kept =
      λ h i m.
        subst (In i) (sym (take_whole max_keys merged h)) ((In-sort item_before i items).1 m) in
    (
      omega (arith, length-items kept, length-take max_keys merged),
      λ o m.
          subst (In o) (objects_of-items contents prefixes)
            ((objects_of-In o items).1 (sound (obj o) ((objects_of-In o kept).0 m))),
      λ p m.
          subst (In p) (prefixes_of-items contents prefixes)
            ((prefixes_of-In p items).1 (sound (common p) ((prefixes_of-In p kept).0 m))),
      λ h. (
        λ o m. (objects_of-In o kept).1 (
            whole h (obj o) (
              (objects_of-In o items).0
                (subst (In o) (sym (objects_of-items contents prefixes)) m))),
        λ p m. (prefixes_of-In p kept).1 (
            whole h (common p) (
              (prefixes_of-In p items).0
                (subst (In p) (sym (prefixes_of-items contents prefixes)) m))),
      ),
    )

last_key-nonempty :
    (objects : List Listed) (k : Bytes) → last_key objects ≡ some k → 1 ≤ length objects
last_key-nonempty [] k h = absurd (cc (h))
last_key-nonempty (o ∷ os) k h = omega arith

bind_total :
    {A B : Type 0} (m : Result A) (a : A) (g : A → B)
    → m ≡ ok a
    → (b : B) × ((m >>= λ x. ok (g x)) ≡ ok b)
bind_total m a g h = (g a, rw h refl)

module _ {J : Type 0} (s : Store J) (bucket : Bytes) (prefix : Option Bytes) where
  -- One round: it ends, or it goes on with a longer list.
  scan-next :
      (cursor : Option Bytes) (fuel : ℕ) (gathered page : List Listed) (more : Bool)
      → list_objects s bucket cursor prefix 1000 ≡ ok (page, more)
      → scan_cap ≤ fuel + length gathered
      → ((k : Bytes) (f : ℕ) (all : List Listed)
          → fuel ≡ suc f
          → scan_cap ≤ f + length all
          → (result : List Listed) × (scan s bucket prefix (suc f) (some k) all ≡ ok result))
      → (result : List Listed) × (scan s bucket prefix (suc fuel) cursor gathered ≡ ok result)
  unfolding scan
  scan-next cursor zero gathered page more listed enough again =
      let all = gathered ++ page in
      let longer = length-append gathered page in
      elim (Option-cases (last_key page)) [
        | inl e ↦ (all, rw (listed, scan) (rw (e, ◌>>=◌) refl))
        | inr (k, e) ↦
            let one = last_key-nonempty page k e in
            elim (Bool-cases (more && ltb (length all) scan_cap)) [
              | inr stop ↦ (all, rw (listed, scan) (rw (e, stop, ◌>>=◌) refl))
              | inl on ↦ absurd (ground arith)
            ]
      ]
  scan-next cursor (suc f) gathered page more listed enough again =
      let all = gathered ++ page in
      let longer = length-append gathered page in
      elim (Option-cases (last_key page)) [
        | inl e ↦ (all, rw (listed, scan) (rw (e, ◌>>=◌) refl))
        | inr (k, e) ↦
            let one = last_key-nonempty page k e in
            elim (Bool-cases (more && ltb (length all) scan_cap)) [
              | inr stop ↦ (all, rw (listed, scan) (rw (e, stop, ◌>>=◌) refl))
              | inl on ↦
                  let (result, rest) = again k f all refl (omega arith) in
                  (result, rw (listed, scan) (rw (e, on, ◌>>=◌) rest))
            ]
      ]

  scan-ok :
      (lower upper cursor : Option Bytes) (fuel : ℕ) (gathered : List Listed)
      → key_range prefix ≡ ok (lower, upper)
      → scan_cap ≤ fuel + length gathered
      → (all : List Listed) × (scan s bucket prefix (suc fuel) cursor gathered ≡ ok all)
  scan-ok lower upper cursor zero gathered range enough =
      let (page, more, listed, _) =
        list_objects-IsPage s bucket cursor 1000 prefix lower upper range in
      scan-next cursor zero gathered page more listed enough (λ k f all e h. absurd (omega arith))
  scan-ok lower upper cursor (suc g) gathered range enough =
      let (page, more, listed, _) =
        list_objects-IsPage s bucket cursor 1000 prefix lower upper range in
      scan-next cursor (suc g) gathered page more listed enough (λ k f all e h.
        let q : g ≡ f = omega arith in
        subst
          (λ n.
            scan_cap ≤ n + length all
            → (result : List Listed) × (scan s bucket prefix (suc n) (some k) all ≡ ok result))
          q (scan-ok lower upper (some k) g all range) h)

  -- Where the bounds of the prefix are found, a listing gives a page: its scan ends.
  pub list_page-ok :
      (lower upper start_after delimiter : Option Bytes) (max_keys : ℕ)
      → key_range prefix ≡ ok (lower, upper)
      → (page : Page) × (list_page s bucket prefix start_after delimiter max_keys ≡ ok page)
  unfolding list_page
  list_page-ok lower upper start_after none max_keys range =
      let (page, more, listed, _) =
        list_objects-IsPage s bucket start_after max_keys prefix lower upper range in
      bind_total (list_objects s bucket start_after prefix max_keys) (page, more) _ listed
  list_page-ok lower upper start_after (some delimiter) max_keys range =
      let (all, scanned) = scan-ok lower upper start_after scan_cap [] range (omega arith) in
      bind_total (scan s bucket prefix (suc scan_cap) start_after []) all _ scanned
