-- ===== src/Delimiter.antt =====
-- Listings with a delimiter, of src/storage.rs, over the pages of the store.
pub mod Groups
pub mod Pages
mod Examples
use shardscape.Base.{
  ℕ, zero, suc, ltb, leb, Bool, true, false, not, ◌&&◌, List, [], ◌∷◌, ◌++◌, ◌==◌, Bytes, Option,
  none, some, option_map, Result, ok, err, diverges, ◌>>=◌, length, take, get_last?, any, map, sort,
  lex_ltb, starts_with, strip_prefix, if◌then◌else◌, list_eq, nat_eq,
}
use shardscape.Store.{Store}
use shardscape.Store.Queries.{Listed, list_objects}

-- `str::find`: the bytes before the first occurrence.
unfoldable pub before_first : Bytes → Bytes → Option Bytes
before_first delimiter [] = if starts_with delimiter [] then some [] else none
before_first delimiter (b ∷ bytes) =
    let rest = before_first delimiter bytes in
    if starts_with delimiter (b ∷ bytes) then some [] else option_map (λ r. b ∷ r) rest

-- The common prefix of a key, if it has one.
unfoldable pub common_prefix : Bytes → Bytes → Bytes → Option Bytes
common_prefix prefix delimiter key = elim (strip_prefix prefix key) [
  | none ↦ none
  | some rest ↦ elim (before_first delimiter rest) [
    | none ↦ none
    | some front ↦ some (prefix ++ front ++ delimiter)
  ]
]

-- The tail is looked at first, and then the whole list.
abbrev pub push_new : Bytes → List Bytes → List Bytes
push_new cp common = if any (λ c. c == cp) common then common else common ++ (cp ∷ [])

-- One round of the loop of `group_by_delimiter`, with the two vectors, and the loop.
unfoldable pub group_one :
    Option Bytes → Listed → List Listed × List Bytes → List Listed × List Bytes
group_one none object groups = (groups.0 ++ (object ∷ []), groups.1)
group_one (some cp) object groups = (groups.0, push_new cp groups.1)

unfoldable pub group_objects :
    Bytes → Bytes → List Listed → List Listed × List Bytes → List Listed × List Bytes
group_objects prefix delimiter [] groups = groups
group_objects prefix delimiter (object ∷ objects) groups =
    group_objects prefix delimiter objects
      (group_one (common_prefix prefix delimiter object.0) object groups)

unfoldable pub group_by_delimiter : List Listed → Bytes → Bytes → List Listed × List Bytes
group_by_delimiter objects prefix delimiter = group_objects prefix delimiter objects ([], [])

pub data Item : Type 0 where
  obj : Listed → Item
  common : Bytes → Item

abbrev pub item_key : Item → Bytes
item_key (obj o) = o.0
item_key (common p) = p

abbrev pub item_before : Item → Item → Bool
item_before a b = lex_ltb (item_key a) (item_key b)

abbrev pub objects_of : List Item → List Listed
objects_of [] = []
objects_of (obj o ∷ items) = o ∷ objects_of items
objects_of (common p ∷ items) = objects_of items

abbrev pub prefixes_of : List Item → List Bytes
prefixes_of [] = []
prefixes_of (obj o ∷ items) = prefixes_of items
prefixes_of (common p ∷ items) = p ∷ prefixes_of items

-- A page of a listing: objects, common prefixes, whether there is more, and the token for it.
pub record Page : Type 0 where
  pub objects : List Listed
  pub prefixes : List Bytes
  pub is_truncated : Bool
  pub next_token : Option Bytes

unfoldable pub merge_and_truncate : List Listed → List Bytes → ℕ → Page
merge_and_truncate contents prefixes max_keys =
    let merged = sort item_before (map obj contents ++ map common prefixes) in
    let kept = take max_keys merged in
    let is_truncated = ltb max_keys (length merged) in
    record {
      objects = objects_of kept;
      prefixes = prefixes_of kept;
      is_truncated = is_truncated;
      next_token = if is_truncated then option_map item_key (get_last? kept) else none;
    }

abbrev pub scan_cap : ℕ
scan_cap = 100000

abbrev pub last_key : List Listed → Option Bytes
last_key objects = option_map (λ (o : Listed). o.0) (get_last? objects)

module _ {J : Type 0} (s : Store J) (bucket : Bytes) (prefix : Option Bytes) where
  -- The scan of a prefix in pages of 1000, which ends at the latest with `scan_cap` objects.
  unfoldable pub scan : ℕ → Option Bytes → List Listed → Result (List Listed)
  scan zero cursor gathered = err diverges
  scan (suc fuel) cursor gathered = list_objects s bucket cursor prefix 1000 >>= λ page.
      let all = gathered ++ page.0 in
      elim (last_key page.0) [
        | none ↦ ok all
        | some k ↦ if page.1 && ltb (length all) scan_cap then scan fuel (some k) all else ok all
      ]

  unfoldable pub list_page : Option Bytes → Option Bytes → ℕ → Result Page
  list_page start_after none max_keys =
      list_objects s bucket start_after prefix max_keys >>= λ page. ok (record {
        objects = page.0;
        prefixes = [];
        is_truncated = page.1;
        next_token = if page.1 then last_key page.0 else none;
      })
  list_page start_after (some delimiter) max_keys =
      scan (suc scan_cap) start_after [] >>= λ gathered.
      let groups = group_by_delimiter gathered (elim prefix [ none ↦ [] | some p ↦ p ]) delimiter in
      ok (merge_and_truncate groups.0 groups.1 max_keys)
