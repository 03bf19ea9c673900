-- ===== src/Delimiter/Groups.antt =====
-- What grouping by a delimiter keeps and what it collapses.
use shardscape.Base.{◌≡◌, ◌⊎◌, ◌↔◌, List, [], ◌∷◌, Bytes, Option, none, some, In, list_eq, nat_eq}
use shardscape.Delimiter.{common_prefix}
use shardscape.Store.Queries.{Listed}

abbrev pub Distinct : List Bytes → Type 0
Distinct [] = Unit
Distinct (x ∷ xs) = ¬ In x xs × Distinct xs

module _ (prefix delimiter : Bytes) where
  abbrev pub prefix_of : Listed → Option Bytes
  prefix_of object = common_prefix prefix delimiter object.0

  -- The loop from any two vectors.
  record Grouped (objects : List Listed) (groups result : List Listed × List Bytes) : Type 0 where
    contents :
        (o : Listed) → In o result.0 ↔ (In o groups.0 ⊎ (In o objects × (prefix_of o ≡ none)))
    prefixes :
        (p : Bytes)
        → In p result.1 ↔ (In p groups.1 ⊎ ((o : Listed) × In o objects × (prefix_of o ≡ some p)))
    distinct : Distinct groups.1 → Distinct result.1
