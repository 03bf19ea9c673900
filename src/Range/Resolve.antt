-- ===== src/Range/Resolve.antt =====
-- Which range an HTTP Range header resolves to.
use shardscape.Base.{ℕ, ◌+◌, ◌-◌, ◌≤◌, ◌<◌, min, ◌≡◌, ◌↔◌, none, some, arith}
use shardscape.Range.{Range, int, suffix, resolve_range}

-- The bytes that a range asks for: those from `first` to `last`, or the last `len` ones.
abbrev pub Wanted : Range → ℕ → ℕ → Type 0
Wanted (int first none) size i = first ≤ i
Wanted (int first (some last)) size i = (first ≤ i) × (i ≤ last)
Wanted (suffix len) size i = size ≤ i + len

-- A range header resolves to bounds that hold exactly the bytes of the object that it asks for; it is unsatisfiable exactly where the object has none of them.
pub resolve_range_iff :
    (range : Range) (size i : ℕ)
    → ((i < size) × Wanted range size i) ↔ (
        (start : ℕ) × (end : ℕ) × (resolve_range range size ≡ some (start, end))
        × (start ≤ i)
        × (i ≤ end))
unfolding resolve_range
resolve_range_iff (int first none) size i = (
  λ h. (first, size - 1, ground arith, ground arith, ground arith),
  λ h. (ground (arith, h.2), ground (arith, h.2)),
)
resolve_range_iff (int first (some last)) size i = (
  λ h. (first, min last (size - 1), ground arith, ground arith, ground arith),
  λ h. (ground (arith, h.2), ground (arith, h.2)),
)
resolve_range_iff (suffix len) size i = (
  λ h. (size - min len size, size - 1, ground arith, ground arith, ground arith),
  λ h. (ground (arith, h.2), ground (arith, h.2)),
)
