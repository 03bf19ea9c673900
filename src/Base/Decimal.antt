-- ===== src/Base/Decimal.antt =====
-- Numbers written in decimal, and `str::parse` for `u64`, `i32` and `i64`.
use Prim.Native.Nat.{ℕ, zero, suc, ◌+◌, ◌-◌, ◌*◌, ◌/◌, ◌%◌, ◌^◌, ◌≤◌, ◌<◌}
use mathlib.Core.Path.{◌≡◌, refl, sym, ap, ◌∙◌}
use mathlib.Core.Logic.{inl, inr}
use mathlib.Core.Bool.{true, false, ◌&&◌}
use mathlib.Core.Option.{Option, none, some}
use mathlib.Core.List.{[], ◌∷◌}
use native.Mathlib.Omega.{arith}
use shardscape.Base.Tests.{ltb, leb, nat_beq, if◌then◌else◌, Bool-cases}
use shardscape.Base.ByteStrings.{Bytes}
use shardscape.Base.Int.{ℤ, pos, negsuc}

-- The digits of a number in front of `rest`, on fuel.
unfoldable pub digits : ℕ → ℕ → Bytes → Bytes
digits zero n rest = rest
digits (suc fuel) n rest =
    let more = digits fuel (n / 10) ((b'0' + n % 10) ∷ rest) in
    if ltb n 10 then (b'0' + n) ∷ rest else more

unfoldable pub decimal : ℕ → Bytes
unfolding digits
decimal n = digits (suc n) n []

-- The value of a text of digits behind the value of those before it.
unfoldable pub digits_value : ℕ → Bytes → Option ℕ
digits_value acc [] = some acc
digits_value acc (c ∷ s) =
    if leb b'0' c && leb c b'9' then digits_value (acc * 10 + (c - b'0')) s else none

abbrev pub unsigned : Bytes → Option ℕ
unsigned [] = none
unsigned (c ∷ s) = digits_value 0 (c ∷ s)

-- A leading `+` is allowed.
abbrev pub plus_sign : Bytes → Bytes
plus_sign [] = []
plus_sign (c ∷ s) = if nat_beq c b'+' then s else c ∷ s

abbrev pub below : ℕ → Option ℕ → Option ℕ
below bound none = none
below bound (some n) = if ltb n bound then some n else none

unfoldable pub parse_u64 : Bytes → Option ℕ
unfolding digits_value
parse_u64 s = below (2 ^ 64) (unsigned (plus_sign s))

abbrev pub negated : Option ℕ → Option ℤ
negated none = none
negated (some zero) = some (pos 0)
negated (some (suc n)) = some (negsuc n)

abbrev pub as_pos : Option ℕ → Option ℤ
as_pos none = none
as_pos (some n) = some (pos n)

unfoldable pub parse_i32 : Bytes → Option ℤ
unfolding digits_value
parse_i32 [] = none
parse_i32 (c ∷ s) =
    if nat_beq c b'-'
    then negated (below (2 ^ 31 + 1) (unsigned s))
    else as_pos (below (2 ^ 31) (unsigned (plus_sign (c ∷ s))))

unfoldable pub parse_i64 : Bytes → Option ℤ
unfolding digits_value
parse_i64 [] = none
parse_i64 (c ∷ s) =
    if nat_beq c b'-'
    then negated (below (2 ^ 63 + 1) (unsigned s))
    else as_pos (below (2 ^ 63) (unsigned (plus_sign (c ∷ s))))

digits_value-digits :
    (fuel n : ℕ) (rest : Bytes)
    → n < fuel
    → digits_value 0 (digits fuel n rest) ≡ digits_value n rest
unfolding digits digits_value
digits_value-digits zero n rest h = absurd (omega arith)
digits_value-digits (suc fuel) n rest h = elim (Bool-cases (ltb n 10)) [
  | inl small ↦
      let digit : leb b'0' (b'0' + n) && leb (b'0' + n) b'9' ≡ true = ground arith in
      let value : 0 * 10 + (b'0' + n - b'0') ≡ n = omega arith in rw small (rw (digit, value) refl)
  | inr large ↦
      let digit : leb b'0' (b'0' + n % 10) && leb (b'0' + n % 10) b'9' ≡ true = ground arith in
      let value : n / 10 * 10 + (b'0' + n % 10 - b'0') ≡ n = omega arith in
      rw large (
        digits_value-digits fuel (n / 10) ((b'0' + n % 10) ∷ rest) (ground (arith, large))
        ∙ rw (digit, value) refl)
]

digits_head :
    (fuel n : ℕ) (rest : Bytes)
    → n < fuel
    → (c : ℕ) × (s : Bytes) × (digits fuel n rest ≡ c ∷ s) × (b'0' ≤ c)
unfolding digits
digits_head zero n rest h = absurd (omega arith)
digits_head (suc fuel) n rest h = elim (Bool-cases (ltb n 10)) [
  | inl small ↦ (b'0' + n, rest, rw small refl, omega arith)
  | inr large ↦
      let (c, s, e, le) =
        digits_head fuel (n / 10) ((b'0' + n % 10) ∷ rest) (ground (arith, large)) in
      (c, s, rw large e, le)
]

-- A `u64` that is written in decimal parses back.
pub parse_u64-decimal : (n : ℕ) → n < 2 ^ 64 → parse_u64 (decimal n) ≡ some n
unfolding parse_u64 decimal
parse_u64-decimal n h =
    let (c, s, e, le) = digits_head (suc n) n [] (omega arith) in
    let value : digits_value 0 (c ∷ s) ≡ some n =
      ap (digits_value 0) (sym e) ∙ digits_value-digits (suc n) n [] (omega arith) ∙ refl in
    let sign : nat_beq c b'+' ≡ false = ground arith in
    let fits : ltb n (2 ^ 64) ≡ true = ground arith in rw e (rw sign (rw value (rw fits refl)))

-- A number that is written in decimal parses back as an `i64`.
pub parse_i64-decimal : (n : ℕ) → n < 2 ^ 63 → parse_i64 (decimal n) ≡ some (pos n)
unfolding parse_i64 decimal
parse_i64-decimal n h =
    let (c, s, e, le) = digits_head (suc n) n [] (omega arith) in
    let value : digits_value 0 (c ∷ s) ≡ some n =
      ap (digits_value 0) (sym e) ∙ digits_value-digits (suc n) n [] (omega arith) ∙ refl in
    let minus : nat_beq c b'-' ≡ false = ground arith in
    let sign : nat_beq c b'+' ≡ false = ground arith in
    let fits : ltb n (2 ^ 63) ≡ true = ground arith in
    rw e (rw minus (rw sign (rw value (rw fits refl))))
