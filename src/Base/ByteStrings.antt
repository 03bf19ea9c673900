-- ===== src/Base/ByteStrings.antt =====
-- Byte strings: Rust's `String`, `&str`, `Vec<u8>` and `Bytes`, with the byte-wise order that Rust
-- and SQLite's BINARY collation compare texts by.
use Prim.Native.Nat.{ℕ, ◌<◌}
use Prim.Native.Char.{code}
use Prim.Native.String.{String}
use mathlib.Core.Path.{◌≡◌, refl}
use mathlib.Core.Logic.{◌⊎◌}
use mathlib.Core.Bool.{Bool, true, false, ◌&&◌, ◌||◌, not}
use mathlib.Core.Option.{Option, none, some}
use mathlib.Core.List.{List, [], ◌∷◌, ◌++◌}
use native.Mathlib.Omega.{arith}
use shardscape.Base.Tests.{ltb, nat_beq, if◌then◌else◌}
use shardscape.Base.Lists.{option_map, All}

abbrev pub Bytes : Type 0
Bytes = List ℕ

abbrev pub IsBytes : Bytes → Type 0
IsBytes = All (λ b. b < 256)

-- The bytes of an ASCII literal.
abbrev pub text : String → Bytes
text String.[] = []
text (String.◌∷◌ c s) = code c ∷ text s

-- `a < b`, byte by byte.
unfoldable pub lex_ltb : Bytes → Bytes → Bool
lex_ltb [] [] = false
lex_ltb [] (y ∷ ys) = true
lex_ltb (x ∷ xs) [] = false
lex_ltb (x ∷ xs) (y ∷ ys) = ltb x y || (nat_beq x y && lex_ltb xs ys)

abbrev pub lex_leb : Bytes → Bytes → Bool
lex_leb a b = not (lex_ltb b a)

-- `str::strip_prefix`.
unfoldable pub strip_prefix : Bytes → Bytes → Option Bytes
strip_prefix [] s = some s
strip_prefix (x ∷ p) [] = none
strip_prefix (x ∷ p) (y ∷ s) = if nat_beq x y then strip_prefix p s else none

abbrev pub starts_with : Bytes → Bytes → Bool
starts_with p s = elim (strip_prefix p s) [ none ↦ false | some _ ↦ true ]

pub strip_prefix-append : (p s : Bytes) → strip_prefix p (p ++ s) ≡ some s
unfolding strip_prefix
strip_prefix-append [] s = refl
strip_prefix-append (x ∷ p) s = ground (arith, strip_prefix-append p s)

pub append-strip_prefix : (p s r : Bytes) → strip_prefix p s ≡ some r → s ≡ p ++ r
unfolding strip_prefix
append-strip_prefix [] s r h = ground arith
append-strip_prefix (x ∷ p) [] r h = ground arith
append-strip_prefix (x ∷ p) (y ∷ s) r h = ground (arith, append-strip_prefix p s r)

pub lex_irrefl : (a : Bytes) → lex_ltb a a ≡ false
unfolding lex_ltb
lex_irrefl [] = refl
lex_irrefl (x ∷ a) = ground (arith, lex_irrefl a)

pub lex_trans : (a b c : Bytes) → lex_ltb a b ≡ true → lex_ltb b c ≡ true → lex_ltb a c ≡ true
unfolding lex_ltb
lex_trans [] [] c h k = cc
lex_trans [] (y ∷ b) [] h k = cc
lex_trans [] (y ∷ b) (z ∷ c) h k = refl
lex_trans (x ∷ a) [] c h k = cc
lex_trans (x ∷ a) (y ∷ b) [] h k = cc
lex_trans (x ∷ a) (y ∷ b) (z ∷ c) h k = ground (arith, lex_trans a b c)

pub lex_total : (a b : Bytes) → (lex_ltb a b ≡ true) ⊎ (a ≡ b) ⊎ (lex_ltb b a ≡ true)
unfolding lex_ltb
lex_total [] [] = ground arith
lex_total [] (y ∷ b) = ground arith
lex_total (x ∷ a) [] = ground arith
lex_total (x ∷ a) (y ∷ b) = ground (arith, lex_total a b)

-- `str::split_once` of a byte: what stands before and behind the first of it.
unfoldable pub split_once : ℕ → Bytes → Option (Bytes × Bytes)
split_once c [] = none
split_once c (d ∷ s) =
    if nat_beq d c
    then some ([], s)
    else option_map (λ (p : Bytes × Bytes). (d ∷ p.0, p.1)) (split_once c s)

-- The pieces between the separators, the first one first.
abbrev pub first_longer : ℕ → List Bytes → List Bytes
first_longer c [] = (c ∷ []) ∷ []
first_longer c (piece ∷ pieces) = (c ∷ piece) ∷ pieces

-- `str::split` of a byte: at least one piece.
unfoldable pub split : ℕ → Bytes → List Bytes
split c [] = [] ∷ []
split c (d ∷ s) = if nat_beq d c then [] ∷ split c s else first_longer d (split c s)
