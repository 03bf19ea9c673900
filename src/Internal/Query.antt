-- ===== src/Internal/Query.antt =====
-- `url_query_pairs` and `percent_decode` of src/main.rs.
use shardscape.Base.{
  ℕ, zero, suc, ◌+◌, ◌-◌, ◌*◌, List, [], ◌∷◌, Bytes, Option, none, some, Bool, true, false, ◌&&◌,
  Result, ok, err, panic, ◌>>=◌, split, split_once, keep, nat_beq, leb, if◌then◌else◌,
}
use shardscape.Internal.Lossy.{from_utf8_lossy}

-- `u8::from_str_radix(…, 16)` of one digit.
abbrev pub hex_digit : ℕ → Option ℕ
hex_digit c =
    if leb b'0' c && leb c b'9'
    then some (c - b'0')
    else if leb b'a' c && leb c b'f'
    then some (c - b'a' + 10)
    else if leb b'A' c && leb c b'F'
    then some (c - b'A' + 10)
    else none

abbrev pub two_digits : Option ℕ → Option ℕ → Option ℕ
two_digits none _ = none
two_digits (some a) none = none
two_digits (some a) (some b) = some (a * 16 + b)

-- The same of two characters: the first may be a `+`.
unfoldable pub hex_pair : ℕ → ℕ → Option ℕ
hex_pair a b = if nat_beq a b'+' then hex_digit b else two_digits (hex_digit a) (hex_digit b)

-- A byte at which no character begins.
abbrev pub is_continuation : Bytes → Bool
is_continuation [] = false
is_continuation (c ∷ s) = leb 0x80 c && leb c 0xbf

abbrev pub plain_byte : ℕ → ℕ
plain_byte c = if nat_beq c b'+' then b' ' else c

-- The byte that a `%` gives, and how many of the bytes behind it are its digits. The two bytes are cut
-- out of the text, which panics inside a character.
unfoldable pub escaped : Bytes → Result (ℕ × ℕ)
escaped [] = ok (b'%', 0)
escaped (a ∷ []) = ok (b'%', 0)
escaped (a ∷ b ∷ rest) =
    if is_continuation rest
    then err panic
    else elim (hex_pair a b) [ none ↦ ok (b'%', 0) | some byte ↦ ok (byte, 2) ]

abbrev pub next_byte : ℕ → Bytes → Result (ℕ × ℕ)
next_byte c s = if nat_beq c b'%' then escaped s else ok (plain_byte c, 0)

-- The loop: `skip` bytes have been taken already.
unfoldable pub decode_bytes : ℕ → Bytes → Result Bytes
decode_bytes skip [] = ok []
decode_bytes (suc skip) (c ∷ s) = decode_bytes skip s
decode_bytes zero (c ∷ s) =
    next_byte c s >>= λ step. decode_bytes step.1 s >>= λ more. ok (step.0 ∷ more)

unfoldable pub percent_decode : Bytes → Result Bytes
percent_decode s = decode_bytes 0 s >>= λ out. ok (from_utf8_lossy out)

abbrev pub decode_pair : Bytes × Bytes → Result (Bytes × Bytes)
decode_pair (k, v) = percent_decode k >>= λ key. percent_decode v >>= λ value. ok (key, value)

abbrev pub is_full : Bytes → Bool
is_full [] = false
is_full (c ∷ s) = true

unfoldable pub decode_pairs : List Bytes → Result (List (Bytes × Bytes))
decode_pairs [] = ok []
decode_pairs (kv ∷ pieces) = elim (split_once b'=' kv) [
  | none ↦ decode_pairs pieces
  | some pair ↦ decode_pair pair >>= λ first. decode_pairs pieces >>= λ rest. ok (first ∷ rest)
]

unfoldable pub url_query_pairs : Bytes → Result (List (Bytes × Bytes))
url_query_pairs q = decode_pairs (keep is_full (split b'&' q))
