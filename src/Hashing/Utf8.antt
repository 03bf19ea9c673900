-- ===== src/Hashing/Utf8.antt =====
-- Rust's test for well-formed UTF-8, as a scan with the continuation bytes that are still due.
use shardscape.Base.{
  ℕ, zero, suc, Bytes, Bool, true, false, ◌&&◌, Option, none, some, [], ◌∷◌, ltb, leb, nat_beq,
  if◌then◌else◌,
}

-- After a leading byte: how many bytes are due, and the range of the first of them.
unfoldable pub leading : ℕ → Option (ℕ × ℕ × ℕ)
leading b =
    if ltb b 0x80
    then some (0, 0x80, 0xbf)
    else if ltb b 0xc2
    then none
    else if ltb b 0xe0
    then some (1, 0x80, 0xbf)
    else if nat_beq b 0xe0
    then some (2, 0xa0, 0xbf)
    else if nat_beq b 0xed
    then some (2, 0x80, 0x9f)
    else if ltb b 0xf0
    then some (2, 0x80, 0xbf)
    else if nat_beq b 0xf0
    then some (3, 0x90, 0xbf)
    else if ltb b 0xf4
    then some (3, 0x80, 0xbf)
    else if nat_beq b 0xf4
    then some (3, 0x80, 0x8f)
    else none

-- `due` continuation bytes are still to come, the first of them from `low` to `high`.
unfoldable pub scan : ℕ → ℕ → ℕ → Bytes → Bool
unfolding leading
scan zero low high [] = true
scan (suc due) low high [] = false
scan zero low high (b ∷ rest) = elim (leading b) [
  | none ↦ false
  | some (due, low', high') ↦ scan due low' high' rest
]
scan (suc due) low high (b ∷ rest) = leb low b && leb b high && scan due 0x80 0xbf rest

unfoldable pub is_utf8 : Bytes → Bool
unfolding scan
is_utf8 bytes = scan 0 0x80 0xbf bytes
