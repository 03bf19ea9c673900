-- ===== src/Internal/Lossy.antt =====
-- The standard library's `String::from_utf8_lossy`: each part that is no UTF-8 becomes U+FFFD.
use shardscape.Base.{
  ℕ, zero, suc, ◌≡◌, sym, ap, ◌∙◌, inl, inr, true, false, ◌&&◌, [], ◌∷◌, ◌++◌, Bytes, none, some,
  Option-cases, Bool-cases, leb, append_assoc, append-nil,
}
use shardscape.Hashing.Utf8.{leading, scan, is_utf8}

abbrev pub replacement : Bytes
replacement = 0xef ∷ 0xbf ∷ 0xbd ∷ []

-- `held` is the character so far, of which `due` more bytes are to come.
unfoldable pub lossy : Bytes → ℕ → ℕ → ℕ → Bytes → Bytes
unfolding leading
lossy held zero low high [] = held
lossy held (suc due) low high [] = replacement
lossy held zero low high (b ∷ rest) = held ++ elim (leading b) [
  | none ↦ replacement ++ lossy [] 0 0x80 0xbf rest
  | some (due, low', high') ↦ lossy (b ∷ []) due low' high' rest
]
lossy held (suc due) low high (b ∷ rest) = elim (leb low b && leb b high) [
  | true ↦ lossy (held ++ (b ∷ [])) due 0x80 0xbf rest
  | false ↦ replacement ++ elim (leading b) [
    | none ↦ replacement ++ lossy [] 0 0x80 0xbf rest
    | some (due', low', high') ↦ lossy (b ∷ []) due' low' high' rest
  ]
]

unfoldable pub from_utf8_lossy : Bytes → Bytes
unfolding lossy
from_utf8_lossy bytes = lossy [] 0 0x80 0xbf bytes

lossy_id :
    (held : Bytes) (due low high : ℕ) (s : Bytes)
    → scan due low high s ≡ true
    → lossy held due low high s ≡ held ++ s
unfolding lossy scan
lossy_id held zero low high [] h = sym (append-nil held)
lossy_id held (suc due) low high [] h = absurd (cc (h))
lossy_id held zero low high (b ∷ rest) h = elim (Option-cases (leading b)) [
  | inl e ↦ absurd (let q : false ≡ true = rw (e, scan) at h in cc (q))
  | inr ((due, low', high'), e) ↦
      rw (e, lossy) (ap (◌++◌ held) (lossy_id (b ∷ []) due low' high' rest (rw (e, scan) at h)))
]
lossy_id held (suc due) low high (b ∷ rest) h = elim (Bool-cases (leb low b && leb b high)) [
  | inr e ↦ absurd (let q : false ≡ true = rw (e) at h in cc (q))
  | inl e ↦
      rw (e, lossy)
        (lossy_id (held ++ (b ∷ [])) due 0x80 0xbf rest (rw (e) at h)
          ∙ append_assoc held (b ∷ []) rest)
]

-- A text in UTF-8 is left as it is.
pub from_utf8_lossy-is_utf8 : (s : Bytes) → is_utf8 s ≡ true → from_utf8_lossy s ≡ s
unfolding from_utf8_lossy is_utf8
from_utf8_lossy-is_utf8 s h = lossy_id [] 0 0x80 0xbf s h
