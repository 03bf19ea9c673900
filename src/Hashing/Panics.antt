-- ===== src/Hashing/Panics.antt =====
-- Where the upper bound of a prefix is no UTF-8, and `prefix_key_range` panics.
use mathlib.Core.List.{reverse, reverse-append, reverse-reverse, reverse-cons}
use shardscape.Base.{
  ℕ, zero, suc, ◌+◌, ◌≤◌, ◌≡◌, refl, ◌⊎◌, inl, inr, Bool, true, false, Option, none, some, [], ◌∷◌,
  ◌++◌, Bytes, arith, err, panic, ltb,
}
use shardscape.Hashing.{increment_last, increment_prefix, prefix_key_range, expect_utf8}
use shardscape.Hashing.Utf8.{is_utf8, scan, leading}

leading-low : (b due low high : ℕ) → leading b ≡ some (due, low, high) → 0x80 ≤ low
unfolding leading
leading-low b due low high h = ground arith

scan-del :
    (due low high : ℕ) (p : Bytes)
    → 0x80 ≤ low
    → scan due low high (p ++ 0x7f ∷ []) ≡ true
    → scan due low high (p ++ 0x80 ∷ []) ≡ false
unfolding scan
scan-del zero low high [] l h = refl
scan-del (suc due) low high [] l h = ground arith
scan-del zero low high (b ∷ p) l h =
    go (leading b) refl h (λ due low' high' l' k. scan-del due low' high' p l' k)
  where
    go :
        (o : Option (ℕ × ℕ × ℕ))
        → leading b ≡ o
        → elim o as (λ _. Bool) [
          | none ↦ false
          | some (due, low', high') ↦ scan due low' high' (p ++ 0x7f ∷ [])
        ]
          ≡ true
        → ((due low' high' : ℕ)
            → 0x80 ≤ low'
            → scan due low' high' (p ++ 0x7f ∷ []) ≡ true
            → scan due low' high' (p ++ 0x80 ∷ []) ≡ false)
        → elim o as (λ _. Bool) [
          | none ↦ false
          | some (due, low', high') ↦ scan due low' high' (p ++ 0x80 ∷ [])
        ]
          ≡ false
    go none e k ih = refl
    go (some (due, low', high')) e k ih = ih due low' high' (leading-low b due low' high' e) k
scan-del (suc due) low high (b ∷ p) l h = ground (arith, scan-del due 0x80 0xbf p)

leading-high : (b due low high : ℕ) → leading b ≡ some (due, low, high) → high ≤ 0xbf
unfolding leading
leading-high b due low high h = ground arith

-- A byte that is no UTF-8 wherever it stands.
scan-c0 : (due low high : ℕ) (p : Bytes) → high ≤ 0xbf → scan due low high (p ++ 0xc0 ∷ []) ≡ false
unfolding scan
scan-c0 zero low high [] l = refl
scan-c0 (suc due) low high [] l = ground arith
scan-c0 zero low high (b ∷ p) l =
    go (leading b) refl (λ due low' high' l'. scan-c0 due low' high' p l')
  where
    go :
        (o : Option (ℕ × ℕ × ℕ))
        → leading b ≡ o
        → ((due low' high' : ℕ) → high' ≤ 0xbf → scan due low' high' (p ++ 0xc0 ∷ []) ≡ false)
        → elim o as (λ _. Bool) [
          | none ↦ false
          | some (due, low', high') ↦ scan due low' high' (p ++ 0xc0 ∷ [])
        ]
          ≡ false
    go none e ih = refl
    go (some (due, low', high')) e ih = ih due low' high' (leading-high b due low' high' e)
scan-c0 (suc due) low high (b ∷ p) l = ground (arith, scan-c0 due 0x80 0xbf p)

not-is_utf8 :
    (p : Bytes) (b : ℕ)
    → is_utf8 (p ++ b ∷ []) ≡ true
    → (b ≡ 0x7f) ⊎ (b ≡ 0xbf)
    → is_utf8 (p ++ (b + 1) ∷ []) ≡ false
unfolding is_utf8
not-is_utf8 p b h (inl e) = rw e (scan-del 0 0x80 0xbf p (omega arith) (rw e at h))
not-is_utf8 p b h (inr e) = rw e (scan-c0 0 0x80 0xbf p (omega arith))

increment_last-snoc :
    (p : Bytes) (b : ℕ)
    → ltb b 0xff ≡ true
    → increment_last (reverse (p ++ b ∷ [])) ≡ some ((b + 1) ∷ reverse p)
unfolding increment_last
increment_last-snoc p b h = rw (reverse-append p (b ∷ [])) (rw h)

refused : (a : Bytes) → is_utf8 a ≡ false → expect_utf8 a ≡ err panic
unfolding expect_utf8
refused a h = rw h

-- A well-formed prefix that ends in DEL (0x7f), or in a character whose last byte is 0xbf such as
-- U+00BF or U+00FF, makes `prefix_key_range` panic.
pub prefix_key_range_panics :
    (p : Bytes) (b : ℕ)
    → is_utf8 (p ++ b ∷ []) ≡ true
    → (b ≡ 0x7f) ⊎ (b ≡ 0xbf)
    → prefix_key_range (p ++ b ∷ []) ≡ err panic
unfolding prefix_key_range
prefix_key_range_panics p b h c =
    let low : ltb b 0xff ≡ true = ground arith in
    let back : reverse ((b + 1) ∷ reverse p) ≡ p ++ (b + 1) ∷ [] =
      rw (reverse-cons (b + 1) (reverse p), reverse-reverse p) in
    rw (increment_last-snoc p b low, increment_prefix)
      (rw back (rw (refused _ (not-is_utf8 p b h c))))
