-- ===== src/Hashing/Range.antt =====
-- The range of a prefix holds exactly the keys with that prefix.
use mathlib.Core.List.{reverse, reverse-cons, reverse-append}
use shardscape.Base.{
  ℕ, ◌+◌, ◌≡◌, refl, sym, Bool, true, false, ◌&&◌, Option, none, some, [], ◌∷◌, ◌++◌, Bytes,
  IsBytes, starts_with, strip_prefix, lex_ltb, lex_leb, arith, if◌then◌else◌, Result, ok, err,
  panic, ltb, bind_inverts, ◌>>=◌,
}
use shardscape.Hashing.{increment_last, increment_prefix, prefix_key_range, expect_utf8}
use shardscape.Hashing.Utf8.{is_utf8}

-- The same, from the front.
successor : Bytes → Option Bytes
successor [] = none
successor (b ∷ bytes) = elim (successor bytes) [
  | some rest ↦ some (b ∷ rest)
  | none ↦ if ltb b 0xff then some ((b + 1) ∷ []) else none
]

abbrev reversed : Option Bytes → Option Bytes
reversed none = none
reversed (some bytes) = some (reverse bytes)

append_last : Option Bytes → ℕ → Option Bytes
append_last none b = if ltb b 0xff then some ((b + 1) ∷ []) else none
append_last (some bytes) b = some (bytes ++ b ∷ [])

increment_last-append :
    (xs : Bytes) (b : ℕ) → increment_last (xs ++ b ∷ []) ≡ append_last (increment_last xs) b
unfolding increment_last append_last
increment_last-append [] b = refl
increment_last-append (x ∷ xs) b = ground (arith, increment_last-append xs b)

successor-cons :
    (b : ℕ) (o : Option Bytes) (bytes : Bytes)
    → reversed o ≡ successor bytes
    → reversed (append_last o b) ≡ successor (b ∷ bytes)
unfolding successor append_last
successor-cons b none bytes h = rw (← h) (ground arith)
successor-cons b (some xs) bytes h = rw (← h) (rw (reverse-append xs (b ∷ [])))

reversed-increment_last :
    (bytes : Bytes) → reversed (increment_last (reverse bytes)) ≡ successor bytes
unfolding increment_last successor
reversed-increment_last [] = refl
reversed-increment_last (b ∷ bytes) =
    rw (reverse-cons b bytes, increment_last-append (reverse bytes) b)
      (successor-cons b (increment_last (reverse bytes)) bytes (reversed-increment_last bytes))

-- `key < upper`, where there is an upper bound.
abbrev pub below : Option Bytes → Bytes → Bool
below none key = true
below (some upper) key = lex_ltb key upper

not-lex_ltb-nil : (a : Bytes) → lex_ltb a [] ≡ false
unfolding lex_ltb
not-lex_ltb-nil [] = refl
not-lex_ltb-nil (x ∷ a) = refl

starts_with-successor :
    (prefix key : Bytes)
    → IsBytes prefix
    → IsBytes key
    → starts_with prefix key ≡ (lex_leb prefix key && below (successor prefix) key)
unfolding successor strip_prefix lex_ltb
starts_with-successor [] [] p k = refl
starts_with-successor [] (y ∷ key) p k = refl
starts_with-successor (x ∷ prefix) [] p k = refl
starts_with-successor (x ∷ prefix) (y ∷ key) p k =
    ground (arith, starts_with-successor prefix key p.1 k.1, not-lex_ltb-nil key)

accepted : (c : Bool) (a b : Bytes) → (if c then ok a else err panic) ≡ ok b → a ≡ b
accepted true a b h = cc
accepted false a b h = cc

expect_utf8-eq-ok : (a b : Bytes) → expect_utf8 a ≡ ok b → a ≡ b
unfolding expect_utf8
expect_utf8-eq-ok a b h = accepted (is_utf8 a) a b h

some_of_ok : {s : Bytes} {o : Option Bytes} → ok (some s) ≡ ok o → o ≡ some s
some_of_ok h = cc

increment_prefix-successor :
    (prefix : Bytes) (upper : Option Bytes)
    → increment_prefix prefix ≡ ok upper
    → upper ≡ successor prefix
unfolding increment_prefix
increment_prefix-successor prefix upper h =
    rw (← reversed-increment_last prefix) (go (increment_last (reverse prefix)) h)
  where
    go :
        (o : Option Bytes)
        → elim o as (λ _. Result (Option Bytes)) [
          | none ↦ ok none
          | some bytes ↦ (expect_utf8 (reverse bytes) >>= λ s. ok (some s))
        ]
          ≡ ok upper
        → upper ≡ reversed o
    go none e = ground arith
    go (some bytes) e =
        let (s, g, f) = bind_inverts (expect_utf8 (reverse bytes)) (λ s. ok (some s)) e in
        rw (expect_utf8-eq-ok (reverse bytes) s f) (some_of_ok g)

-- A key lies from the lower bound of a prefix to below its upper bound exactly when it has the
-- prefix; without an upper bound, from the lower bound on.
pub prefix_key_range_iff :
    (prefix key : Bytes) (lower : Bytes) (upper : Option Bytes)
    → IsBytes prefix
    → IsBytes key
    → prefix_key_range prefix ≡ ok (lower, upper)
    → (lex_leb lower key && below upper key) ≡ starts_with prefix key
unfolding prefix_key_range
prefix_key_range_iff prefix key lower upper p k h =
    let (u, f, e) = bind_inverts (increment_prefix prefix) (λ u. ok (prefix, u)) h in
    let same : u ≡ upper = ground (arith, f) in
    let low : prefix ≡ lower = ground (arith, f) in
    rw (← low, ← same, increment_prefix-successor prefix u e)
      (sym (starts_with-successor prefix key p k))
