-- ===== src/Base/Results.antt =====
-- Results of fallible code. A panic is a value, and so is a loop that does not end: the loops of the
-- program that are not over a collection take fuel.
use mathlib.Core.Path.{◌≡◌, refl}
use mathlib.Core.Option.{Option, none, some}

pub data Error : Type 0 where
  panic diverges bad_hex bad_json : Error

pub data Result {ℓ} (A : Type ℓ) : Type ℓ where
  ok : A → Result A
  err : Error → Result A

infixl 5 ◌>>=◌
abbrev pub ◌>>=◌ {ℓ κ} : {A : Type ℓ} {B : Type κ} → Result A → (A → Result B) → Result B
ok a >>= f = f a
err e >>= f = err e

abbrev pub or_err {ℓ} : {A : Type ℓ} → Option A → Error → Result A
or_err none e = err e
or_err (some a) e = ok a

-- A bind that gives a value ran both of its halves to the end.
pub bind_inverts :
    {A B : Type 0} {b : B} (first : Result A) (next : A → Result B)
    → first >>= next ≡ ok b
    → (a : A) × (next a ≡ ok b) × (first ≡ ok a)
bind_inverts (err e) next h = cc
bind_inverts (ok a) next h = (a, h, refl)
