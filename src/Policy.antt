-- ===== src/Policy.antt =====
-- The policy engine of src/db.rs. Texts are byte strings.
pub mod Allowed
pub mod Presets
mod Examples
use shardscape.Base.{
  ℕ, Bytes, text, Bool, true, false, ◌&&◌, Option, none, some, List, [], ◌∷◌, any, nat_beq,
  starts_with, ◌==◌, nat_eq, list_eq, if◌then◌else◌,
}
use mathlib.Core.Option

pub record PolicyStatement : Type 0 where
  pub effect : Bytes
  pub actions : List Bytes
  pub resources : List Bytes

pub record Policy : Type 0 where
  pub statements : List PolicyStatement

-- `str::strip_suffix` by one ASCII character.
unfoldable pub strip_suffix : ℕ → Bytes → Option Bytes
strip_suffix c [] = none
strip_suffix c (x ∷ []) = if nat_beq x c then some [] else none
strip_suffix c (x ∷ y ∷ s) = elim (strip_suffix c (y ∷ s)) [ none ↦ none | some r ↦ some (x ∷ r) ]

unfoldable pub wildcard_match : Bytes → Bytes → Bool
unfolding strip_suffix
wildcard_match pattern value =
    if pattern == text "*" then true else elim (strip_suffix b'*' pattern) [
      | some prefix ↦ starts_with prefix value
      | none ↦ pattern == value
    ]

unfoldable pub matches : PolicyStatement → Bytes → Bytes → Bool
matches stmt action resource =
    any (λ a. wildcard_match a action) stmt.actions
    && any (λ r. wildcard_match r resource) stmt.resources

-- The loop of `is_allowed`, with its variable `allowed`. A "Deny" that matches returns at once.
unfoldable pub allowed_by : Bool → List PolicyStatement → Bytes → Bytes → Bool
allowed_by allowed [] action resource = allowed
allowed_by allowed (stmt ∷ statements) action resource =
    let hit = matches stmt action resource in
    let rest =
      allowed_by (if hit && stmt.effect == text "Allow" then true else allowed) statements action
        resource in
    if hit && stmt.effect == text "Deny" then false else rest

unfoldable pub is_allowed : Policy → Bytes → Bytes → Bool
unfolding allowed_by
is_allowed policy action resource = allowed_by false policy.statements action resource
