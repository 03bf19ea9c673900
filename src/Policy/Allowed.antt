-- ===== src/Policy/Allowed.antt =====
-- What a pattern matches, and what a policy allows.
use shardscape.Base.{
  ℕ, ◌≡◌, refl, ap, ◌∙◌, ◌↔◌, ◌⊎◌, inl, inr, Bytes, text, Bool, true, false, ◌&&◌, some, List, [],
  ◌∷◌, ◌++◌, In, any_iff, arith, ◌==◌, list_beq_iff, nat_eq, list_eq, if◌then◌else◌, Bool-cases,
  Option-cases, starts_with, strip_prefix, strip_prefix-append, append-strip_prefix, any,
}
use shardscape.Policy.{
  Policy, PolicyStatement, strip_suffix, wildcard_match, matches, allowed_by, is_allowed,
}

-- A pattern stands for itself, and one that ends in `*` for whatever begins with the rest of it.
pub data Matches (pattern value : Bytes) : Type 0 where
  exact : pattern ≡ value → Matches pattern value
  wild :
      (prefix more : Bytes)
      → pattern ≡ prefix ++ b'*' ∷ []
      → value ≡ prefix ++ more
      → Matches pattern value

pub strip_suffix-append : (c : ℕ) (p : Bytes) → strip_suffix c (p ++ c ∷ []) ≡ some p
unfolding strip_suffix
strip_suffix-append c [] = ground arith
strip_suffix-append c (x ∷ []) = ground arith
strip_suffix-append c (x ∷ y ∷ p) = rw (strip_suffix-append c (y ∷ p))

append-strip_suffix : (c : ℕ) (s p : Bytes) → strip_suffix c s ≡ some p → s ≡ p ++ c ∷ []
unfolding strip_suffix
append-strip_suffix c [] p h = cc
append-strip_suffix c (x ∷ []) p h = ground arith
append-strip_suffix c (x ∷ y ∷ s) p h = elim (Option-cases (strip_suffix c (y ∷ s))) [
  | inl e ↦ ground arith
  | inr (r, e) ↦ ground (arith, append-strip_suffix c (y ∷ s) r e)
]

starts_with-append : (p s : Bytes) → starts_with p (p ++ s) ≡ true
starts_with-append p s = rw (strip_prefix-append p s, starts_with)

starts_with-split : (p s : Bytes) → starts_with p s ≡ true → (r : Bytes) × (s ≡ p ++ r)
starts_with-split p s h = elim (Option-cases (strip_prefix p s)) [
  | inl e ↦ absurd (cc (h, e))
  | inr (r, e) ↦ (r, append-strip_prefix p s r e)
]

star_prefix : (p : Bytes) → text "*" ≡ p ++ b'*' ∷ [] → p ≡ []
star_prefix [] h = refl
star_prefix (x ∷ []) h = cc
star_prefix (x ∷ y ∷ p) h = cc

wildcard_match_sound :
    (pattern value : Bytes) → wildcard_match pattern value ≡ true → Matches pattern value
unfolding wildcard_match
wildcard_match_sound pattern value h = elim (Bool-cases (pattern == text "*")) [
  | inl star ↦ wild [] value ((list_beq_iff pattern (text "*")).0 star) refl
  | inr other ↦ elim (Option-cases (strip_suffix b'*' pattern)) [
    | inl e ↦ exact ((list_beq_iff pattern value).0 (ground arith))
    | inr (p, e) ↦
        let (r, f) = starts_with-split p value (ground arith) in
        wild p r (append-strip_suffix b'*' pattern p e) f
  ]
]

wildcard_match_complete :
    (pattern value : Bytes) → Matches pattern value → wildcard_match pattern value ≡ true
unfolding wildcard_match
wildcard_match_complete pattern value (exact e) = elim (Bool-cases (pattern == text "*")) [
  | inl star ↦ rw star
  | inr other ↦ rw other (elim (Option-cases (strip_suffix b'*' pattern)) [
    | inl f ↦ rw (f, wildcard_match) (rw e ((list_beq_iff value value).1 refl))
    | inr (p, f) ↦
        rw (f, wildcard_match)
          (rw (← e, append-strip_suffix b'*' pattern p f) (starts_with-append p (b'*' ∷ [])))
  ])
]
wildcard_match_complete pattern value (wild p r e f) = elim (Bool-cases (pattern == text "*")) [
  | inl star ↦ rw star
  | inr other ↦ rw other (
      rw (ap (strip_suffix b'*') e ∙ strip_suffix-append b'*' p, wildcard_match)
        (rw f (starts_with-append p r)))
]

-- A pattern of a policy matches a value exactly when it is that value, or ends in `*` and the value
-- begins with what stands before the `*`.
pub wildcard_match_iff :
    (pattern value : Bytes) → (wildcard_match pattern value ≡ true) ↔ Matches pattern value
wildcard_match_iff pattern value =
    (wildcard_match_sound pattern value, wildcard_match_complete pattern value)

-- Some action and some resource of the statement match.
pub record Applies (s : PolicyStatement) (action resource : Bytes) : Type 0 where
  pub on_action : (p : Bytes) × In p s.actions × Matches p action
  pub on_resource : (p : Bytes) × In p s.resources × Matches p resource

any-wildcard :
    (patterns : List Bytes) (value : Bytes)
    → (any (λ p. wildcard_match p value) patterns ≡ true)
      ↔ ((p : Bytes) × In p patterns × Matches p value)
any-wildcard patterns value = (
  λ h.
      let (p, m, e) = (any_iff (λ p. wildcard_match p value) patterns).0 h in
      (p, m, wildcard_match_sound p value e),
  λ h.
      (any_iff (λ p. wildcard_match p value) patterns).1
        (h.0, h.1, wildcard_match_complete h.0 value h.2),
)

both : (a b : Bool) → (a && b) ≡ true → (a ≡ true) × (b ≡ true)
both a b h = ground arith

matches_iff :
    (s : PolicyStatement) (action resource : Bytes)
    → (matches s action resource ≡ true) ↔ Applies s action resource
unfolding matches
matches_iff s action resource = (
  λ h.
      let (a, r) =
        both (any (λ a. wildcard_match a action) s.actions)
          (any (λ r. wildcard_match r resource) s.resources) h in
      record {
        on_action = (any-wildcard s.actions action).0 a;
        on_resource = (any-wildcard s.resources resource).0 r;
      },
  λ h. rw (
    (any-wildcard s.actions action).1 h.on_action,
    (any-wildcard s.resources resource).1 h.on_resource,
  ),
)

-- A statement of that effect applies.
abbrev pub Some : Bytes → List PolicyStatement → Bytes → Bytes → Type 0
Some effect statements action resource =
    (s : PolicyStatement) × In s statements × (s.effect ≡ effect) × Applies s action resource

module _ (action resource : Bytes) where
  abbrev hits : Bytes → PolicyStatement → Bool
  hits effect s = matches s action resource && s.effect == effect

  hits-Applies :
      (effect : Bytes) (s : PolicyStatement)
      → hits effect s ≡ true
      → (s.effect ≡ effect) × Applies s action resource
  hits-Applies effect s h =
      let (m, e) = both (matches s action resource) (s.effect == effect) h in
      ((list_beq_iff s.effect effect).0 e, (matches_iff s action resource).0 m)

  Applies-hits :
      (effect : Bytes) (s : PolicyStatement)
      → (s.effect ≡ effect)
      → Applies s action resource
      → hits effect s ≡ true
  Applies-hits effect s e a =
      rw ((matches_iff s action resource).1 a, (list_beq_iff s.effect effect).1 e)

  allowed_by_iff :
      (allowed : Bool) (ss : List PolicyStatement)
      → (allowed_by allowed ss action resource ≡ true) ↔ (
          ((allowed ≡ true) ⊎ (any (hits (text "Allow")) ss ≡ true))
          × (any (hits (text "Deny")) ss ≡ false))
  unfolding allowed_by
  allowed_by_iff allowed [] = ground arith
  allowed_by_iff allowed (s ∷ ss) = ground (
    arith,
    allowed_by_iff (if matches s action resource && s.effect == text "Allow" then true else allowed)
        ss,
  )

  Some-iff :
      (effect : Bytes) (ss : List PolicyStatement)
      → (any (hits effect) ss ≡ true) ↔ Some effect ss action resource
  Some-iff effect ss = (
    λ h.
        let (s, m, e) = (any_iff (hits effect) ss).0 h in
        let (f, a) = hits-Applies effect s e in (s, m, f, a),
    λ h. (any_iff (hits effect) ss).1 (h.0, h.1, Applies-hits effect h.0 h.2 h.3),
  )

  -- A policy allows an action on a resource exactly when a statement with effect "Allow" applies and
  -- none with effect "Deny" does, wherever in the policy they stand.
  pub is_allowed_iff :
      (policy : Policy)
      → (is_allowed policy action resource ≡ true) ↔ (
          Some (text "Allow") policy.statements action resource
          × (¬ Some (text "Deny") policy.statements action resource))
  unfolding is_allowed
  is_allowed_iff policy =
      let ss = policy.statements in
      (
        λ h.
            let (a, d) = (allowed_by_iff false ss).0 h in
            (
              elim a [ inl e ↦ absurd (cc e) | inr e ↦ (Some-iff (text "Allow") ss).0 e ],
              λ some_deny. cc (d, (Some-iff (text "Deny") ss).1 some_deny),
            ),
        λ h. (allowed_by_iff false ss).1 (
          inr ((Some-iff (text "Allow") ss).1 h.0),
          elim (Bool-cases (any (hits (text "Deny")) ss)) [
            | inl e ↦ absurd (h.1 ((Some-iff (text "Deny") ss).0 e))
            | inr e ↦ e
          ],
        ),
      )
