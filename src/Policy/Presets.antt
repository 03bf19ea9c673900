-- ===== src/Policy/Presets.antt =====
-- The policies of src/main.rs: what `init` and `create-user` give an access key.
use shardscape.Base.{
  subst, get_or, ◌≡◌, refl, inl, inr, Bytes, text, true, Option, none, some, List, [], ◌∷◌, ◌++◌,
  In, append_assoc, All, arith, ◌↔◌, sym, ap, ◌∙◌,
}
use shardscape.Policy.{Policy, PolicyStatement, strip_suffix, is_allowed}
use shardscape.Policy.Allowed.{
  Matches, exact, wild, Applies, Some, is_allowed_iff, strip_suffix-append,
}

abbrev statement : List Bytes → Bytes → Policy
statement actions resource = record {
  statements = record { effect = text "Allow"; actions = actions; resources = resource ∷ [] } ∷ [];
}

unfoldable pub admin_policy : Policy
admin_policy = statement (text "*" ∷ []) (text "*")

-- The `match bucket` of both presets.
unfoldable pub scope : Option Bytes → Bytes
scope (some b) = text "arn:ss:bucket:::" ++ (b ++ text "*")
scope none = text "*"

abbrev pub readonly_actions : List Bytes
readonly_actions =
    text "s3:GetObject"
    ∷ text "s3:HeadObject"
    ∷ text "s3:ListBucket"
    ∷ text "s3:ListAllMyBuckets"
    ∷ text "s3:ListMultipartUploadParts"
    ∷ text "s3:ListBucketMultipartUploads"
    ∷ []

abbrev pub readwrite_actions : List Bytes
readwrite_actions =
    text "s3:GetObject"
    ∷ text "s3:HeadObject"
    ∷ text "s3:PutObject"
    ∷ text "s3:DeleteObject"
    ∷ text "s3:ListBucket"
    ∷ text "s3:ListAllMyBuckets"
    ∷ text "s3:CreateBucket"
    ∷ text "s3:DeleteBucket"
    ∷ text "s3:AbortMultipartUpload"
    ∷ text "s3:ListMultipartUploadParts"
    ∷ text "s3:ListBucketMultipartUploads"
    ∷ []

unfoldable pub readonly_policy : Option Bytes → Policy
unfolding scope
readonly_policy bucket = statement readonly_actions (scope bucket)

unfoldable pub readwrite_policy : Option Bytes → Policy
unfolding scope
readwrite_policy bucket = statement readwrite_actions (scope bucket)

some_inj : {a b : Bytes} → some a ≡ some b → a ≡ b
some_inj h = cc

plain-Matches : (p v : Bytes) → strip_suffix b'*' p ≡ none → Matches p v → p ≡ v
plain-Matches p v h (exact e) = e
plain-Matches p v h (wild q r e f) =
    absurd (cc (h, ap (strip_suffix b'*') e, strip_suffix-append b'*' q))

-- Patterns without a wildcard match their own list only.
plain-In :
    (patterns : List Bytes) (v : Bytes)
    → All (λ p. strip_suffix b'*' p ≡ none) patterns
    → ((p : Bytes) × In p patterns × Matches p v) ↔ In v patterns
plain-In patterns v plain = (λ h. go patterns plain h.0 h.1 h.2, λ m. (v, m, exact refl))
  where
    go :
        (ps : List Bytes)
        → All (λ p. strip_suffix b'*' p ≡ none) ps
        → (p : Bytes) → In p ps
        → Matches p v
        → In v ps
    go [] c p m k = m
    go (q ∷ ps) c p (inl e) k = inl (sym (plain-Matches p v (ap (strip_suffix b'*') e ∙ c.0) k) ∙ e)
    go (q ∷ ps) c p (inr m) k = inr (go ps c.1 p m k)

-- The resource is the bucket's name with something behind it.
abbrev pub Under : Bytes → Bytes → Type 0
Under bucket resource = (rest : Bytes) × (resource ≡ text "arn:ss:bucket:::" ++ (bucket ++ rest))

scope-Matches : (b resource : Bytes) → Matches (scope (some b)) resource ↔ Under b resource
unfolding scope
scope-Matches b resource = (
  forth,
  λ h.
      wild (text "arn:ss:bucket:::" ++ b) h.0 split
        (h.1 ∙ sym (append_assoc (text "arn:ss:bucket:::") b h.0)),
)
  where
    split : text "arn:ss:bucket:::" ++ (b ++ text "*") ≡ (text "arn:ss:bucket:::" ++ b) ++ b'*' ∷ []
    split = sym (append_assoc (text "arn:ss:bucket:::") b (text "*"))

    forth : Matches (text "arn:ss:bucket:::" ++ (b ++ text "*")) resource → Under b resource
    forth (exact e) = (text "*", sym e)
    forth (wild p r e f) =
        let same : p ≡ text "arn:ss:bucket:::" ++ b = some_inj (
          sym (strip_suffix-append b'*' p)
          ∙ ap (strip_suffix b'*') (sym e ∙ split)
          ∙ strip_suffix-append b'*' (text "arn:ss:bucket:::" ++ b)) in
        (r, f ∙ ap (λ (x : Bytes). x ++ r) same ∙ append_assoc (text "arn:ss:bucket:::") b r)

allow_ne_deny : ¬ (text "Allow" ≡ text "Deny")
allow_ne_deny h = ground (arith, ap (λ (x : Bytes). get_or x 0 0) h)

module _ (actions : List Bytes) (plain : All (λ p. strip_suffix b'*' p ≡ none) actions)
    (b action resource : Bytes) where
  scoped_iff :
      (is_allowed (statement actions (scope (some b))) action resource ≡ true)
      ↔ (In action actions × Under b resource)
  scoped_iff = (forth, back)
    where
      applied :
          (s : PolicyStatement)
          → s
            ≡ (record { effect = text "Allow"; actions = actions; resources = scope (some b) ∷ [] })
          → Applies s action resource
          → In action actions × Under b resource
      applied s e a =
          let c = subst (λ s. Applies s action resource) e a in
          (
            (plain-In actions action plain).0 c.on_action,
            elim c.on_resource.1 [
              | inl f ↦
                  (scope-Matches b resource).0 (subst (λ p. Matches p resource) f c.on_resource.2)
              | inr n ↦ absurd n
            ],
          )

      no_deny : ¬ Some (text "Deny") (statement actions (scope (some b))).statements action resource
      no_deny d = elim d.1 [
        | inl e ↦ allow_ne_deny (ap (λ (s : PolicyStatement). s.effect) (sym e) ∙ d.2)
        | inr n ↦ n
      ]

      forth :
          is_allowed (statement actions (scope (some b))) action resource ≡ true
          → In action actions × Under b resource
      forth h =
          elim ((is_allowed_iff action resource (statement actions (scope (some b)))).0 h).0.1 [
            | inl e ↦
                applied
                  ((is_allowed_iff action resource (statement actions (scope (some b)))).0 h).0.0 e
                  ((is_allowed_iff action resource (statement actions (scope (some b)))).0 h).0.3
            | inr n ↦ absurd n
          ]

      back :
          In action actions × Under b resource
          → is_allowed (statement actions (scope (some b))) action resource ≡ true
      back h = (is_allowed_iff action resource (statement actions (scope (some b)))).1 (
        (
          _,
          inl refl,
          refl,
          record {
            on_action = (plain-In actions action plain).1 h.0;
            on_resource = (scope (some b), inl refl, (scope-Matches b resource).1 h.1);
          },
        ),
        no_deny,
      )

readonly_plain : All (λ p. strip_suffix b'*' p ≡ none) readonly_actions
unfolding strip_suffix
readonly_plain = (refl, (refl, (refl, (refl, (refl, (refl, tt))))))

readwrite_plain : All (λ p. strip_suffix b'*' p ≡ none) readwrite_actions
unfolding strip_suffix
readwrite_plain =
    (refl, (refl, (refl, (refl, (refl, (refl, (refl, (refl, (refl, (refl, (refl, tt)))))))))))

-- A key of `create-user --preset readonly --bucket b` may do exactly the listed actions, on exactly
-- the resources whose name begins with that of the bucket.
pub readonly_policy_iff :
    (b action resource : Bytes)
    → (is_allowed (readonly_policy (some b)) action resource ≡ true)
      ↔ (In action readonly_actions × Under b resource)
unfolding readonly_policy
readonly_policy_iff b action resource = scoped_iff readonly_actions readonly_plain b action resource

-- The scope of `create-user --preset readwrite --bucket b` is no single bucket: the key may write
-- into every bucket whose name begins with `b`.
pub readwrite_policy_leaks :
    (b suffix key : Bytes)
    → is_allowed
        (readwrite_policy (some b))
        (text "s3:PutObject")
        (text "arn:ss:bucket:::" ++ ((b ++ suffix) ++ (text "/" ++ key)))
      ≡ true
unfolding readwrite_policy
readwrite_policy_leaks b suffix key =
    (scoped_iff readwrite_actions readwrite_plain b (text "s3:PutObject") _).1 (
      inr (inr (inl refl)),
      (
        suffix ++ (text "/" ++ key),
        ap (◌++◌ (text "arn:ss:bucket:::")) (append_assoc b suffix (text "/" ++ key)),
      ),
    )
