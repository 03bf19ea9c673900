-- ===== src/Policy/Examples.antt =====
-- Runs of the policy engine, and its theorems at concrete inputs.
use shardscape.Base.{◌≡◌, refl, ◌↔◌, true, false, [], ◌∷◌, text, list_beq, strip_prefix}
use shardscape.Policy.{Policy, matches, wildcard_match, is_allowed}
use shardscape.Policy.Allowed.{Some, is_allowed_iff}

abbrev policy : Policy
policy = record {
  statements =
      record { effect = text "Allow"; actions = text "s3:*" ∷ []; resources = text "*" ∷ [] }
      ∷ record {
        effect = text "Deny";
        actions = text "s3:DeleteObject" ∷ [];
        resources = text "*" ∷ [];
      }
      ∷ [];
}

get_allowed : is_allowed policy (text "s3:GetObject") (text "arn:ss:bucket:::b/k") ≡ true
unfolding is_allowed matches wildcard_match list_beq strip_prefix
get_allowed = refl

delete_denied : is_allowed policy (text "s3:DeleteObject") (text "arn:ss:bucket:::b/k") ≡ false
unfolding is_allowed matches wildcard_match list_beq strip_prefix
delete_denied = refl

is_allowed_iff_example : (is_allowed policy (text "s3:GetObject") (text "b") ≡ true) ↔ (
    Some (text "Allow") policy.statements (text "s3:GetObject") (text "b")
    × (¬ Some (text "Deny") policy.statements (text "s3:GetObject") (text "b")))
is_allowed_iff_example = is_allowed_iff (text "s3:GetObject") (text "b") policy
