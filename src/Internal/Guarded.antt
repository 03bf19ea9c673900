-- ===== src/Internal/Guarded.antt =====
-- Which requests of other sites are answered, and which of them change anything.
use shardscape.Base.{
  ℕ, ◌≡◌, sym, ap, ◌∙◌, ◌⊎◌, inl, inr, ◌++◌, Bytes, text, Option, some, Option-cases, Bool-cases,
  Result, ok, err, ◌==◌, eq_iff, list_eq, nat_eq, strip_prefix, append-strip_prefix,
}
use shardscape.Distributed.{BlobStore, Site}
use shardscape.Distributed.Cycle.{SweepTimes}
use shardscape.Internal.{Request, Settings, Response, says, route, handle_internal_request}
use shardscape.Store.{Crates}

-- The paths that change something: a join, a forced sweep, and a block, which may be fetched from another site.
abbrev pub Changing : Bytes → Type 0
Changing path =
    (path ≡ text "/internal/join")
    ⊎ (path ≡ text "/internal/gc/force")
    ⊎ ((rest : Bytes) × (path ≡ text "/internal/blocks/" ++ rest))

abbrev or_else : {A : Type 0} → A → Result A → A
or_else x (ok a) = a
or_else x (err e) = x

ok_inj : {A : Type 0} (x y : A) → ok x ≡ ok y → x ≡ y
ok_inj x y h = ap (or_else x) h

after_same : {V J D : Type 0} (x y : Response V × Site J D) → ok x ≡ ok y → y.1 ≡ x.1
after_same x y h = sym (ap (λ r. r.1) (ok_inj x y h))

module _ {V J D : Type 0} (crates : Crates V J) (blob : BlobStore D) where
  route-Changing :
      (fetch : Bytes → Bytes → Option Bytes) (system : ℕ) (times : SweepTimes) (settings : Settings)
      (path : Bytes) (query : Option Bytes) (site after : Site J D) (response : Response V)
      → route crates blob fetch system times settings path query site ≡ ok (response, after)
      → (after ≡ site) ⊎ Changing path
  unfolding route
  route-Changing fetch system times settings path query site after response h =
      elim (Bool-cases (path == text "/internal/cluster/config")) [
        | inl a ↦ inl (after_same _ (response, after) (rw a at h))
        | inr a ↦ elim (Bool-cases (path == text "/internal/nodes")) [
          | inl b ↦ inl (after_same _ (response, after) (rw b at (rw a at h)))
          | inr b ↦ elim (Bool-cases (path == text "/internal/join")) [
            | inl c ↦ inr (inl ((eq_iff path (text "/internal/join")).0 c))
            | inr c ↦ elim (Option-cases (strip_prefix (text "/internal/facts/") path)) [
              | inr (rest, d) ↦
                  inl (after_same _ (response, after) (rw d at (rw c at (rw b at (rw a at h)))))
              | inl d ↦ elim (Bool-cases (path == text "/internal/gc/force")) [
                | inl e ↦ inr (inr (inl ((eq_iff path (text "/internal/gc/force")).0 e)))
                | inr e ↦ elim (Option-cases (strip_prefix (text "/internal/blocks/") path)) [
                  | inr (rest, f) ↦
                      inr (
                        inr
                          (inr (rest, append-strip_prefix (text "/internal/blocks/") path rest f)))
                  | inl f ↦ inl (
                      after_same _ (response, after)
                        (rw f at (rw e at (rw d at (rw c at (rw b at (rw a at h)))))))
                ]
              ]
            ]
          ]
        ]
      ]

  -- A request without the secret of the cluster is answered with 401 and changes nothing; one with the secret changes something only if it is a join, a forced sweep or asks for a block.
  pub handle_internal_request-guarded :
      (fetch : Bytes → Bytes → Option Bytes) (system : ℕ) (times : SweepTimes) (settings : Settings)
      (request : Request) (site after : Site J D) (response : Response V)
      → handle_internal_request crates blob fetch system times settings request site
        ≡ ok (response, after)
      → ((response ≡ says 401 (text "Unauthorized")) × (after ≡ site))
        ⊎ ((request.secret ≡ some settings.cluster_secret)
            × ((after ≡ site) ⊎ Changing request.path))
  unfolding handle_internal_request
  handle_internal_request-guarded fetch system times settings request site after response h =
      elim (Option-cases request.secret) [
        | inl a ↦ inl (refused (rw (a, handle_internal_request) at h))
        | inr (secret, a) ↦ elim (Bool-cases (secret == settings.cluster_secret)) [
          | inr b ↦ inl (refused (rw b at (rw (a, handle_internal_request) at h)))
          | inl b ↦ inr (
            a ∙ ap some ((eq_iff secret settings.cluster_secret).0 b),
            route-Changing fetch system times settings request.path request.query site after
                response (rw b at (rw (a, handle_internal_request) at h)),
          )
        ]
      ]
    where
      refused :
          ◌≡◌ {A = Result (Response V × Site J D)}
            (ok (says 401 (text "Unauthorized"), site))
            (ok (response, after))
          → (response ≡ says 401 (text "Unauthorized")) × (after ≡ site)
      refused q =
          (sym (ap (λ r. r.0) (ok_inj _ (response, after) q)), after_same _ (response, after) q)
