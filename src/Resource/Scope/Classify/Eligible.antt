-- ===== src/Resource/Scope/Classify/Eligible.antt =====
-- What a control unit has that the classification selects.
use mathlib.Core.List.{cons-ne-nil}
use vpp_backend.Prelude.{
  ◌≡◌, refl, true, none, some, Option-cases, Bool-cases, some_ne_none, inl, inr, List, [], ◌∷◌,
  ◌++◌, All, is_empty, ok, Result-cases,
}
use vpp_backend.Prelude.Bytes.{Bytes}
use vpp_backend.Gateway.Floats.{Floats}
use vpp_backend.Contracts.Capability.{SpecHost, validate_capability_spec}
use vpp_backend.Resource.Scope.{
  ScopeCu, ScopeCapability, ScopeBinding, MetricRequirement, ScopePrecheckFailure, is_active,
}
use vpp_backend.Resource.Scope.Classify.{
  by_capability, by_metric, binding_allows, missing_capabilities, disabled_capabilities,
  metric_failure, metric_failures, spec_failures, Classified, sort_member, verdict,
  classify_scope_cu,
}

append-nil-left {ℓ} : {A : Type ℓ} (xs ys : List A) → xs ++ ys ≡ [] → (xs ≡ []) × (ys ≡ [])
append-nil-left [] ys e = (refl, e)
append-nil-left (x ∷ xs) ys e = cc

pub is_empty-nil {ℓ} : {A : Type ℓ} (xs : List A) → is_empty xs ≡ true → xs ≡ []
is_empty-nil [] e = refl
is_empty-nil (x ∷ xs) e = cc

-- The required metric has an enabled binding that allows the access.
abbrev HasBinding : ScopeCu → MetricRequirement → Type 0
HasBinding u q =
    (b : ScopeBinding) × (by_metric q.metric_id u.bindings ≡ some b)
    × (b.enabled ≡ true)
    × (binding_allows b.access_mode q.access ≡ true)

metric_failure-none :
    (u : ScopeCu) (q : MetricRequirement) → metric_failure u q ≡ none → HasBinding u q
unfolding metric_failure
metric_failure-none u q h = elim (Option-cases (by_metric q.metric_id u.bindings)) [
  | inl e ↦ absurd (some_ne_none (rw (e, metric_failure) at h))
  | inr (b, e) ↦ elim (Bool-cases b.enabled) [
    | inr off ↦ absurd (some_ne_none (rw (e, off, metric_failure) at h))
    | inl enabled ↦ elim (Bool-cases (binding_allows b.access_mode q.access)) [
      | inl allowed ↦ (b, e, enabled, allowed)
      | inr denied ↦ absurd (some_ne_none (rw (e, enabled, denied, metric_failure) at h))
    ]
  ]
]

metric_failures-none :
    (u : ScopeCu) (qs : List MetricRequirement) → metric_failures u qs ≡ [] → All (HasBinding u) qs
unfolding metric_failures
metric_failures-none u [] h = tt
metric_failures-none u (q ∷ qs) h = elim (Option-cases (metric_failure u q)) [
  | inl e ↦ (metric_failure-none u q e, metric_failures-none u qs (rw (e, metric_failures) at h))
  | inr (x, e) ↦ absurd (cons-ne-nil _ _ (rw (e, metric_failures) at h))
]

module _ {F : Type 0} (f : Floats F) (host : SpecHost F) where
  -- The required capability is present, enabled, and has a valid spec.
  abbrev HasCapability : ScopeCu → Bytes → Type 0
  HasCapability u id =
      (c : ScopeCapability) × (by_capability id u.capabilities ≡ some c)
      × (c.enabled ≡ true)
      × (validate_capability_spec f host id c.schema_version c.spec ≡ ok tt)

  capabilities-present :
      (u : ScopeCu) (ids : List Bytes)
      → missing_capabilities u ids ≡ []
      → disabled_capabilities u ids ≡ []
      → spec_failures f host u ids ≡ []
      → All (HasCapability u) ids
  unfolding missing_capabilities disabled_capabilities spec_failures
  capabilities-present u [] m d s = tt
  capabilities-present u (id ∷ ids) m d s = elim (Option-cases (by_capability id u.capabilities)) [
    | inl e ↦ absurd (cons-ne-nil _ _ (rw (e, missing_capabilities) at m))
    | inr (c, e) ↦ elim (Bool-cases c.enabled) [
      | inr off ↦ absurd (cons-ne-nil _ _ (rw (e, off, disabled_capabilities) at d))
      | inl enabled ↦
          elim (Result-cases (validate_capability_spec f host id c.schema_version c.spec)) [
            | inr (x, bad) ↦ absurd (cons-ne-nil _ _ (rw (e, bad, spec_failures) at s))
            | inl (t, valid) ↦ (
              (c, e, enabled, valid),
              capabilities-present u ids (rw (e, missing_capabilities) at m)
                  (rw (e, enabled, disabled_capabilities) at d) (rw (e, valid, spec_failures) at s),
            )
          ]
    ]
  ]

  -- Active, with every required capability and every required binding.
  abbrev pub Eligible : List Bytes → List MetricRequirement → ScopeCu → Type 0
  Eligible ids qs u =
      (is_active u.lifecycle ≡ true) × All (HasCapability u) ids × All (HasBinding u) qs

  verdict-member :
      (u : ScopeCu) (es : List ScopePrecheckFailure) {m : ScopeCu}
      → verdict u es ≡ Classified.member m
      → (es ≡ []) × (m ≡ sort_member u)
  verdict-member u [] e = (refl, cc)
  verdict-member u (x ∷ es) e = cc

  pub classify_scope_cu-member :
      (u : ScopeCu) (ids : List Bytes) (qs : List MetricRequirement) {m : ScopeCu}
      → classify_scope_cu f host u ids qs ≡ Classified.member m
      → Eligible ids qs u × (m ≡ sort_member u)
  unfolding classify_scope_cu
  classify_scope_cu-member u ids qs h = elim (Bool-cases (is_active u.lifecycle)) [
    | inr off ↦ cc
    | inl active ↦ elim (Bool-cases (is_empty (missing_capabilities u ids))) [
      | inr e ↦ cc
      | inl none_missing ↦ elim (Bool-cases (is_empty (disabled_capabilities u ids))) [
        | inr e ↦ cc
        | inl none_disabled ↦
            let (clean, same) =
              verdict-member u _
                (rw (active, none_missing, none_disabled, classify_scope_cu) at h) in
            let (specs, metrics) = append-nil-left (spec_failures f host u ids) _ clean in
            (
              (
                active,
                capabilities-present u ids (is_empty-nil _ none_missing)
                    (is_empty-nil _ none_disabled) specs,
                metric_failures-none u qs metrics,
              ),
              same,
            )
      ]
    ]
  ]
