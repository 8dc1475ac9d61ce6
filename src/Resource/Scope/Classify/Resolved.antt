-- ===== src/Resource/Scope/Classify/Resolved.antt =====
-- What a resolved scope says about the control units of its snapshot.
use vpp_backend.Prelude.{
  ℕ, zero, suc, ◌≡◌, refl, sym, Bool, true, false, Bool-cases, inl, inr, ◌⊎◌, List, [], ◌∷◌, ◌++◌,
  map, All, All-map, get_elem?, some, length, is_empty, ok, >>-ok, >>=-ok, ok_inj, ◌>>=◌, arith,
  subst, guard,
}
use mathlib.Core.List.Permᴰ
use mathlib.Core.List.{Permᴰ}
use vpp_backend.Prelude.Bytes.{Bytes, bytes_lt}
use vpp_backend.Prelude.Sort.{sort, sort-Permᴰ, All-Permᴰ, length-Permᴰ}
use vpp_backend.Gateway.Floats.{Floats}
use vpp_backend.Contracts.Capability.{SpecHost}
use vpp_backend.Resource.Scope.{
  ScopeCu, MetricRequirement, ScopeSnapshot, ScopeType, ScopeExclusion, ScopePrecheckFailure,
  ResolvedScope, ScopeError, is_active, scope_type_eq,
}
use vpp_backend.Resource.Scope.Classify.{
  Classified, Partition, verdict, missing_capabilities, disabled_capabilities, spec_failures,
  metric_failures, add_classified, sort_member, classify_scope_cu, partition, resolved_scope,
  resolve_snapshot, scope_revision, failure_less,
}
use vpp_backend.Resource.Scope.Classify.Eligible.{Eligible, is_empty-nil, classify_scope_cu-member}

-- The ids that a control unit and an exclusion carry.
abbrev pub unit_ids : ScopeCu → Bytes × Bytes
unit_ids u = (u.cu_id, u.asset_id)

abbrev pub exclusion_ids : ScopeExclusion → Bytes × Bytes
exclusion_ids x = (x.cu_id, x.asset_id)

abbrev accounted : List ScopeCu → List ScopeExclusion → List (Bytes × Bytes)
accounted members exclusions = map unit_ids members ++ map exclusion_ids exclusions

-- A verdict is about its unit.
abbrev IsAbout : ScopeCu → Classified → Type 0
IsAbout u (Classified.member m) = unit_ids m ≡ unit_ids u
IsAbout u (Classified.excluded x) = exclusion_ids x ≡ unit_ids u
IsAbout u (Classified.failing x xs) = Unit

verdict-IsAbout : (u : ScopeCu) (es : List ScopePrecheckFailure) → IsAbout u (verdict u es)
unfolding sort_member
verdict-IsAbout u [] = refl
verdict-IsAbout u (e ∷ es) = tt

add_classified-accounted :
    (u : ScopeCu) (c : Classified) (p : Partition) (us : List ScopeCu)
    → IsAbout u c
    → (add_classified c p).failures ≡ []
    → (p.failures ≡ [] → Permᴰ (accounted p.members p.exclusions) (map unit_ids us))
    → Permᴰ
        (accounted (add_classified c p).members (add_classified c p).exclusions)
        (map unit_ids (u ∷ us))
add_classified-accounted u (Classified.member m) p us about e h = Permᴰ.cons about (h e)
add_classified-accounted u (Classified.excluded x) p us about e h =
    Permᴰ.trans
      (Permᴰ.middle (exclusion_ids x) (map unit_ids p.members) (map exclusion_ids p.exclusions))
      (Permᴰ.cons about (h e))
add_classified-accounted u (Classified.failing x xs) p us about e h = cc

-- What a resolved scope says of some control units.
abbrev pub Accounts : List ScopeCu → ResolvedScope → Type 0
Accounts us r =
    (r.precheck_ok ≡ is_empty r.precheck_failures)
    × (((r.precheck_ok ≡ true)
          × Permᴰ (map unit_ids r.members ++ map exclusion_ids r.exclusions) (map unit_ids us))
        ⊎ ((r.precheck_ok ≡ false) × (r.members ≡ [])))

is_empty-length {ℓ} :
    {A : Type ℓ} (xs ys : List A) → length xs ≡ length ys → is_empty xs ≡ is_empty ys
is_empty-length [] [] h = refl
is_empty-length [] (y ∷ ys) h = absurd (omega arith)
is_empty-length (x ∷ xs) [] h = absurd (omega arith)
is_empty-length (x ∷ xs) (y ∷ ys) h = refl

length-sort {ℓ} :
    {A : Type ℓ} (less : A → A → Bool) (xs : List A) → length (sort less xs) ≡ length xs
length-sort less xs = length-Permᴰ (sort-Permᴰ less xs)

accounted-sorted :
    (less : ScopeCu → ScopeCu → Bool) (less' : ScopeExclusion → ScopeExclusion → Bool)
    (members : List ScopeCu) (exclusions : List ScopeExclusion)
    → Permᴰ (accounted (sort less members) (sort less' exclusions)) (accounted members exclusions)
accounted-sorted less less' members exclusions =
    Permᴰ.trans
      (Permᴰ.append_right (map exclusion_ids (sort less' exclusions))
        (Permᴰ.map unit_ids (sort-Permᴰ less members)))
      (Permᴰ.append_left (map unit_ids members)
        (Permᴰ.map exclusion_ids (sort-Permᴰ less' exclusions)))

resolved_scope-Accounts :
    (snapshot : ScopeSnapshot) (scope_type : ScopeType) (revision : Bytes) (p : Partition)
    (us : List ScopeCu)
    → (p.failures ≡ [] → Permᴰ (accounted p.members p.exclusions) (map unit_ids us))
    → Accounts us (resolved_scope snapshot scope_type revision p)
unfolding resolved_scope
resolved_scope-Accounts snapshot scope_type revision p us h = (
  sym (is_empty-length _ _ (length-sort failure_less p.failures)),
  elim (Bool-cases (is_empty p.failures)) [
    | inl e ↦ inl (
      e,
      rw e (
          Permᴰ.trans
            (accounted-sorted (λ (a : ScopeCu) b. bytes_lt a.cu_id b.cu_id)
              (λ (a : ScopeExclusion) b. bytes_lt a.cu_id b.cu_id) p.members p.exclusions)
            (h (is_empty-nil _ e))),
    )
    | inr e ↦ inr (e, rw e refl)
  ],
)

module _ {F : Type 0} (f : Floats F) (host : SpecHost F) (ids : List Bytes)
    (qs : List MetricRequirement) where
  -- The member comes from a control unit of the list that is eligible.
  abbrev pub FromEligible : List ScopeCu → ScopeCu → Type 0
  FromEligible us m =
      (i : ℕ) × (u : ScopeCu) × (get_elem? us i ≡ some u)
      × Eligible f host ids qs u
      × (m ≡ sort_member u)

  later :
      (u : ScopeCu) (us : List ScopeCu) (m : ScopeCu) → FromEligible us m → FromEligible (u ∷ us) m
  later u us m (i, w, at, eligible, same) = (suc i, w, at, eligible, same)

  Classified-cases :
      (c : Classified) (p : Partition)
      → ((m : ScopeCu) × (c ≡ Classified.member m)) ⊎ ((add_classified c p).members ≡ p.members)
  Classified-cases (Classified.member m) p = inl (m, refl)
  Classified-cases (Classified.excluded e) p = inr refl
  Classified-cases (Classified.failing e es) p = inr refl

  partition-FromEligible :
      (us : List ScopeCu) → All (FromEligible us) (partition f host ids qs us).members
  unfolding partition
  partition-FromEligible [] = tt
  partition-FromEligible (u ∷ us) =
      let rest = partition f host ids qs us in
      let shifted =
        All-map (FromEligible us) (FromEligible (u ∷ us)) (later u us) rest.members
          (partition-FromEligible us) in
      elim (Classified-cases (classify_scope_cu f host u ids qs) rest) [
        | inl (m, e) ↦
            let (eligible, same) = classify_scope_cu-member f host u ids qs e in
            rw e ((zero, u, refl, eligible, same), shifted)
        | inr e ↦ rw e shifted
      ]

  -- What is returned is made of the partition of the snapshot.
  resolve_snapshot-partition :
      (hash : Bytes → Bytes) (snapshot : ScopeSnapshot) (scope_type : ScopeType) {r : ResolvedScope}
      → resolve_snapshot f host hash snapshot scope_type ids qs ≡ ok r
      → (revision : Bytes) × (r
          ≡ resolved_scope snapshot scope_type revision (partition f host ids qs snapshot.cus))
  unfolding resolve_snapshot
  resolve_snapshot-partition hash snapshot scope_type h =
      let made = λ (revision : Bytes).
        ok (resolved_scope snapshot scope_type revision (partition f host ids qs snapshot.cus)) in
      let rest = scope_revision hash snapshot scope_type >>= made in
      let after =
        (>>-ok (guard (scope_type_eq snapshot.root_type scope_type) ScopeError.wrong_scope_type)
          rest h).1 in
      let (revision, _, done) = >>=-ok (scope_revision hash snapshot scope_type) made after in
      (revision, sym (ok_inj done))

  -- Members that come from eligible units still do when they are sorted or dropped.
  resolved_scope-members :
      (us : List ScopeCu) (snapshot : ScopeSnapshot) (scope_type : ScopeType) (revision : Bytes)
      (p : Partition)
      → All (FromEligible us) p.members
      → All (FromEligible us) (resolved_scope snapshot scope_type revision p).members
  unfolding resolved_scope
  resolved_scope-members us snapshot scope_type revision p h =
      elim (Bool-cases (is_empty p.failures)) [
        | inl e ↦ rw e (All-Permᴰ (FromEligible us) (sort-Permᴰ _ p.members) h)
        | inr e ↦ rw e tt
      ]

  -- Every member of a resolved scope is, its own lists sorted, a control unit of the snapshot that is
  -- active, has every required capability enabled with a valid spec, and has an enabled binding that
  -- allows the access of every required metric.
  pub resolve_snapshot-Eligible :
      (hash : Bytes → Bytes) (snapshot : ScopeSnapshot) (scope_type : ScopeType) {r : ResolvedScope}
      → resolve_snapshot f host hash snapshot scope_type ids qs ≡ ok r
      → All (FromEligible snapshot.cus) r.members
  resolve_snapshot-Eligible hash snapshot scope_type {r} h =
      let (revision, made) = resolve_snapshot-partition hash snapshot scope_type h in
      subst (λ (x : ResolvedScope). All (FromEligible snapshot.cus) x.members) (sym made)
        (resolved_scope-members snapshot.cus snapshot scope_type revision _
          (partition-FromEligible snapshot.cus))

  classify_scope_cu-IsAbout : (u : ScopeCu) → IsAbout u (classify_scope_cu f host u ids qs)
  unfolding classify_scope_cu
  classify_scope_cu-IsAbout u = elim (Bool-cases (is_active u.lifecycle)) [
    | inr off ↦ rw (off, classify_scope_cu) refl
    | inl active ↦ elim (Bool-cases (is_empty (missing_capabilities u ids))) [
      | inr e ↦ rw (active, e, classify_scope_cu) refl
      | inl none_missing ↦ elim (Bool-cases (is_empty (disabled_capabilities u ids))) [
        | inr e ↦ rw (active, none_missing, e, classify_scope_cu) refl
        | inl none_disabled ↦
            rw (active, none_missing, none_disabled, classify_scope_cu)
              (verdict-IsAbout u (spec_failures f host u ids ++ metric_failures u qs))
      ]
    ]
  ]

  -- Without a failure, members and exclusions make up the list.
  partition-accounted :
      (us : List ScopeCu)
      → (partition f host ids qs us).failures ≡ []
      → Permᴰ
          (accounted (partition f host ids qs us).members (partition f host ids qs us).exclusions)
          (map unit_ids us)
  unfolding partition
  partition-accounted [] h = Permᴰ.nil
  partition-accounted (u ∷ us) h =
      add_classified-accounted u (classify_scope_cu f host u ids qs) (partition f host ids qs us) us
        (classify_scope_cu-IsAbout u) h (partition-accounted us)

  -- The precheck of a resolved scope passes exactly if it lists no failure. If it passes, the ids of its
  -- members and of its exclusions, each unit's id with its asset's, are together those of the control
  -- units of the snapshot up to order; if it does not, there is no member.
  pub resolve_snapshot-Accounts :
      (hash : Bytes → Bytes) (snapshot : ScopeSnapshot) (scope_type : ScopeType) {r : ResolvedScope}
      → resolve_snapshot f host hash snapshot scope_type ids qs ≡ ok r
      → Accounts snapshot.cus r
  resolve_snapshot-Accounts hash snapshot scope_type {r} h =
      let (revision, made) = resolve_snapshot-partition hash snapshot scope_type h in
      subst (Accounts snapshot.cus) (sym made) (
        resolved_scope-Accounts snapshot scope_type revision _ snapshot.cus
          (partition-accounted snapshot.cus))
