-- ===== src/Gateway/Downlink/Selection.antt =====
-- The choice of `selectDownlink`, against the list of the usable bindings.
use vpp_backend.Prelude.{
  ℕ, suc, ◌+◌, ◌≤◌, ◌≡◌, refl, sym, ap, subst, ◌∙◌, ◌⊎◌, inl, inr, String, str_eq, trim_space,
  is_blank, leb_ℤ, pos, not, ◌||◌, Bool, true, false, ◌&&◌, Option, none, some, Result, ok, err,
  List, [], ◌∷◌, ◌++◌, if◌then◌else◌, count, All, get_elem?, ltb, Bool-cases, Option-cases, arith,
  ◌==◌,
}
use mathlib.Core.List.{append_assoc, append-nil}
use vpp_backend.Contracts.{allows_write}
use vpp_backend.Gateway.Floats.{Floats, finite}
use vpp_backend.Gateway.Binding.{Binding}
use vpp_backend.Gateway.Downlink.{
  RejectReason, Survey, is_none, writable_metric, safety_well_formed, rank_downlink,
  prefer_downlink, reject_downlink, consider, survey, choose, or_unusable, select_downlink,
}

module _ {F : Type 0} (f : Floats F) (id : String) where
  abbrev pub is_named : Binding F → Bool
  is_named b = str_eq (trim_space b.metric_id) id

  abbrev is_clear : Option RejectReason → Bool
  is_clear none = true
  is_clear (some r) = false

  -- The bindings of the metric that nothing speaks against.
  unfoldable pub usable : List (Binding F) → List (Binding F)
  usable [] = []
  usable (b ∷ bs) =
      let rest = usable bs in
      if is_named b && is_clear (reject_downlink f b) then b ∷ rest else rest

  survey-ready :
      (bs : List (Binding F)) (s : Survey F) → (survey f id bs s).ready ≡ s.ready ++ usable bs
  unfolding survey consider usable
  survey-ready [] s = sym (append-nil s.ready)
  survey-ready (b ∷ bs) s = elim (Bool-cases (is_named b)) [
    | inr other ↦ rw (other, usable, survey, consider) (survey-ready bs s)
    | inl named ↦ elim (Option-cases (reject_downlink f b)) [
      | inr (r, bad) ↦ rw (bad, usable, survey, consider, named) (survey-ready bs _)
      | inl good ↦
          rw (good, usable, survey, consider, named)
            (survey-ready bs _ ∙ append_assoc s.ready (b ∷ []) (usable bs))
    ]
  ]

  survey-seen :
      (bs : List (Binding F)) (s : Survey F) → (survey f id bs s).seen ≡ s.seen + count is_named bs
  unfolding survey consider
  survey-seen [] s = omega arith
  survey-seen (b ∷ bs) s = elim (Bool-cases (is_named b)) [
    | inr other ↦ rw (other, survey, consider) (survey-seen bs s)
    | inl named ↦ elim (Option-cases (reject_downlink f b)) [
      | inr (r, bad) ↦ rw (bad, survey, consider, named) (survey-seen bs _ ∙ omega arith)
      | inl good ↦ rw (good, survey, consider, named) (survey-seen bs _ ∙ omega arith)
    ]
  ]

  -- `r` is `r₀` or the reason against some named binding, and none of these ranks above it.
  record Foremost (r₀ : Option RejectReason) (bs : List (Binding F)) (r : Option RejectReason)
      : Type 0 where
    above : rank_downlink r₀ ≤ rank_downlink r
    ranked :
        All
          (λ b.
            is_named b ≡ true
            → (x : RejectReason) → reject_downlink f b ≡ some x
            → rank_downlink (some x) ≤ rank_downlink r)
          bs
    origin :
        (r ≡ r₀)
        ⊎ ((j : ℕ) × (b : Binding F) × (get_elem? bs j ≡ some b)
            × (is_named b ≡ true)
            × (reject_downlink f b ≡ r))

  prefer_downlink-cases :
      (r₀ : Option RejectReason) (x : RejectReason)
      → let r = prefer_downlink r₀ x in
        (rank_downlink r₀ ≤ rank_downlink r)
        × (rank_downlink (some x) ≤ rank_downlink r)
        × ((r ≡ r₀) ⊎ (r ≡ some x))
  unfolding prefer_downlink
  prefer_downlink-cases r₀ x = elim (Bool-cases (ltb (rank_downlink r₀) (rank_downlink (some x)))) [
    | inl up ↦ rw (up, prefer_downlink) (ground arith)
    | inr low ↦ rw (low, prefer_downlink) (ground arith)
  ]

  -- What a later binding adds, before the loop goes on with `r₁`.
  passed :
      (r₀ r₁ : Option RejectReason) (b : Binding F) (bs : List (Binding F))
      (r : Option RejectReason)
      → rank_downlink r₀ ≤ rank_downlink r₁
      → (is_named b ≡ true
          → (x : RejectReason) → reject_downlink f b ≡ some x
          → rank_downlink (some x) ≤ rank_downlink r₁)
      → (r₁ ≡ r₀) ⊎ ((is_named b ≡ true) × (reject_downlink f b ≡ r₁))
      → Foremost r₁ bs r
      → Foremost r₀ (b ∷ bs) r
  passed r₀ r₁ b bs r up here from h = record {
    above = omega (arith, h.above);
    ranked = ((λ n x e. omega (arith, here n x e, h.above)), h.ranked);
    origin = elim h.origin [
      | inl same ↦ elim from [
        | inl kept ↦ inl (same ∙ kept)
        | inr taken ↦ inr (0, b, refl, taken.0, taken.1 ∙ sym same)
      ]
      | inr (j, c, at, n, e) ↦ inr (suc j, c, at, n, e)
    ];
  }

  survey-Foremost :
      (bs : List (Binding F)) (s : Survey F) → Foremost s.rejected bs (survey f id bs s).rejected
  unfolding survey consider
  survey-Foremost [] s = record { above = omega arith; ranked = tt; origin = inl refl }
  survey-Foremost (b ∷ bs) s = elim (Bool-cases (is_named b)) [
    | inr other ↦
        rw (other, survey, consider)
          (passed s.rejected s.rejected b bs _ (omega arith) (λ n. cc) (inl refl)
            (survey-Foremost bs s))
    | inl named ↦ elim (Option-cases (reject_downlink f b)) [
      | inr (r, bad) ↦
          let p = prefer_downlink-cases s.rejected r in
          rw (bad, survey, consider, named)
            (passed s.rejected (prefer_downlink s.rejected r) b bs _ p.0
              (λ n x e.
                subst (λ y. rank_downlink y ≤ rank_downlink (prefer_downlink s.rejected r))
                  (sym bad ∙ e) p.1)
              (elim p.2 [ inl kept ↦ inl kept | inr taken ↦ inr (named, bad ∙ sym taken) ])
              (survey-Foremost bs _))
      | inl good ↦
          rw (good, survey, consider, named)
            (passed s.rejected s.rejected b bs _ (omega arith) (λ n x e. cc) (inl refl)
              (survey-Foremost bs _))
    ]
  ]

  abbrev IsRanked : Option RejectReason → Type 0
  IsRanked r = (x : RejectReason) → r ≡ some x → 1 ≤ rank_downlink (some x)

  if-IsRanked :
      (test : Bool) (y : RejectReason) (r : Option RejectReason)
      → 1 ≤ rank_downlink (some y)
      → IsRanked r
      → IsRanked (if test then some y else r)
  if-IsRanked true y r h k x e = subst (λ z. 1 ≤ rank_downlink z) e h
  if-IsRanked false y r h k x e = k x e

  none-IsRanked : IsRanked none
  none-IsRanked x e = cc

  -- A binding that is rejected has a reason with a rank.
  reject_downlink-IsRanked : (b : Binding F) → IsRanked (reject_downlink f b)
  unfolding reject_downlink rank_downlink
  reject_downlink-IsRanked b = if-IsRanked (not b.enabled) RejectReason.disabled _ (omega arith) (
      if-IsRanked (not (allows_write b.access_mode)) RejectReason.not_writable _ (omega arith) (
        if-IsRanked (leb_ℤ b.revision (pos 0)) RejectReason.revision _ (omega arith) (
          if-IsRanked (is_blank b.external_address) RejectReason.unusable _ (omega arith) (
            if-IsRanked (not (finite f b.scale) || f.eq b.scale f.zero || not (finite f b.offset))
              RejectReason.irreversible _ (omega arith)
              (if-IsRanked (is_none (writable_metric b.metric_id)) RejectReason.unusable _
                (omega arith)
                (if-IsRanked (not (safety_well_formed f b.safety)) RejectReason.unusable _
                  (omega arith) none-IsRanked))))))

  ranked_above :
      (bs : List (Binding F)) (r : Option RejectReason)
      → All
          (λ b.
            is_named b ≡ true
            → (x : RejectReason) → reject_downlink f b ≡ some x
            → rank_downlink (some x) ≤ rank_downlink r)
          bs
      → usable bs ≡ []
      → 1 ≤ count is_named bs
      → 1 ≤ rank_downlink r
  unfolding usable
  ranked_above [] r h u n = absurd (omega arith)
  ranked_above (b ∷ bs) r h u n = elim (Bool-cases (is_named b)) [
    | inr other ↦ ranked_above bs r h.1 (rw (other, usable) at u) (rw other at n)
    | inl named ↦ elim (Option-cases (reject_downlink f b)) [
      | inl good ↦ absurd (cons_ne_nil (rw (named, usable, good) at u))
      | inr (x, bad) ↦ omega (arith, h.0 named x bad, reject_downlink-IsRanked b x bad)
    ]
  ]
    where
      cons_ne_nil : {A : Type 0} {x : A} {xs : List A} → x ∷ xs ≡ [] → ⊥
      cons_ne_nil e = cc

  -- The reason of a named binding that ranks as high as that of any other.
  pub record Refused (bs : List (Binding F)) (x : RejectReason) : Type 0 where
    pub refused :
        (j : ℕ) × (b : Binding F) × (get_elem? bs j ≡ some b)
        × (is_named b ≡ true)
        × (reject_downlink f b ≡ some x)
    pub highest :
        All
          (λ b.
            is_named b ≡ true
            → (y : RejectReason) → reject_downlink f b ≡ some y
            → rank_downlink (some y) ≤ rank_downlink (some x))
          bs

  -- What the choice is, by the usable bindings.
  abbrev pub Selected :
      List (Binding F) → List (Binding F) → Result RejectReason (Binding F) → Type 0
  Selected bs [] r =
      ((count is_named bs ≡ 0) × (r ≡ err RejectReason.missing))
      ⊎ ((x : RejectReason) × (r ≡ err x) × Refused bs x)
  Selected bs (b ∷ []) r = r ≡ ok b
  Selected bs (b ∷ c ∷ more) r = r ≡ err RejectReason.duplicate

  no_rank : 1 ≤ rank_downlink none → ⊥
  unfolding rank_downlink
  no_rank e = omega arith

  refused :
      (bs : List (Binding F)) (r : Option RejectReason)
      → Foremost none bs r
      → usable bs ≡ []
      → 1 ≤ count is_named bs
      → (x : RejectReason) × (or_unusable f r ≡ x) × Refused bs x
  refused bs none h u n = absurd (no_rank (ranked_above bs none h.ranked u n))
  refused bs (some x) h u n = (
    x,
    refl,
    record {
      refused = elim h.origin [ inl e ↦ absurd (none_ne_some (sym e)) | inr o ↦ o ];
      highest = h.ranked;
    },
  )
    where
      none_ne_some : none ≡ some x → ⊥
      none_ne_some e = cc

  choose-Selected :
      (bs u : List (Binding F)) (s : Survey F)
      → s.ready ≡ u
      → s.seen ≡ count is_named bs
      → Foremost none bs s.rejected
      → usable bs ≡ u
      → Selected bs u (choose f s)
  unfolding choose
  choose-Selected bs [] s r n h u = elim (Bool-cases (s.seen == 0)) [
    | inl zero ↦ rw (r, choose, zero) (inl (ground arith, refl))
    | inr more ↦
        rw (r, choose, more)
          (let (x, e, g) = refused bs s.rejected h u (ground arith) in inr (x, ap err e, g))
  ]
  choose-Selected bs (b ∷ []) s r n h u = rw (r, choose) refl
  choose-Selected bs (b ∷ c ∷ more) s r n h u = rw (r, choose) refl

  -- The choice among the bindings of a CU, by those of the metric that nothing speaks against: if
  -- there is one, it is chosen, and if there are more, the metric is a duplicate. If there is none,
  -- the metric is missing where no binding names it; else the reason is that against one of the
  -- bindings that name it, and ranks as high as that against any other.
  pub select_downlink-Selected :
      (bs : List (Binding F)) → Selected bs (usable bs) (select_downlink f bs id)
  unfolding select_downlink
  select_downlink-Selected bs =
      let s₀ : Survey F = record { ready = []; rejected = none; seen = 0 } in
      choose-Selected bs (usable bs) (survey f id bs s₀) (survey-ready bs s₀)
        (survey-seen bs s₀ ∙ omega arith) (survey-Foremost bs s₀) refl
