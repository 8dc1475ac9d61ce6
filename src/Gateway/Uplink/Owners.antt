-- ===== src/Gateway/Uplink/Owners.antt =====
-- A metric has at most one address.
use vpp_backend.Prelude.{
  ℕ, zero, suc, ◌≤◌, ◌≡◌, ◌≢◌, refl, sym, subst, ap, ◌∙◌, String, str_eq, str_eq_iff, trim_space,
  Bool, true, Bool-cases, some, some_inj, some_ne_none, ok, inl, inr, List, [], ◌∷◌, get_elem?,
  count, arith, ltb,
}
use vpp_backend.Gateway.Floats.{Floats}
use vpp_backend.Gateway.Binding.{Binding, Snapshot}
use vpp_backend.Gateway.Uplink.{
  IsolateReason, Reading, CanonicalMetric, Choice, Entry, owns, owners, refuse_shared,
  refuse_all_shared, choice_at, group, choose_groups, index_uplink, translate_reading,
}
use vpp_backend.Gateway.Uplink.Sound.{translate_reading-ok, convert_reading-ok}

str_eq_refl : (s : String) → str_eq s s ≡ true
str_eq_refl s = (str_eq_iff s s).1 refl

-- Two different positions that pass are counted twice.
count-one {ℓ} :
    {A : Type ℓ} (p : A → Bool) (xs : List A) (i : ℕ) {x : A}
    → get_elem? xs i ≡ some x
    → p x ≡ true
    → 1 ≤ count p xs
count-one p [] i e h = cc
count-one p (y ∷ ys) zero {x} e h =
    let here = subst (λ z. p z ≡ true) (sym (some_inj.0 e)) h in ground arith
count-one p (y ∷ ys) (suc i) e h = ground (arith, count-one p ys i e h)

count-two {ℓ} :
    {A : Type ℓ} (p : A → Bool) (xs : List A) (i j : ℕ) {x y : A}
    → get_elem? xs i ≡ some x
    → get_elem? xs j ≡ some y
    → p x ≡ true
    → p y ≡ true
    → i ≢ j
    → 2 ≤ count p xs
count-two p [] i j d e h k ne = cc
count-two p (z ∷ zs) zero zero d e h k ne = absurd (ne refl)
count-two p (z ∷ zs) zero (suc j) d e h k ne =
    let here = subst (λ w. p w ≡ true) (sym (some_inj.0 d)) h in
    ground (arith, count-one p zs j e k)
count-two p (z ∷ zs) (suc i) zero d e h k ne =
    let here = subst (λ w. p w ≡ true) (sym (some_inj.0 e)) k in
    ground (arith, count-one p zs i d h)
count-two p (z ∷ zs) (suc i) (suc j) d e h k ne =
    ground (arith, count-two p zs i j d e h k (λ same. ne (ap suc same)))

module _ {F : Type 0} where
  -- The position at which an address is looked up, with its address.
  choice_at-position :
      (addr : String) (es : List (Entry F)) {choice : Choice F}
      → choice_at addr es ≡ some choice
      → (i : ℕ) × (get_elem? es i ≡ some (addr, choice))
  unfolding choice_at
  choice_at-position addr [] e = absurd (some_ne_none (sym e))
  choice_at-position addr ((key, c) ∷ es) e = elim (Bool-cases (str_eq key addr)) [
    | inl same ↦
        let at = (str_eq_iff key addr).0 same in
        let here = some_inj.0 (rw (same, choice_at) at e) in (zero, λ i. some (at i, here i))
    | inr other ↦
        let (i, at) = choice_at-position addr es (rw (other, choice_at) at e) in (suc i, at)
  ]

  refused_ne_usable {ℓ} :
      {A : Type ℓ} {reason : IsolateReason} {b : Binding F}
      → Choice.refused reason ≡ Choice.usable b
      → A
  refused_ne_usable e = cc

  usable_inj : {b c : Binding F} → Choice.usable b ≡ Choice.usable c → b ≡ c
  usable_inj e = cc

  -- An entry that is still usable was so, and its metric had one owner.
  refuse_shared-usable :
      (all : List (Entry F)) (e : Entry F) {addr : String} {b : Binding F}
      → refuse_shared all e ≡ (addr, Choice.usable b)
      → (e ≡ (addr, Choice.usable b)) × (owners b.metric_id all ≤ 1)
  unfolding refuse_shared
  refuse_shared-usable all (key, Choice.refused reason) h =
      refused_ne_usable (ap (λ (e : Entry F). e.1) h)
  refuse_shared-usable all (key, Choice.usable c) {addr} {b} h =
      elim (Bool-cases (ltb 1 (owners c.metric_id all))) [
        | inl e ↦ refused_ne_usable (ap (λ (e : Entry F). e.1) (rw (e, refuse_shared) at h))
        | inr e ↦
            let kept = rw (e, refuse_shared) at h in
            let same = usable_inj (ap (λ (e : Entry F). e.1) kept) in
            (kept, subst (λ (x : Binding F). owners x.metric_id all ≤ 1) same (ground arith))
      ]

  refuse_all_shared-usable :
      (all es : List (Entry F)) (i : ℕ) {addr : String} {b : Binding F}
      → get_elem? (refuse_all_shared all es) i ≡ some (addr, Choice.usable b)
      → (get_elem? es i ≡ some (addr, Choice.usable b)) × (owners b.metric_id all ≤ 1)
  unfolding refuse_all_shared
  refuse_all_shared-usable all [] i e = cc
  refuse_all_shared-usable all (x ∷ es) zero e =
      let (kept, one) = refuse_shared-usable all x (some_inj.0 e) in (ap some kept, one)
  refuse_all_shared-usable all (x ∷ es) (suc i) e = refuse_all_shared-usable all es i e

  -- Two addresses with usable choices have different metrics.
  usable_apart :
      (all : List (Entry F)) (addr addr' : String) (b c : Binding F)
      → addr ≢ addr'
      → choice_at addr (refuse_all_shared all all) ≡ some (Choice.usable b)
      → choice_at addr' (refuse_all_shared all all) ≡ some (Choice.usable c)
      → b.metric_id ≢ c.metric_id
  unfolding owners
  usable_apart all addr addr' b c apart h k same =
      let (i, at) = choice_at-position addr (refuse_all_shared all all) h in
      let (j, at') = choice_at-position addr' (refuse_all_shared all all) k in
      let (was, one) = refuse_all_shared-usable all all i at in
      let (was', _) = refuse_all_shared-usable all all j at' in
      let two =
        count-two (owns b.metric_id) all i j was was' (str_eq_refl b.metric_id)
          ((str_eq_iff c.metric_id b.metric_id).1 (sym same))
          λ positions. apart (
            ap (λ (e : Entry F). e.0)
              (some_inj.0 (sym was ∙ ap (get_elem? all) positions ∙ was'))) in
      absurd (omega arith)

-- Two readings of different addresses are never converted to the same metric id.
pub translate_reading-apart :
    {F : Type 0} (f : Floats F) (snap : Snapshot F) (r s : Reading F) {c d : CanonicalMetric F}
    → trim_space r.external_address ≢ trim_space s.external_address
    → translate_reading f (index_uplink f snap) r ≡ ok c
    → translate_reading f (index_uplink f snap) s ≡ ok d
    → c.metric_id ≢ d.metric_id
unfolding index_uplink
translate_reading-apart f snap r s apart h k same =
    let (b, at, converted) = translate_reading-ok f (index_uplink f snap) r h in
    let (b', at', converted') = translate_reading-ok f (index_uplink f snap) s k in
    let (metric, _, _, _) = convert_reading-ok f _ r.raw b converted in
    let (metric', _, _, _) = convert_reading-ok f _ s.raw b' converted' in
    usable_apart (choose_groups f (group snap [])) _ _ b b' apart at at'
      (sym metric ∙ same ∙ metric')
