-- ===== src/Gateway/Uplink/Sound.antt =====
-- Where a canonical metric comes from.
use vpp_backend.Prelude.{
  ℕ, zero, suc, ◌≡◌, refl, sym, subst, ap, ◌∙◌, String, str_eq, str_eq_iff, trim_space,
  is_empty_text, Bool, true, false, not, ◌||◌, Bool-cases, Option, none, some, some_inj,
  Option-cases, ok, ok_inj, err_ne_ok, Result-cases, inl, inr, List, [], ◌∷◌, ◌++◌, All, All-map,
  get_elem?, if◌then◌else◌, arith, ltb, some_ne_none,
}
use vpp_backend.Contracts.{allows_read}
use vpp_backend.Gateway.Floats.{Floats, finite}
use vpp_backend.Gateway.Binding.{Binding, Snapshot}
use vpp_backend.Gateway.Uplink.{
  IsolateReason, Reading, CanonicalMetric, Choice, Group, Entry, is_float_metric, add_item, group,
  choose_ready, owners, refuse_shared, refuse_all_shared, choice_at, reject_uplink, choose_among,
  choose_groups, index_uplink, convert_reading, translate_reading, translate_readings,
  translate_uplink, apply_choice,
}

All-append {ℓ κ} :
    {A : Type ℓ} (P : A → Type κ) (xs ys : List A) → All P xs → All P ys → All P (xs ++ ys)
All-append P [] ys h k = k
All-append P (x ∷ xs) ys h k = (h.0, All-append P xs ys h.1 k)

-- The entries of a list by their position.
abbrev MemOf {ℓ} : {A : Type ℓ} → List A → A → Type ℓ
MemOf xs x = (i : ℕ) × (get_elem? xs i ≡ some x)

pub All-MemOf {ℓ} : {A : Type ℓ} (xs : List A) → All (MemOf xs) xs
All-MemOf [] = tt
All-MemOf (x ∷ xs) =
    ((zero, refl), All-map (MemOf xs) (MemOf (x ∷ xs)) (λ y (i, e). (suc i, e)) xs (All-MemOf xs))

if-none {ℓ} :
    {A : Type ℓ} (test : Bool) (x : A) (rest : Option A)
    → (if test then some x else rest) ≡ none
    → (test ≡ false) × (rest ≡ none)
if-none true x rest e = absurd (some_ne_none e)
if-none false x rest e = (refl, e)

module _ {F : Type 0} (f : Floats F) where
  -- The binding is on, readable, and its conversion and its metric make sense.
  pub record IsUsable (b : Binding F) : Type 0 where
    pub enabled : b.enabled ≡ true
    pub readable : allows_read b.access_mode ≡ true
    pub scale_finite : finite f b.scale ≡ true
    pub scale_not_zero : f.eq b.scale f.zero ≡ false
    pub offset_finite : finite f b.offset ≡ true
    pub metric : is_float_metric b.metric_id ≡ true

  reject_uplink-IsUsable : (b : Binding F) → reject_uplink f b ≡ none → IsUsable b
  unfolding reject_uplink
  reject_uplink-IsUsable b e =
      let (on, e₁) = if-none (not b.enabled) _ _ e in
      let (read, e₂) = if-none (not (allows_read b.access_mode)) _ _ e₁ in
      let (linear, e₃) =
        if-none (not (finite f b.scale) || f.eq b.scale f.zero || not (finite f b.offset)) _ _ e₂ in
      let (metric, _) = if-none (not (is_float_metric b.metric_id)) _ _ e₃ in
      record {
        enabled = ground arith;
        readable = ground arith;
        scale_finite = ground arith;
        scale_not_zero = ground arith;
        offset_finite = ground arith;
        metric = ground arith;
      }

  module _ (P : Binding F → Type 0) where
    abbrev Filed : String → Binding F → Type 0
    Filed addr b = P b × (trim_space b.external_address ≡ addr)

    abbrev FiledGroup : Group F → Type 0
    FiledGroup (addr, items) = All (Filed addr) items

    add_item-Filed :
        (addr : String) (b : Binding F) (gs : List (Group F))
        → Filed addr b
        → All FiledGroup gs
        → All FiledGroup (add_item addr b gs)
    unfolding add_item
    add_item-Filed addr b [] h k = ((h, tt), tt)
    add_item-Filed addr b ((key, items) ∷ gs) h k = elim (Bool-cases (str_eq key addr)) [
      | inl e ↦
          let same = (str_eq_iff key addr).0 e in
          rw e (
            All-append (Filed key) items (b ∷ []) k.0 (subst (λ a. Filed a b) (sym same) h, tt),
            k.1,
          )
      | inr e ↦ rw e (k.0, add_item-Filed addr b gs h k.1)
    ]

    group-Filed :
        (bs : List (Binding F)) (gs : List (Group F))
        → All P bs
        → All FiledGroup gs
        → All FiledGroup (group bs gs)
    unfolding group
    group-Filed [] gs h k = k
    group-Filed (b ∷ bs) gs h k =
        elim (Bool-cases (is_empty_text (trim_space b.external_address))) [
          | inl e ↦ rw e (group-Filed bs gs h.1 k)
          | inr e ↦ rw e (group-Filed bs _ h.1 (add_item-Filed _ b gs (h.0, refl) k))
        ]

    -- What a choice stands for.
    abbrev Chosen : String → Choice F → Type 0
    Chosen addr (Choice.usable b) = Filed addr b × IsUsable b
    Chosen addr (Choice.refused reason) = Unit

    abbrev ChosenEntry : Entry F → Type 0
    ChosenEntry (addr, choice) = Chosen addr choice

    choose_ready-Chosen :
        (addr : String) (ready : List (Binding F)) (rejected : Option IsolateReason)
        → All (λ b. Filed addr b × IsUsable b) ready
        → Chosen addr (choose_ready ready rejected)
    choose_ready-Chosen addr [] none h = tt
    choose_ready-Chosen addr [] (some reason) h = tt
    choose_ready-Chosen addr (b ∷ []) rejected h = h.0
    choose_ready-Chosen addr (b ∷ c ∷ more) rejected h = tt

    choose_among-Chosen :
        (addr : String) (bs ready : List (Binding F)) (rejected : Option IsolateReason)
        → All (Filed addr) bs
        → All (λ b. Filed addr b × IsUsable b) ready
        → Chosen addr (choose_among f bs ready rejected)
    unfolding choose_among
    choose_among-Chosen addr [] ready rejected h k = choose_ready-Chosen addr ready rejected k
    choose_among-Chosen addr (b ∷ bs) ready rejected h k = elim (Option-cases (reject_uplink f b)) [
      | inr (reason, e) ↦ rw (e, choose_among) (choose_among-Chosen addr bs ready _ h.1 k)
      | inl e ↦
          rw (e, choose_among)
            (choose_among-Chosen addr bs _ rejected h.1
              (All-append _ ready (b ∷ []) k ((h.0, reject_uplink-IsUsable b e), tt)))
    ]

    choose_groups-Chosen :
        (gs : List (Group F)) → All FiledGroup gs → All ChosenEntry (choose_groups f gs)
    unfolding choose_groups
    choose_groups-Chosen [] h = tt
    choose_groups-Chosen ((addr, items) ∷ gs) h =
        (choose_among-Chosen addr items [] none h.0 tt, choose_groups-Chosen gs h.1)

    refuse_shared-Chosen :
        (all : List (Entry F)) (e : Entry F) → ChosenEntry e → ChosenEntry (refuse_shared all e)
    unfolding refuse_shared
    refuse_shared-Chosen all (addr, Choice.refused reason) h = tt
    refuse_shared-Chosen all (addr, Choice.usable b) h =
        elim (Bool-cases (ltb 1 (owners b.metric_id all))) [ inl e ↦ rw e tt | inr e ↦ rw e h ]

    refuse_all_shared-Chosen :
        (all es : List (Entry F)) → All ChosenEntry es → All ChosenEntry (refuse_all_shared all es)
    unfolding refuse_all_shared
    refuse_all_shared-Chosen all [] h = tt
    refuse_all_shared-Chosen all (e ∷ es) h =
        (refuse_shared-Chosen all e h.0, refuse_all_shared-Chosen all es h.1)

    choice_at-Chosen :
        (addr : String) (es : List (Entry F)) {choice : Choice F}
        → All ChosenEntry es
        → choice_at addr es ≡ some choice
        → Chosen addr choice
    unfolding choice_at
    choice_at-Chosen addr [] h e = absurd (some_ne_none (sym e))
    choice_at-Chosen addr ((key, c) ∷ es) {choice} h e = elim (Bool-cases (str_eq key addr)) [
      | inl same ↦
          let at = (str_eq_iff key addr).0 same in
          let here = some_inj.0 (rw (same, choice_at) at e) in
          subst (λ a. Chosen a choice) at (subst (Chosen key) here h.0)
      | inr other ↦ choice_at-Chosen addr es h.1 (rw (other, choice_at) at e)
    ]

  -- The metric comes from a reading and a usable binding of the same address, by the binding's scale
  -- and offset, and no number on the way is infinite or NaN.
  abbrev pub Measures : Snapshot F → List (Reading F) → CanonicalMetric F → Type 0
  Measures snap readings c =
      (b : Binding F) × (r : Reading F) × MemOf snap b
      × MemOf readings r
      × (trim_space b.external_address ≡ trim_space r.external_address)
      × IsUsable b
      × (c.metric_id ≡ b.metric_id)
      × (c.value ≡ f.add (f.mul r.raw b.scale) b.offset)
      × (finite f r.raw ≡ true)
      × (finite f c.value ≡ true)

  -- A reading that is converted by a choice.
  pub convert_reading-ok :
      (addr : String) (raw : F) (b : Binding F) {c : CanonicalMetric F}
      → convert_reading f addr raw b ≡ ok c
      → (c.metric_id ≡ b.metric_id)
        × (c.value ≡ f.add (f.mul raw b.scale) b.offset)
        × (finite f raw ≡ true)
        × (finite f c.value ≡ true)
  unfolding convert_reading
  convert_reading-ok addr raw b {c} e = elim (Bool-cases (finite f raw)) [
    | inr g ↦ absurd (err_ne_ok (rw (g, convert_reading) at e))
    | inl raw_finite ↦ elim (Bool-cases (finite f (f.add (f.mul raw b.scale) b.offset))) [
      | inr g ↦ absurd (err_ne_ok (rw (raw_finite, g, convert_reading) at e))
      | inl value_finite ↦
          let made = ok_inj (rw (raw_finite, value_finite, convert_reading) at e) in
          subst
            (λ (x : CanonicalMetric F).
              (x.metric_id ≡ b.metric_id)
              × (x.value ≡ f.add (f.mul raw b.scale) b.offset)
              × (finite f raw ≡ true)
              × (finite f x.value ≡ true))
            made (refl, refl, raw_finite, value_finite)
    ]
  ]

  apply_choice-ok :
      (addr : String) (raw : F) (choice : Choice F) {c : CanonicalMetric F}
      → apply_choice f addr raw choice ≡ ok c
      → (b : Binding F) × (choice ≡ Choice.usable b) × (convert_reading f addr raw b ≡ ok c)
  unfolding apply_choice
  apply_choice-ok addr raw (Choice.refused reason) e = absurd (err_ne_ok e)
  apply_choice-ok addr raw (Choice.usable b) e = (b, refl, e)

  -- A reading that is converted has a usable choice.
  pub translate_reading-ok :
      (chosen : List (Entry F)) (r : Reading F) {c : CanonicalMetric F}
      → translate_reading f chosen r ≡ ok c
      → (b : Binding F) × (choice_at (trim_space r.external_address) chosen
          ≡ some (Choice.usable b))
        × (convert_reading f (trim_space r.external_address) r.raw b ≡ ok c)
  unfolding translate_reading
  translate_reading-ok chosen r e =
      elim (Option-cases (choice_at (trim_space r.external_address) chosen)) [
        | inl g ↦ absurd (err_ne_ok (rw (g, translate_reading) at e))
        | inr (choice, g) ↦
            let (b, same, converted) =
              apply_choice-ok _ r.raw choice (rw (g, translate_reading) at e) in
            (b, g ∙ ap some same, converted)
      ]

  index_uplink-Chosen : (snap : Snapshot F) → All (ChosenEntry (MemOf snap)) (index_uplink f snap)
  unfolding index_uplink
  index_uplink-Chosen snap =
      let chosen = choose_groups f (group snap []) in
      let filed = group-Filed (MemOf snap) snap [] (All-MemOf snap) tt in
      refuse_all_shared-Chosen (MemOf snap) chosen chosen
        (choose_groups-Chosen (MemOf snap) _ filed)

  translate_reading-Measures :
      (snap : Snapshot F) (readings : List (Reading F)) (r : Reading F) {c : CanonicalMetric F}
      → MemOf readings r
      → translate_reading f (index_uplink f snap) r ≡ ok c
      → Measures snap readings c
  translate_reading-Measures snap readings r {c} at e =
      let (b, chosen, converted) = translate_reading-ok (index_uplink f snap) r e in
      let ((member, address), is_usable) =
        choice_at-Chosen (MemOf snap) _ (index_uplink f snap) (index_uplink-Chosen snap) chosen in
      let (metric, value, raw_finite, value_finite) = convert_reading-ok _ r.raw b converted in
      (b, r, member, at, address, is_usable, metric, value, raw_finite, value_finite)

  translate_readings-Measures :
      (snap : Snapshot F) (readings rs : List (Reading F))
      → All (MemOf readings) rs
      → All (Measures snap readings) (translate_readings f (index_uplink f snap) rs).0
  unfolding translate_readings
  translate_readings-Measures snap readings [] h = tt
  translate_readings-Measures snap readings (r ∷ rs) h =
      let rest = translate_readings-Measures snap readings rs h.1 in
      elim (Result-cases (translate_reading f (index_uplink f snap) r)) [
        | inl (c, e) ↦ rw e (translate_reading-Measures snap readings r h.0 e, rest)
        | inr (i, e) ↦ rw e rest
      ]

  -- Every canonical metric of an uplink comes from a reading and from an enabled, readable binding of
  -- the snapshot at the same address, whose metric is a known float metric; its value is the raw
  -- sample by the binding's finite, non-zero scale and finite offset, and is finite.
  pub translate_uplink-Measures :
      (snap : Snapshot F) (readings : List (Reading F))
      → All (Measures snap readings) (translate_uplink f snap readings).0
  unfolding translate_uplink
  translate_uplink-Measures snap readings =
      translate_readings-Measures snap readings readings (All-MemOf readings)
