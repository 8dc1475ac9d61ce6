-- ===== src/Gateway/Downlink/Conversion.antt =====
-- The limits of a binding and the inverse conversion.
use vpp_backend.Prelude.{
  ℤ, pos, ltb_ℤ, eqb_ℤ, ◌≡◌, refl, subst, inl, inr, trim_space, Bool, true, false, not, ◌&&◌, ◌||◌,
  Option, none, some, some_inj, Result, ok, err, if◌then◌else◌, Option-cases, err_ne_ok, ok_inj,
  arith,
}
use vpp_backend.Gateway.Floats.{Floats, finite}
use vpp_backend.Gateway.Binding.{Binding, Safety}
use vpp_backend.Gateway.Downlink.{
  RejectReason, DeviceSetpoint, holds_if_set, safety_bounds, close_enough, invert, convert,
}
use vpp_backend.Gateway.Downlink.Writable.{if-none}

module _ {F : Type 0} (f : Floats F) where
  -- A limit that is set satisfies `P`.
  abbrev pub Bound : (F → Type 0) → Option F → Type 0
  Bound P none = Unit {0}
  Bound P (some v) = P v

  -- The limits of a binding at a value.
  abbrev Within : Option (Safety F) → F → Type 0
  Within none v = Unit {0}
  Within (some s) v =
      Bound (λ low. f.lt v low ≡ false) s.min_value
      × Bound (λ high. f.lt high v ≡ false) s.max_value

  holds-Bound :
      (test : F → Bool) (m : Option F)
      → not (holds_if_set f (λ v. not (test v)) m) ≡ false
      → Bound (λ v. test v ≡ false) m
  holds-Bound test none h = tt
  holds-Bound test (some v) h = ground arith

  safety_bounds-Within : (s : Option (Safety F)) (v : F) → safety_bounds f s v ≡ none → Within s v
  unfolding safety_bounds
  safety_bounds-Within none v e = tt
  safety_bounds-Within (some s) v e =
      let (low, e₁) =
        if-none f (not (holds_if_set f (λ low. not (f.lt v low)) s.min_value)) _ _ e in
      let (high, e₂) =
        if-none f (not (holds_if_set f (λ high. not (f.lt high v)) s.max_value)) _ _ e₁ in
      (
        holds-Bound (λ low. f.lt v low) s.min_value low,
        holds-Bound (λ high. f.lt high v) s.max_value high,
      )

  if-some :
      {A : Type 0} (test : Bool) (r : Option A) {x : A}
      → (if test then none else r) ≡ some x
      → (test ≡ false) × (r ≡ some x)
  if-some true r e = absurd (none_ne_some e)
    where
      none_ne_some : {B : Type 0} {y : B} → none ≡ some y → ⊥
      none_ne_some h = cc
  if-some false r e = (refl, e)

  invert-some :
      (v scale offset raw : F)
      → invert f v scale offset ≡ some raw
      → (finite f raw ≡ true)
        × (finite f (f.add (f.mul raw scale) offset) ≡ true)
        × (close_enough f (f.add (f.mul raw scale) offset) v ≡ true)
  unfolding invert
  invert-some v scale offset raw e =
      let r = f.div (f.sub v offset) scale in
      let back = f.add (f.mul r scale) offset in
      let (h₁, e₁) = if-some (not (finite f r)) _ e in
      let (h₂, e₂) = if-some (not (finite f back) || not (close_enough f back v)) _ e₁ in
      let same : r ≡ raw = some_inj.0 e₂ in
      (
        subst (λ x. finite f x ≡ true) same (ground arith),
        subst (λ x. finite f (f.add (f.mul x scale) offset) ≡ true) same (ground arith),
        subst (λ x. close_enough f (f.add (f.mul x scale) offset) v ≡ true) same (ground arith),
      )

  -- What the conversion of a setpoint by a binding gives.
  pub record Converted (canonical : F) (expected : ℤ) (b : Binding F) (sp : DeviceSetpoint F)
      : Type 0 where
    pub pinned : ltb_ℤ (pos 0) expected ≡ true → eqb_ℤ b.revision expected ≡ true
    pub is_finite : finite f canonical ≡ true
    pub is_within : Within b.safety canonical
    pub inverse :
        (finite f sp.raw ≡ true)
        × (finite f (f.add (f.mul sp.raw b.scale) b.offset) ≡ true)
        × (close_enough f (f.add (f.mul sp.raw b.scale) b.offset) canonical ≡ true)
    pub address : sp.external_address ≡ trim_space b.external_address
    pub revision : sp.revision ≡ b.revision

  pub if-ok :
      {A : Type 0} (test : Bool) (y : RejectReason) (r : Result RejectReason A) {x : A}
      → (if test then err y else r) ≡ ok x
      → (test ≡ false) × (r ≡ ok x)
  if-ok true y r e = absurd (err_ne_ok e)
  if-ok false y r e = (refl, e)

  converted :
      (canonical : F) (expected : ℤ) (b : Binding F) (raw : F) (sp : DeviceSetpoint F)
      → ltb_ℤ (pos 0) expected && not (eqb_ℤ b.revision expected) ≡ false
      → not (finite f canonical) ≡ false
      → safety_bounds f b.safety canonical ≡ none
      → invert f canonical b.scale b.offset ≡ some raw
      → record {
        external_address = trim_space b.external_address;
        raw = raw;
        revision = b.revision;
      }
        ≡ sp
      → Converted canonical expected b sp
  converted canonical expected b raw sp p n s i e =
      subst (λ x. Converted canonical expected b x) e
        (record {
          pinned = λ h. ground arith;
          is_finite = ground arith;
          is_within = safety_bounds-Within b.safety canonical s;
          inverse = invert-some canonical b.scale b.offset raw i;
          address = refl;
          revision = refl;
        })

  pub convert-Converted :
      (canonical : F) (expected : ℤ) (b : Binding F) (sp : DeviceSetpoint F)
      → convert f canonical expected b ≡ ok sp
      → Converted canonical expected b sp
  unfolding convert
  convert-Converted canonical expected b sp e =
      let (p, e₁) = if-ok (ltb_ℤ (pos 0) expected && not (eqb_ℤ b.revision expected)) _ _ e in
      let (n, e₂) = if-ok (not (finite f canonical)) _ _ e₁ in
      elim (Option-cases (safety_bounds f b.safety canonical)) [
        | inr (x, out) ↦ absurd (err_ne_ok (rw out at e₂))
        | inl s ↦ elim (Option-cases (invert f canonical b.scale b.offset)) [
          | inl no_raw ↦ absurd (err_ne_ok (rw (s, no_raw) at e₂))
          | inr (raw, i) ↦ converted canonical expected b raw sp p n s i (ok_inj (rw (s, i) at e₂))
        ]
      ]
