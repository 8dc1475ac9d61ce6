-- ===== src/Decision/Allocation/Clamp.antt =====
-- What the clamp makes of a setpoint, under a safety constraint that is not crossed.
use vpp_backend.Prelude.{
  ◌≡◌, sym, subst, true, false, Bool-cases, Option, none, some, some_inj, some_ne_none, inl, inr,
  All,
}
use vpp_backend.Decision.Allocation.Distribute.{PowerFloats}
use vpp_backend.Decision.Allocation.{MemberBinding, Member}
use vpp_backend.Decision.Allocation.Limits.{
  SafetyConstraint, recorded_safety, raised_to, lowered_to, is_toward, clamp_setpoint,
}

module _ {F : Type 0} (p : PowerFloats F) where
  abbrev Above : Option F → F → Type 0
  Above none v = Unit
  Above (some low) v = p.floats.lt v low ≡ false

  abbrev Below : Option F → F → Type 0
  Below none v = Unit
  Below (some high) v = p.floats.lt high v ≡ false

  -- The constraint is not crossed: its upper end is not under its lower end.
  abbrev pub Consistent : Option F → Option F → Type 0
  Consistent (some low) (some high) = p.floats.lt high low ≡ false
  Consistent _ _ = Unit

  -- The value as it was split, or one that a constraint moved: inside it, the same way and no further.
  abbrev pub Clamped : Option (SafetyConstraint F) → F → F → Type 0
  Clamped none signed v = v ≡ signed
  Clamped (some s) signed v =
      Above s.min_value v × Below s.max_value v × (is_toward p signed v ≡ true)

  -- The recorded constraint of a binding is not crossed.
  abbrev pub ConsistentSafety : Option (SafetyConstraint F) → Type 0
  ConsistentSafety none = Unit
  ConsistentSafety (some s) = Consistent s.min_value s.max_value

  abbrev pub ConsistentMember : Member F → Type 0
  ConsistentMember m =
      All (λ (b : MemberBinding F). ConsistentSafety (recorded_safety b.safety)) m.bindings

  module _ (irreflexive : (v : F) → p.floats.lt v v ≡ false) where
    moved-Inside :
        (low high : Option F) (signed : F)
        → Consistent low high
        → Above low (lowered_to p high (raised_to p low signed))
          × Below high (lowered_to p high (raised_to p low signed))
    moved-Inside none none signed c = (tt, tt)
    moved-Inside none (some high) signed c = elim (Bool-cases (p.floats.lt high signed)) [
      | inl over ↦ rw over (tt, irreflexive high)
      | inr inside ↦ rw inside (tt, inside)
    ]
    moved-Inside (some low) none signed c = elim (Bool-cases (p.floats.lt signed low)) [
      | inl under ↦ rw under (irreflexive low, tt)
      | inr inside ↦ rw inside (inside, tt)
    ]
    moved-Inside (some low) (some high) signed c = elim (Bool-cases (p.floats.lt signed low)) [
      | inl under ↦ rw (under, c) (irreflexive low, c)
      | inr above ↦ elim (Bool-cases (p.floats.lt high signed)) [
        | inl over ↦ rw (above, over) (c, irreflexive high)
        | inr inside ↦ rw (above, inside) (above, inside)
      ]
    ]

    pub clamp_setpoint-Clamped :
        (signed : F) (safety : Option (SafetyConstraint F)) (v : F)
        → ConsistentSafety safety
        → clamp_setpoint p signed safety ≡ some v
        → Clamped safety signed v
    unfolding clamp_setpoint
    clamp_setpoint-Clamped signed none v c e =
        elim (Bool-cases (p.floats.eq signed p.floats.zero)) [
          | inl nothing ↦ absurd (some_ne_none (sym (rw nothing at e)))
          | inr same ↦ sym (some_inj.0 (rw same at e))
        ]
    clamp_setpoint-Clamped signed (some s) v c e =
        let moved = lowered_to p s.max_value (raised_to p s.min_value signed) in
        let (above, below) = moved-Inside s.min_value s.max_value signed c in
        elim (Bool-cases (is_toward p signed moved)) [
          | inl toward ↦
              subst (Clamped (some s) signed) (some_inj.0 (rw toward at e)) (above, below, toward)
          | inr away ↦ absurd (some_ne_none (sym (rw away at e)))
        ]
