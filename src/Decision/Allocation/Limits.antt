-- ===== src/Decision/Allocation/Limits.antt =====
-- internal/decision/domain/allocation/heuristic.go: what a control unit can take of a target, and the clamp
-- of its setpoint to the recorded safety constraint.
use vpp_backend.Prelude.{
  ℤ, pos, ltb_ℤ, Bool, true, false, not, ◌&&◌, ◌||◌, Option, none, some, if◌then◌else◌,
}
use vpp_backend.Contracts.Capability.{EnergyStorageSpec}
use vpp_backend.Decision.Allocation.Distribute.{PowerFloats}

pub record SafetyConstraint (F : Type 0) : Type 0 where
  pub min_value : Option F
  pub max_value : Option F
  pub max_change_per_second : Option F
  pub version : ℤ

module _ {F : Type 0} where
  unfoldable pub recorded_safety : Option (SafetyConstraint F) → Option (SafetyConstraint F)
  recorded_safety none = none
  recorded_safety (some s) = if ltb_ℤ (pos 0) s.version then some s else none

module _ {F : Type 0} (p : PowerFloats F) where
  unfoldable pub non_negative : F → F
  non_negative v =
      if p.floats.is_nan v || p.floats.is_inf v || p.floats.lt v p.floats.zero
      then p.floats.zero
      else v

  abbrev capped_by : Option F → F → F
  capped_by none cap = cap
  capped_by (some v) cap = if p.floats.lt v cap then v else cap

  -- The cap of discharging under a recorded constraint.
  unfoldable discharge_cap : Option F → Option F → F → F
  unfolding non_negative
  discharge_cap none max_value cap = non_negative (capped_by max_value cap)
  discharge_cap (some low) max_value cap =
      if p.floats.lt (capped_by max_value cap) low
      then p.floats.zero
      else non_negative (capped_by max_value cap)

  abbrev is_crossed : F → Option F → Bool
  is_crossed low none = false
  is_crossed low (some high) = p.floats.le high p.floats.zero && p.floats.lt high low

  unfoldable charge_cap : Option F → Option F → F → F
  unfolding non_negative
  charge_cap none max_value cap = non_negative cap
  charge_cap (some low) max_value cap =
      if p.floats.le p.floats.zero low
      then p.floats.zero
      else if is_crossed low max_value
      then p.floats.zero
      else non_negative (capped_by (some (p.neg low)) cap)

  unfoldable pub direction_cap : EnergyStorageSpec F → Option (SafetyConstraint F) → Bool → F
  unfolding non_negative discharge_cap charge_cap
  direction_cap spec none discharge =
      non_negative (if discharge then spec.max_discharge_power_kw else spec.max_charge_power_kw)
  direction_cap spec (some s) true =
      discharge_cap s.min_value s.max_value spec.max_discharge_power_kw
  direction_cap spec (some s) false = charge_cap s.min_value s.max_value spec.max_charge_power_kw

  abbrev into_range : F → F
  into_range soc =
      let low = if p.floats.lt soc p.floats.zero then p.floats.zero else soc in
      if p.floats.lt p.hundred low then p.hundred else low

  unfoldable pub headroom_kwh : F → F → Bool → F
  headroom_kwh soc usable discharge =
      if p.floats.le usable p.floats.zero || p.floats.is_nan soc || p.floats.is_inf soc
      then p.floats.zero
      else if discharge
      then p.floats.div (p.floats.mul usable (into_range soc)) p.hundred
      else p.floats.div (p.floats.mul usable (p.floats.sub p.hundred (into_range soc))) p.hundred

  abbrev pub raised_to : Option F → F → F
  raised_to none v = v
  raised_to (some low) v = if p.floats.lt v low then low else v

  abbrev pub lowered_to : Option F → F → F
  lowered_to none v = v
  lowered_to (some high) v = if p.floats.lt high v then high else v

  -- Whether the clamped value still goes the way of the signed one, and not further.
  abbrev pub is_toward : F → F → Bool
  is_toward signed v =
      not (p.floats.lt signed p.floats.zero && p.floats.le p.floats.zero v)
      && not (p.floats.lt p.floats.zero signed && p.floats.le v p.floats.zero)
      && not (p.floats.lt (p.floats.add (p.floats.abs signed) p.eps) (p.floats.abs v))

  unfoldable pub clamp_setpoint : F → Option (SafetyConstraint F) → Option F
  clamp_setpoint signed none = if p.floats.eq signed p.floats.zero then none else some signed
  clamp_setpoint signed (some s) =
      let v = lowered_to s.max_value (raised_to s.min_value signed) in
      if is_toward signed v then some v else none
