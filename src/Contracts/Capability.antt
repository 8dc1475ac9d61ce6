-- ===== src/Contracts/Capability.antt =====
-- api/contracts: registry.go's table of capabilities and capability_specs.go, the validation of a spec.
-- The JSON decoder and the quotation of a string in a message are parameters; IEEE floats are too.
use vpp_backend.Prelude.{
  ℤ, pos, eqb_ℤ, String, is_blank, not, ◌&&◌, Option, none, some, List, [], ◌∷◌, ◌++◌,
  if◌then◌else◌, Result, err, ◌>>=◌, ◌>>◌, guard,
}
use vpp_backend.Prelude.Bytes.{Bytes, codes, bytes_eq}
use vpp_backend.Prelude.Decimal.{format_int}
use vpp_backend.Gateway.Floats.{Floats, finite}

-- The ids that the switch of `ValidateCapabilitySpec` knows.
pub data CapabilityKind : Type 0 where
  energy_storage power_generation power_consumption load_flexibility : CapabilityKind
  reactive_power_control ev_charging ev_vehicle_to_grid : CapabilityKind

record CapabilityDescriptor : Type 0 where
  pub id : Bytes
  pub kind : CapabilityKind
  pub display_name : Bytes
  pub schema_version : ℤ

abbrev descriptor : String → CapabilityKind → String → CapabilityDescriptor
descriptor id kind name = record {
  id = codes id;
  kind = kind;
  display_name = codes name;
  schema_version = pos 1;
}

abbrev capability_registry : List CapabilityDescriptor
capability_registry =
    descriptor "energy.storage.v1" CapabilityKind.energy_storage "Energy storage"
    ∷ descriptor "power.generation.v1" CapabilityKind.power_generation "Power generation"
    ∷ descriptor "power.consumption.v1" CapabilityKind.power_consumption "Power consumption"
    ∷ descriptor "load.flexibility.v1" CapabilityKind.load_flexibility "Load flexibility"
    ∷ descriptor "reactive_power.control.v1" CapabilityKind.reactive_power_control
        "Reactive power control"
    ∷ descriptor "ev.charging.v1" CapabilityKind.ev_charging "EV charging"
    ∷ descriptor "ev.vehicle_to_grid.v1" CapabilityKind.ev_vehicle_to_grid "EV vehicle-to-grid"
    ∷ []

lookup_capability_in : Bytes → List CapabilityDescriptor → Option CapabilityDescriptor
unfolding bytes_eq
lookup_capability_in id [] = none
lookup_capability_in id (d ∷ ds) = if bytes_eq d.id id then some d else lookup_capability_in id ds

unfoldable lookup_capability : Bytes → Option CapabilityDescriptor
unfolding lookup_capability_in
lookup_capability id = lookup_capability_in id capability_registry

pub record EnergyStorageSpec (F : Type 0) : Type 0 where
  pub usable_energy_kwh : F
  pub max_charge_power_kw : F
  pub max_discharge_power_kw : F

pub record PowerGenerationSpec (F : Type 0) : Type 0 where
  pub rated_power_kw : F
  pub min_power_kw : F
  pub max_ramp_kw_per_minute : F

pub record LoadFlexibilitySpec (F : Type 0) : Type 0 where
  pub max_reduction_kw : F
  pub max_increase_kw : F

-- The struct that the switch decodes into; the structs with one field are that field.
abbrev pub SpecOf : Type 0 → CapabilityKind → Type 0
SpecOf F CapabilityKind.energy_storage = EnergyStorageSpec F
SpecOf F CapabilityKind.power_generation = PowerGenerationSpec F
SpecOf F CapabilityKind.power_consumption = F
SpecOf F CapabilityKind.load_flexibility = LoadFlexibilitySpec F
SpecOf F CapabilityKind.reactive_power_control = F
SpecOf F CapabilityKind.ev_charging = F
SpecOf F CapabilityKind.ev_vehicle_to_grid = F

-- What the standard library does: strict decoding, an error being its text, and `%q`.
pub record SpecHost (F : Type 0) : Type 0 where
  pub decode_strict : (k : CapabilityKind) → String → Result Bytes (SpecOf F k)
  pub quote : Bytes → Bytes

module _ {F : Type 0} (f : Floats F) where
  unfoldable pub positive : String → F → Result Bytes (Unit {0})
  unfolding finite
  positive name v =
      guard (finite f v && not (f.le v f.zero))
        (codes "contracts: " ++ (codes name ++ codes " must be finite and positive"))

  unfoldable pub non_negative : String → F → Result Bytes (Unit {0})
  unfolding finite
  non_negative name v =
      guard (finite f v && not (f.lt v f.zero))
        (codes "contracts: " ++ (codes name ++ codes " must be finite and non-negative"))

  -- The cases of the switch, after the decoding.
  unfoldable validate_spec : (k : CapabilityKind) → SpecOf F k → Result Bytes (Unit {0})
  unfolding positive non_negative
  validate_spec CapabilityKind.energy_storage spec =
      positive "usable_energy_kwh" spec.usable_energy_kwh
      >> positive "max_charge_power_kw" spec.max_charge_power_kw
      >> positive "max_discharge_power_kw" spec.max_discharge_power_kw
  validate_spec CapabilityKind.power_generation spec =
      positive "rated_power_kw" spec.rated_power_kw
      >> non_negative "min_power_kw" spec.min_power_kw
      >> guard (not (f.lt spec.rated_power_kw spec.min_power_kw))
          (codes "contracts: min_power_kw must not exceed rated_power_kw")
      >> non_negative "max_ramp_kw_per_minute" spec.max_ramp_kw_per_minute
  validate_spec CapabilityKind.power_consumption v = positive "rated_power_kw" v
  validate_spec CapabilityKind.load_flexibility spec =
      non_negative "max_reduction_kw" spec.max_reduction_kw
      >> non_negative "max_increase_kw" spec.max_increase_kw
      >> guard (not (f.eq spec.max_reduction_kw f.zero && f.eq spec.max_increase_kw f.zero))
          (codes "contracts: at least one flexibility limit must be positive")
  validate_spec CapabilityKind.reactive_power_control v = positive "max_abs_kvar" v
  validate_spec CapabilityKind.ev_charging v = positive "max_charge_power_kw" v
  validate_spec CapabilityKind.ev_vehicle_to_grid v = positive "max_export_power_kw" v

  module _ (host : SpecHost F) where
    -- An error is its text.
    unfoldable pub validate_capability_spec : Bytes → ℤ → String → Result Bytes (Unit {0})
    unfolding lookup_capability validate_spec is_blank format_int
    validate_capability_spec id schema_version raw = elim (lookup_capability id) [
      | none ↦ err (codes "contracts: unknown capability id " ++ host.quote id)
      | some d ↦
          guard (eqb_ℤ schema_version d.schema_version) (
            codes "contracts: unsupported schema version "
            ++ (format_int schema_version
                ++ (codes " for "
                    ++ (host.quote id ++ (codes "; want " ++ format_int d.schema_version)))))
          >> guard (not (is_blank raw)) (codes "contracts: capability spec is required")
          >> (host.decode_strict d.kind raw >>= validate_spec d.kind)
    ]
