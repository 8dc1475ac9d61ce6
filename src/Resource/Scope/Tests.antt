-- ===== src/Resource/Scope/Tests.antt =====
-- A scope with a battery that is controlled and a unit that is not active.
use vpp_backend.Prelude.{
  ℕ, pos, ◌≡◌, refl, true, false, List, [], ◌∷◌, All, length, Result, ok, err, ltb, leb, ◌==◌, ◌+◌,
  ◌-◌, ◌*◌,
}
use Prim.Native.Nat.{◌/◌, max}
use vpp_backend.Prelude.Bytes.{Bytes, codes}
use vpp_backend.Gateway.Floats.{Floats}
use vpp_backend.Contracts.Capability.{CapabilityKind, SpecHost, SpecOf}
use vpp_backend.Resource.Scope.{
  ScopeType, NodeLifecycle, MetricAccessNeed, MetricRequirement, ScopeCu, ScopeSnapshot,
  ResolvedScope,
}
use vpp_backend.Resource.Scope.Classify.{resolve_snapshot}
use vpp_backend.Resource.Scope.Classify.Resolved.{
  FromEligible, Accounts, resolve_snapshot-Eligible, resolve_snapshot-Accounts,
}

-- Whole numbers in the place of floats; none is infinite or no number.
abbrev whole : Floats ℕ
whole = record {
  is_nan = λ v. false;
  is_inf = λ v. false;
  lt = ltb;
  le = leb;
  eq = λ a b. a == b;
  add = λ a b. a + b;
  sub = λ a b. a - b;
  mul = λ a b. a * b;
  div = λ a b. a / b;
  abs = λ a. a;
  max = max;
  zero = 0;
  relative = 0;
  absolute = 0;
}

-- A decoder that reads every spec as ones.
abbrev ones : (k : CapabilityKind) → SpecOf ℕ k
ones CapabilityKind.energy_storage = record {
  usable_energy_kwh = 1;
  max_charge_power_kw = 1;
  max_discharge_power_kw = 1;
}
ones CapabilityKind.power_generation = record {
  rated_power_kw = 1;
  min_power_kw = 1;
  max_ramp_kw_per_minute = 1;
}
ones CapabilityKind.power_consumption = 1
ones CapabilityKind.load_flexibility = record { max_reduction_kw = 1; max_increase_kw = 1 }
ones CapabilityKind.reactive_power_control = 1
ones CapabilityKind.ev_charging = 1
ones CapabilityKind.ev_vehicle_to_grid = 1

abbrev host : SpecHost ℕ
host = record { decode_strict = λ k raw. ok (ones k); quote = λ s. s }

abbrev battery : ScopeCu
battery = record {
  cu_id = codes "cu-1";
  asset_id = codes "a1";
  lifecycle = NodeLifecycle.active;
  node_version = pos 1;
  capabilities =
      record {
        capability_id = codes "energy.storage.v1";
        schema_version = pos 1;
        spec = "{}";
        enabled = true;
        version = pos 1;
      }
      ∷ [];
  bindings =
      record {
        metric_id = codes "m.v1";
        access_mode = codes "read_write";
        enabled = true;
        revision = pos 7;
      }
      ∷ [];
}

abbrev snapshot : ScopeSnapshot
snapshot = record {
  tenant_id = codes "t1";
  scope_id = codes "s1";
  root_type = ScopeType.site;
  nodes = [];
  cus = battery ∷ record battery { cu_id = codes "cu-2"; lifecycle = NodeLifecycle.disabled } ∷ [];
}

abbrev required : List MetricRequirement
required = record { metric_id = codes "m.v1"; access = MetricAccessNeed.write } ∷ []

abbrev needed : List Bytes
needed = codes "energy.storage.v1" ∷ []

abbrev nothing_resolved : ResolvedScope
nothing_resolved = record {
  scope_type = ScopeType.site;
  scope_id = [];
  resource_revision = [];
  precheck_ok = false;
  members = [];
  exclusions = [];
  precheck_failures = [];
}

abbrev value_or : {E : Type 0} → ResolvedScope → Result E ResolvedScope → ResolvedScope
value_or d (ok r) = r
value_or d (err e) = d

abbrev resolved : ResolvedScope
resolved =
    value_or nothing_resolved
      (resolve_snapshot whole host (λ s. s) snapshot ScopeType.site needed required)

resolved_lem :
    resolve_snapshot whole host (λ s. s) snapshot ScopeType.site needed required ≡ ok resolved
unfolding resolve_snapshot
resolved_lem = refl

one_member : (length resolved.members ≡ 1) × (length resolved.exclusions ≡ 1)
unfolding resolve_snapshot
one_member = (refl, refl)

resolve_snapshot-Eligible_example :
    All (FromEligible whole host needed required snapshot.cus) resolved.members
resolve_snapshot-Eligible_example =
    resolve_snapshot-Eligible whole host needed required (λ s. s) snapshot ScopeType.site
      resolved_lem

resolve_snapshot-Accounts_example : Accounts snapshot.cus resolved
resolve_snapshot-Accounts_example =
    resolve_snapshot-Accounts whole host needed required (λ s. s) snapshot ScopeType.site
      resolved_lem
