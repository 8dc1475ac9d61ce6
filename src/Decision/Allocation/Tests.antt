-- ===== src/Decision/Allocation/Tests.antt =====
-- Twelve kilowatts over two units, of which the first takes five; whole numbers stand for floats.
use Prim.Native.Nat.{◌/◌}
use vpp_backend.Prelude.{
  ℕ, ◌-◌, ◌*◌, ◌+◌, ◌≡◌, refl, pos, String, Bool, true, false, All, none, some, List, [], ◌∷◌, map,
  ltb, leb, ◌==◌, if◌then◌else◌, ok, arith,
}
use vpp_backend.Decision.Execute.{BindingAccess}
use vpp_backend.Decision.Objective.{PowerObjective}
use vpp_backend.Decision.Allocation.Distribute.{PowerFloats, Slot, new_slot, distribute}
use vpp_backend.Decision.Allocation.Bounded.{slot_cap, Distributed, distribute-Distributed}
use vpp_backend.Decision.Allocation.Clamp.{ConsistentMember}
use vpp_backend.Decision.Allocation.Safe.{Safe, allocate-Safe}
use vpp_backend.Decision.Allocation.{
  Member, UnitState, DecisionContext, Feasibility, AllocatedCommand, Allocation, allocate,
}
use vpp_backend.Decision.Allocation.Limits.{SafetyConstraint, recorded_safety}

abbrev whole : PowerFloats ℕ
whole = record {
  floats = record {
    is_nan = λ v. false;
    is_inf = λ v. false;
    lt = ltb;
    le = leb;
    eq = λ a b. a == b;
    add = λ a b. a + b;
    sub = λ a b. a - b;
    mul = λ a b. a * b;
    div = λ a b. a / b;
    abs = λ v. v;
    max = λ a b. if ltb a b then b else a;
    zero = 0;
    relative = 0;
    absolute = 0;
  };
  neg = λ v. 0;
  eps = 0;
  hundred = 100;
}

abbrev limits : SafetyConstraint ℕ
limits = record {
  min_value = some 0;
  max_value = some 30;
  max_change_per_second = none;
  version = pos 1;
}

abbrev unit : String → ℕ → Member ℕ
unit id power = record {
  cu_id = id;
  spec = some (record {
    usable_energy_kwh = 100;
    max_charge_power_kw = power;
    max_discharge_power_kw = power;
  });
  bindings =
      record {
        metric_id = "electrical.active_power_setpoint.v1";
        access_mode = BindingAccess.write;
        enabled = true;
        revision = pos 2;
        safety = some limits;
      }
      ∷ [];
}

abbrev half_full : String → UnitState ℕ
half_full id = record { cu_code = id; metrics = ("energy_storage.state_of_charge.v1", 50) ∷ [] }

abbrev context : DecisionContext ℕ
context = record {
  tenant_id = "t";
  scope = ("site", "s");
  members = unit "a" 5 ∷ unit "b" 20 ∷ [];
  units = half_full "a" ∷ half_full "b" ∷ [];
}

abbrev objective : PowerObjective ℕ
objective = record {
  id = "o";
  tenant_id = "t";
  scope = ("site", "s");
  metric_id = "electrical.active_power_setpoint.v1";
  target_power_kw = 12;
  window = record { start = 1; end = 2 };
  priority = pos 0;
  source = "manual";
  source_id = "m";
  idempotency_key = "k";
  policy_id = "";
  policy_version = pos 0;
}

abbrev command : String → ℕ → AllocatedCommand ℕ
command id value = record {
  cu_code = id;
  value = value;
  binding_revision = pos 2;
  safety = some limits;
}

abbrev keep_order : String → String → Bool
keep_order a b = false

abbrev allocated : Allocation ℕ
allocated = record {
  feasibility = Feasibility.feasible;
  unmet_power_kw = 0;
  commands = command "a" 5 ∷ command "b" 7 ∷ [];
}

allocated_lem : allocate whole keep_order true objective context ≡ ok allocated
unfolding allocate
allocated_lem = refl

ltb_irreflexive : (v : ℕ) → ltb v v ≡ false
ltb_irreflexive v = ground arith

context-ConsistentMember : All (ConsistentMember whole) context.members
unfolding recorded_safety
context-ConsistentMember = ((refl, tt), ((refl, tt), tt))

allocate-Safe_example : All (Safe whole true context.members) allocated.commands
allocate-Safe_example =
    allocate-Safe whole ltb_irreflexive keep_order true objective context allocated
      context-ConsistentMember allocated_lem

distribute-Distributed_example :
    (out : List (Slot ℕ)) × (distribute whole 12 ((5, 50) ∷ (20, 50) ∷ []) ≡ some out)
    × Distributed whole (map slot_cap (map (new_slot whole) ((5, 50) ∷ (20, 50) ∷ []))) out
distribute-Distributed_example = distribute-Distributed whole 12 ((5, 50) ∷ (20, 50) ∷ [])
