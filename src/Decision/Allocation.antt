-- ===== src/Decision/Allocation.antt =====
-- internal/decision/domain/allocation/heuristic.go: the split of a power target over the control units of
-- a scope, and `SetpointBinding` of internal/decision/domain/context/storage.go. IEEE arithmetic is a
-- parameter. What `Validate` of the context answers is an argument, as is what `EnergyStorageSpec` reads
-- from the JSON of a member. The order of commands of one control unit is not modelled.
pub mod Distribute
pub mod Limits
pub mod Bounded
pub mod Clamp
pub mod Safe
mod Tests
use vpp_backend.Prelude.{
  ℤ, pos, ltb_ℤ, String, str_eq, Bool, true, false, ◌&&◌, Option, none, some, List, [], ◌∷◌, map,
  if◌then◌else◌, Result, is_ok, ok, err, guard, ◌>>◌, ◌>>=◌,
}
use vpp_backend.Prelude.Sort.{sort}
use vpp_backend.Contracts.Capability.{EnergyStorageSpec}
use vpp_backend.Decision.Execute.{BindingAccess}
use vpp_backend.Decision.Objective.{PowerObjective, validate_objective}
use vpp_backend.Decision.Allocation.Limits.{
  SafetyConstraint, clamp_setpoint, direction_cap, headroom_kwh, recorded_safety,
}
use vpp_backend.Decision.Allocation.Distribute.{PowerFloats, Slot, distribute}

pub record MemberBinding (F : Type 0) : Type 0 where
  pub metric_id : String
  pub access_mode : BindingAccess
  pub enabled : Bool
  pub revision : ℤ
  pub safety : Option (SafetyConstraint F)

pub record Member (F : Type 0) : Type 0 where
  pub cu_id : String
  pub spec : Option (EnergyStorageSpec F)
  pub bindings : List (MemberBinding F)

-- The metrics that a control unit reports.
pub record UnitState (F : Type 0) : Type 0 where
  pub cu_code : String
  pub metrics : List (String × F)

pub record DecisionContext (F : Type 0) : Type 0 where
  pub tenant_id : String
  pub scope : String × String
  pub members : List (Member F)
  pub units : List (UnitState F)

pub data AllocateError : Type 0 where
  invalid scope_mismatch wrong_metric no_spec no_binding no_state_of_charge stuck : AllocateError

pub data Feasibility : Type 0 where
  feasible partially_feasible infeasible : Feasibility

pub record AllocatedCommand (F : Type 0) : Type 0 where
  pub cu_code : String
  pub value : F
  pub binding_revision : ℤ
  pub safety : Option (SafetyConstraint F)

pub record Allocation (F : Type 0) : Type 0 where
  pub feasibility : Feasibility
  pub unmet_power_kw : F
  pub commands : List (AllocatedCommand F)

-- `candidate`.
pub record Candidate (F : Type 0) : Type 0 where
  pub cu_id : String
  pub binding : MemberBinding F
  pub cap : F
  pub weight : F

abbrev pub setpoint_metric : String
setpoint_metric = "electrical.active_power_setpoint.v1"

abbrev soc_metric : String
soc_metric = "energy_storage.state_of_charge.v1"

abbrev pub found {ℓ} : {A : Type ℓ} → AllocateError → Option A → Result AllocateError A
found e none = err e
found e (some a) = ok a

abbrev pub writes : BindingAccess → Bool
writes BindingAccess.write = true
writes BindingAccess.read_write = true
writes _ = false

module _ {F : Type 0} where
  unfoldable pub setpoint_binding : List (MemberBinding F) → Option (MemberBinding F)
  setpoint_binding [] = none
  setpoint_binding (b ∷ bs) =
      let rest = setpoint_binding bs in
      if str_eq b.metric_id setpoint_metric
        && b.enabled
        && ltb_ℤ (pos 0) b.revision
        && writes b.access_mode
      then some b
      else rest

  -- The last sample of the metric in the order of the loop.
  abbrev last_soc : List (String × F) → Option F
  last_soc [] = none
  last_soc ((metric_id, value) ∷ samples) = elim (last_soc samples) [
    | some v ↦ some v
    | none ↦ if str_eq metric_id soc_metric then some value else none
  ]

  -- `socByCU[cu]`: a later unit replaces an earlier one.
  unfoldable pub soc_of : String → List (UnitState F) → Option F
  soc_of cu [] = none
  soc_of cu (u ∷ units) = elim (soc_of cu units) [
    | some v ↦ some v
    | none ↦ if str_eq u.cu_code cu then last_soc u.metrics else none
  ]

module _ {F : Type 0} (p : PowerFloats F) where
  unfoldable pub candidate_of :
      Bool → List (UnitState F) → Member F → Result AllocateError (Candidate F)
  unfolding setpoint_binding soc_of direction_cap headroom_kwh recorded_safety
  candidate_of discharge units m = found AllocateError.no_spec m.spec >>= λ spec.
      found AllocateError.no_binding (setpoint_binding m.bindings) >>= λ binding.
      found AllocateError.no_state_of_charge (soc_of m.cu_id units) >>= λ soc. ok (record {
        cu_id = m.cu_id;
        binding = binding;
        cap = direction_cap p spec (recorded_safety binding.safety) discharge;
        weight = headroom_kwh p soc spec.usable_energy_kwh discharge;
      })

  unfoldable pub candidates :
      Bool → List (UnitState F) → List (Member F) → Result AllocateError (List (Candidate F))
  unfolding candidate_of
  candidates discharge units [] = ok []
  candidates discharge units (m ∷ ms) =
      candidate_of discharge units m >>= λ c. candidates discharge units ms >>= λ cs. ok (c ∷ cs)

  abbrev pub signed_power : Bool → F → F
  signed_power true assigned = assigned
  signed_power false assigned = p.neg assigned

  -- The command of a candidate, where it is worth one.
  unfoldable pub command_of : Bool → Candidate F → F → Option (AllocatedCommand F)
  unfolding clamp_setpoint recorded_safety
  command_of discharge c assigned =
      if p.floats.le assigned p.eps
      then none
      else elim (clamp_setpoint p (signed_power discharge assigned)
          (recorded_safety c.binding.safety)) [
            | none ↦ none
            | some v ↦
                if p.floats.le (p.floats.abs v) p.eps
                then none
                else some (record {
                  cu_code = c.cu_id;
                  value = v;
                  binding_revision = c.binding.revision;
                  safety = recorded_safety c.binding.safety;
                })
          ]

  abbrev with_command :
      Option (AllocatedCommand F) → List (AllocatedCommand F) → List (AllocatedCommand F)
  with_command none cs = cs
  with_command (some c) cs = c ∷ cs

  unfoldable pub commands_of : Bool → List (Candidate F) → List (Slot F) → List (AllocatedCommand F)
  unfolding command_of
  commands_of discharge [] slots = []
  commands_of discharge (c ∷ cs) [] = []
  commands_of discharge (c ∷ cs) (s ∷ slots) =
      with_command (command_of discharge c s.assigned) (commands_of discharge cs slots)

  unfoldable pub delivered : F → List (AllocatedCommand F) → F
  delivered sum [] = sum
  delivered sum (c ∷ cs) = delivered (p.floats.add sum (p.floats.abs c.value)) cs

  -- The result for the commands in the order of the candidates.
  unfoldable pub outcome : (String → String → Bool) → F → List (AllocatedCommand F) → Allocation F
  unfolding delivered sort
  outcome id_less target commands =
      let sum = delivered p.floats.zero commands in
      let gap = p.floats.sub target sum in
      let unmet = if p.floats.lt gap p.eps then p.floats.zero else gap in
      let sorted = sort (λ (a b : AllocatedCommand F). id_less a.cu_code b.cu_code) commands in
      if p.floats.le sum p.eps
      then record { feasibility = Feasibility.infeasible; unmet_power_kw = target; commands = [] }
      else if p.floats.lt p.floats.zero unmet
      then record {
        feasibility = Feasibility.partially_feasible;
        unmet_power_kw = unmet;
        commands = sorted;
      }
      else record {
        feasibility = Feasibility.feasible;
        unmet_power_kw = p.floats.zero;
        commands = sorted;
      }

  abbrev pub inputs_of : List (Candidate F) → List (F × F)
  inputs_of = map (λ (c : Candidate F). (c.cap, c.weight))

  -- After the candidates are there; `stuck` does not happen (Bounded).
  unfoldable pub allocate_among :
      (String → String → Bool) → Bool → F → List (Candidate F) → Result AllocateError (Allocation F)
  unfolding distribute commands_of outcome
  allocate_among id_less discharge target cs = elim (distribute p target (inputs_of cs)) [
    | none ↦ err AllocateError.stuck
    | some slots ↦ ok (outcome id_less target (commands_of discharge cs slots))
  ]

  -- `Allocate`; `valid` is what the validation of the context answers.
  unfoldable pub allocate :
      (String → String → Bool)
      → Bool
      → PowerObjective F
      → DecisionContext F
      → Result AllocateError (Allocation F)
  unfolding validate_objective candidates allocate_among
  allocate id_less valid obj dc =
      let discharge = p.floats.lt p.floats.zero obj.target_power_kw in
      guard (is_ok (validate_objective p.floats obj)) AllocateError.invalid
      >> guard valid AllocateError.invalid
      >> guard
          (str_eq obj.tenant_id dc.tenant_id
            && str_eq obj.scope.0 dc.scope.0
            && str_eq obj.scope.1 dc.scope.1)
          AllocateError.scope_mismatch
      >> guard (str_eq obj.metric_id setpoint_metric) AllocateError.wrong_metric
      >> (candidates discharge dc.units dc.members
          >>= allocate_among id_less discharge (p.floats.abs obj.target_power_kw))
