-- ===== src/Decision/Plan.antt =====
-- internal/decision/domain/plan/plan.go: a plan, its steps and commands, and their validation, with the
-- value of internal/decision/domain/model/command.go. A status is one of the constants; a time is a number,
-- 0 the zero time. Copies of values are the values.
use Prim.Native.String.{◌++◌ as append}
use vpp_backend.Prelude.{
  ℕ, suc, ◌+◌, ℤ, pos, ltb_ℤ, eqb_ℤ, String, str_eq, trim_space, is_empty_text, is_blank, Bool,
  true, false, not, ◌&&◌, ◌||◌, Option, none, some, List, [], ◌∷◌, map, is_empty, count, ◌==◌,
  if◌then◌else◌, Result, ok, err, ◌>>=◌, ◌>>◌, guard,
}
use vpp_backend.Gateway.Floats.{Floats, finite}
use vpp_backend.Decision.Tables.{PlanStatus}
use vpp_backend.Decision.Objective.{TimeWindow, PlanInvalid, validate_window, validate_power_metric}
use vpp_backend.Decision.Allocation.Limits.{SafetyConstraint}
use vpp_backend.Decision.Allocation.{Feasibility}

-- The value of a command, of which one field is set.
pub record CommandValue (F : Type 0) : Type 0 where
  pub bool_value : Option Bool
  pub int_value : Option ℤ
  pub float_value : Option F
  pub string_value : Option String

pub record PlannedCommand (F : Type 0) : Type 0 where
  pub id : String
  pub cu_code : String
  pub metric_id : String
  pub value : CommandValue F
  pub binding_revision : ℤ
  pub safety : Option (SafetyConstraint F)
  pub dispatch_task_id : String

pub record PlanStep (F : Type 0) : Type 0 where
  pub id : String
  pub ordinal : ℤ
  pub execute_at : ℕ
  pub status : PlanStatus
  pub version : ℤ
  pub commands : List (PlannedCommand F)

pub record Plan (F : Type 0) : Type 0 where
  pub id : String
  pub objective_id : String
  pub tenant_id : String
  pub policy_id : String
  pub policy_version : ℤ
  pub resource_revision : String
  pub planner_id : String
  pub planner_version : String
  pub status : PlanStatus
  pub feasibility : Feasibility
  pub unmet_power_kw : F
  pub window : TimeWindow
  pub generated_at : ℕ
  pub steps : List (PlanStep F)

abbrev pub is_rejected : PlanStatus → Bool
is_rejected PlanStatus.rejected = true
is_rejected _ = false

abbrev same_status : PlanStatus → PlanStatus → Bool
same_status PlanStatus.ready PlanStatus.ready = true
same_status PlanStatus.rejected PlanStatus.rejected = true
same_status PlanStatus.stale PlanStatus.stale = true
same_status PlanStatus.submitted PlanStatus.submitted = true
same_status _ _ = false

abbrev is_infeasible : Feasibility → Bool
is_infeasible Feasibility.infeasible = true
is_infeasible _ = false

-- Whether a map of the validation has the key.
abbrev is_seen : String → List String → Bool
is_seen key keys = not (count (str_eq key) keys == 0)

unfoldable validate_policy_ref : String → ℤ → Result PlanInvalid (Unit {0})
validate_policy_ref policy_id version =
    if is_empty_text policy_id
    then guard (eqb_ℤ version (pos 0)) PlanInvalid.unexpected_policy
    else guard (ltb_ℤ (pos 0) version) PlanInvalid.bad_policy_version

-- The ids of the commands, and their targets, a control unit and a metric.
abbrev Seen : Type 0
Seen = List String × List String

abbrev target_of : {F : Type 0} → PlannedCommand F → String
target_of c = append c.cu_code (append "\0" c.metric_id)

abbrev one_if_set {ℓ} : {A : Type ℓ} → Option A → ℕ
one_if_set none = 0
one_if_set (some a) = 1

module _ {F : Type 0} where
  unfoldable pub validate_command_value : CommandValue F → Result PlanInvalid (Unit {0})
  validate_command_value v =
      guard
        (one_if_set v.bool_value
            + one_if_set v.int_value
            + one_if_set v.float_value
            + one_if_set v.string_value
          == 1)
        PlanInvalid.no_single_value

module _ {F : Type 0} (f : Floats F) where
  abbrev finite_if_set : Option F → Bool
  unfolding finite
  finite_if_set none = true
  finite_if_set (some v) = finite f v

  abbrev is_ordered : Option F → Option F → Bool
  is_ordered (some low) (some high) = not (f.lt high low)
  is_ordered _ _ = true

  abbrev positive_if_set : Option F → Bool
  positive_if_set none = true
  positive_if_set (some v) = not (f.le v f.zero)

  unfoldable validate_safety : Option (SafetyConstraint F) → Result PlanInvalid (Unit {0})
  unfolding finite_if_set
  validate_safety none = ok tt
  validate_safety (some s) =
      guard
        (finite_if_set s.min_value
          && finite_if_set s.max_value
          && finite_if_set s.max_change_per_second)
        PlanInvalid.safety_not_finite
      >> guard (is_ordered s.min_value s.max_value) PlanInvalid.safety_crossed
      >> guard (positive_if_set s.max_change_per_second) PlanInvalid.bad_max_change
      >> guard (ltb_ℤ (pos 0) s.version) PlanInvalid.bad_safety_version

  abbrev is_finite_float : Option F → Bool
  unfolding finite
  is_finite_float none = false
  is_finite_float (some v) = finite f v

  -- A metric that is not in the table is not told from one of another kind.
  abbrev as_one_error : Result PlanInvalid (Unit {0}) → Result PlanInvalid (Unit {0})
  as_one_error (ok t) = ok t
  as_one_error (err e) = err PlanInvalid.not_a_power_setpoint

  unfoldable validate_planned_command : Seen → PlannedCommand F → Result PlanInvalid Seen
  unfolding is_blank validate_power_metric validate_command_value validate_safety is_finite_float
  validate_planned_command (ids, targets) c =
      guard (not (is_blank c.id)) PlanInvalid.missing_command_id
      >> guard (not (is_seen c.id ids)) PlanInvalid.duplicate_command
      >> guard (not (is_blank c.cu_code)) PlanInvalid.missing_cu_code
      >> as_one_error (validate_power_metric c.metric_id)
      >> validate_command_value c.value
      >> guard (is_finite_float c.value.float_value) PlanInvalid.value_not_finite
      >> guard (not (is_seen (target_of c) targets)) PlanInvalid.duplicate_target
      >> guard (ltb_ℤ (pos 0) c.binding_revision) PlanInvalid.bad_binding_revision
      >> validate_safety c.safety
      >> ok (c.id ∷ ids, target_of c ∷ targets)

  unfoldable validate_step_commands : List (PlannedCommand F) → Seen → Result PlanInvalid Seen
  unfolding validate_planned_command
  validate_step_commands [] seen = ok seen
  validate_step_commands (c ∷ cs) seen =
      validate_planned_command seen c >>= validate_step_commands cs

  -- The step at the place `n`, from 1.
  unfoldable validate_step :
      PlanStatus → ℕ → List String → PlanStep F → Result PlanInvalid (Unit {0})
  unfolding is_blank
  validate_step status n ids s =
      guard (eqb_ℤ s.ordinal (pos n)) PlanInvalid.bad_ordinal
      >> guard (not (is_blank s.id)) PlanInvalid.missing_step_id
      >> guard (not (is_seen s.id ids)) PlanInvalid.duplicate_step
      >> guard (not (s.execute_at == 0)) PlanInvalid.missing_execute_at
      >> guard (ltb_ℤ (pos 0) s.version) PlanInvalid.bad_step_version
      >> guard (same_status s.status status) PlanInvalid.status_differs
      >> guard (not (is_empty s.commands)) PlanInvalid.no_commands

  unfoldable validate_step_list :
      PlanStatus → ℕ → List String → Seen → List (PlanStep F) → Result PlanInvalid (Unit {0})
  unfolding validate_step validate_step_commands
  validate_step_list status n ids seen [] = ok tt
  validate_step_list status n ids seen (s ∷ ss) =
      validate_step status n ids s
      >> (validate_step_commands s.commands seen >>= λ seen'.
          validate_step_list status (suc n) (s.id ∷ ids) seen' ss)

  unfoldable validate_steps : PlanStatus → List (PlanStep F) → Result PlanInvalid (Unit {0})
  unfolding validate_step_list
  validate_steps status steps =
      if is_rejected status then ok tt else validate_step_list status 1 [] ([], []) steps

  abbrev check_unmet : Feasibility → F → Result PlanInvalid (Unit {0})
  check_unmet Feasibility.feasible unmet = guard (f.eq unmet f.zero) PlanInvalid.unmet_power_left
  check_unmet _ unmet = guard (not (f.le unmet f.zero)) PlanInvalid.no_unmet_power

  unfoldable validate_plan_status :
      PlanStatus → Feasibility → F → Bool → Result PlanInvalid (Unit {0})
  validate_plan_status status feasibility unmet no_steps =
      (if is_rejected status
        then (guard (is_infeasible feasibility) PlanInvalid.not_infeasible
            >> guard no_steps PlanInvalid.unexpected_steps)
        else (guard (not (is_infeasible feasibility)) PlanInvalid.not_feasible
            >> guard (not no_steps) PlanInvalid.no_steps))
      >> check_unmet feasibility unmet

  unfoldable pub validate_plan : Plan F → Result PlanInvalid (Unit {0})
  unfolding validate_policy_ref validate_window finite validate_plan_status validate_steps
  validate_plan p =
      guard (not (is_empty_text p.id)) PlanInvalid.missing_id
      >> guard (not (is_empty_text p.objective_id)) PlanInvalid.missing_objective_id
      >> guard (not (is_empty_text p.tenant_id)) PlanInvalid.missing_tenant_id
      >> validate_policy_ref p.policy_id p.policy_version
      >> guard (not (is_empty_text p.resource_revision)) PlanInvalid.missing_revision
      >> guard (not (is_empty_text p.planner_id || is_empty_text p.planner_version))
          PlanInvalid.missing_planner
      >> validate_window p.window
      >> guard (not (p.generated_at == 0)) PlanInvalid.missing_generated_at
      >> guard (finite f p.unmet_power_kw && not (f.lt p.unmet_power_kw f.zero))
          PlanInvalid.bad_unmet_power
      >> validate_plan_status p.status p.feasibility p.unmet_power_kw (is_empty p.steps)
      >> validate_steps p.status p.steps

module _ {F : Type 0} where
  trimmed_command : PlannedCommand F → PlannedCommand F
  unfolding trim_space
  trimmed_command c = record c { id = trim_space c.id; cu_code = trim_space c.cu_code }

  -- `cloneSteps`.
  trimmed_step : PlanStep F → PlanStep F
  unfolding trim_space trimmed_command
  trimmed_step s = record s { id = trim_space s.id; commands = map trimmed_command s.commands }

  trimmed_plan : Plan F → Plan F
  unfolding trim_space trimmed_step
  trimmed_plan p = record p {
    id = trim_space p.id;
    objective_id = trim_space p.objective_id;
    tenant_id = trim_space p.tenant_id;
    policy_id = trim_space p.policy_id;
    resource_revision = trim_space p.resource_revision;
    planner_id = trim_space p.planner_id;
    planner_version = trim_space p.planner_version;
    steps = map trimmed_step p.steps;
  }

  -- `NewPlan`: the parameters have the fields of a plan.
  unfoldable new_plan : Floats F → Plan F → Result PlanInvalid (Plan F)
  unfolding trimmed_plan validate_plan
  new_plan f params = let p = trimmed_plan params in validate_plan f p >> ok p
