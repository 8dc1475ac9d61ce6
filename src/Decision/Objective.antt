-- ===== src/Decision/Objective.antt =====
-- internal/decision/domain/objective/objective.go: a power objective and its validation, with the scope of
-- internal/decision/domain/policy/policy.go. A time is a number, 0 the zero time; a pointer to an objective
-- is never nil here.
use vpp_backend.Prelude.{
  ℕ, ℤ, pos, ltb_ℤ, eqb_ℤ, String, str_eq, is_empty_text, is_blank, trim_space, Bool, true, false,
  not, ◌&&◌, ◌||◌, none, some, ltb, ◌==◌, if◌then◌else◌, Result, ok, err, ◌>>◌, guard,
}
use vpp_backend.Contracts.{ValueKind, MetricDescriptor, lookup_metric}
use vpp_backend.Gateway.Floats.{Floats, finite}

pub record TimeWindow : Type 0 where
  pub start : ℕ
  pub end : ℕ

pub record PowerObjective (F : Type 0) : Type 0 where
  pub id : String
  pub tenant_id : String
  pub scope : String × String
  pub metric_id : String
  pub target_power_kw : F
  pub window : TimeWindow
  pub priority : ℤ
  pub source : String
  pub source_id : String
  pub idempotency_key : String
  pub policy_id : String
  pub policy_version : ℤ

-- What can be wrong with an objective or a plan.
pub data PlanInvalid : Type 0 where
  missing_id missing_tenant_id bad_scope_type missing_scope_id missing_window : PlanInvalid
  empty_window negative_priority unknown_source missing_source_id : PlanInvalid
  missing_idempotency_key unknown_metric not_a_power_setpoint bad_target : PlanInvalid
  missing_policy_id bad_policy_version unexpected_policy : PlanInvalid
  missing_objective_id missing_revision missing_planner missing_generated_at : PlanInvalid
  bad_unmet_power not_feasible no_steps not_infeasible unexpected_steps : PlanInvalid
  unmet_power_left no_unmet_power bad_ordinal missing_step_id duplicate_step : PlanInvalid
  missing_execute_at bad_step_version status_differs no_commands : PlanInvalid
  missing_command_id duplicate_command missing_cu_code no_single_value : PlanInvalid
  value_not_finite duplicate_target bad_binding_revision safety_not_finite : PlanInvalid
  safety_crossed bad_max_change bad_safety_version : PlanInvalid

unfoldable pub validate_window : TimeWindow → Result PlanInvalid (Unit {0})
validate_window w =
    guard (not (w.start == 0 || w.end == 0)) PlanInvalid.missing_window
    >> guard (ltb w.start w.end) PlanInvalid.empty_window

-- `TargetScope.Validate`.
unfoldable validate_scope : String × String → Result PlanInvalid (Unit {0})
unfolding is_blank
validate_scope (scope_type, id) =
    guard (str_eq scope_type "site" || str_eq scope_type "asset" || str_eq scope_type "cu")
      PlanInvalid.bad_scope_type
    >> guard (not (is_blank id)) PlanInvalid.missing_scope_id

abbrev is_source : String → Bool
is_source s =
    str_eq s "policy"
    || str_eq s "manual"
    || str_eq s "demand_response"
    || str_eq s "market"
    || str_eq s "external"

-- A writable power setpoint in kW.
abbrev is_power_setpoint : MetricDescriptor → Bool
is_power_setpoint d =
    (elim d.value_kind [ ValueKind.float64 ↦ true | _ ↦ false ])
    && d.writable
    && str_eq d.canonical_unit "kW"

unfoldable pub validate_power_metric : String → Result PlanInvalid (Unit {0})
unfolding lookup_metric
validate_power_metric id = elim (lookup_metric id) [
  | none ↦ err PlanInvalid.unknown_metric
  | some d ↦ guard (is_power_setpoint d) PlanInvalid.not_a_power_setpoint
]

module _ {F : Type 0} where
  -- The reference to a policy, of an objective from a policy and of any other.
  unfoldable validate_objective_policy : PowerObjective F → Result PlanInvalid (Unit {0})
  validate_objective_policy o =
      if str_eq o.source "policy"
      then (guard (not (is_empty_text o.policy_id)) PlanInvalid.missing_policy_id
          >> guard (ltb_ℤ (pos 0) o.policy_version) PlanInvalid.bad_policy_version)
      else guard (is_empty_text o.policy_id && eqb_ℤ o.policy_version (pos 0))
          PlanInvalid.unexpected_policy

  unfoldable pub validate_objective : Floats F → PowerObjective F → Result PlanInvalid (Unit {0})
  unfolding validate_scope validate_window validate_power_metric validate_objective_policy finite
  validate_objective f o =
      guard (not (is_empty_text o.id)) PlanInvalid.missing_id
      >> guard (not (is_empty_text o.tenant_id)) PlanInvalid.missing_tenant_id
      >> validate_scope o.scope
      >> validate_window o.window
      >> guard (not (ltb_ℤ o.priority (pos 0))) PlanInvalid.negative_priority
      >> guard (is_source o.source) PlanInvalid.unknown_source
      >> guard (not (is_empty_text o.source_id)) PlanInvalid.missing_source_id
      >> guard (not (is_empty_text o.idempotency_key)) PlanInvalid.missing_idempotency_key
      >> validate_power_metric o.metric_id
      >> guard (finite f o.target_power_kw && not (f.eq o.target_power_kw f.zero))
          PlanInvalid.bad_target
      >> validate_objective_policy o

  trimmed_objective : PowerObjective F → PowerObjective F
  unfolding trim_space
  trimmed_objective o = record o {
    id = trim_space o.id;
    tenant_id = trim_space o.tenant_id;
    scope = (o.scope.0, trim_space o.scope.1);
    source_id = trim_space o.source_id;
    idempotency_key = trim_space o.idempotency_key;
    policy_id = trim_space o.policy_id;
  }

  -- `NewPowerObjective`: the parameters have the fields of an objective.
  unfoldable new_power_objective :
      Floats F → PowerObjective F → Result PlanInvalid (PowerObjective F)
  unfolding trimmed_objective validate_objective
  new_power_objective f params = let o = trimmed_objective params in validate_objective f o >> ok o
