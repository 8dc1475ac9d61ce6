-- ===== src/Decision/Save/Tests.antt =====
-- A plan of one step, saved with two commands; whole numbers stand for floats.
use vpp_backend.Prelude.{
  ℕ, ◌+◌, ◌-◌, ◌*◌, ◌≡◌, refl, pos, String, Bool, true, false, Option, none, some, [], ◌∷◌, ltb,
  leb, ◌==◌, All, inl, sym, subst, some_inj, if◌then◌else◌, Result, ok, err,
}
use Prim.Native.Nat.{◌/◌}
use vpp_backend.Gateway.Floats.{Floats}
use vpp_backend.Decision.Tables.{PlanStatus, OutboxRow, Tables}
use vpp_backend.Decision.Cooldown.{CooldownRow, CooldownView}
use vpp_backend.Decision.Objective.{PlanInvalid, PowerObjective, validate_objective}
use vpp_backend.Decision.Allocation.{Feasibility}
use vpp_backend.Decision.Plan.{CommandValue, PlannedCommand, PlanStep, Plan, validate_plan}
use vpp_backend.Decision.Save.{SaveInput, SaveError, outbox_row, save}
use vpp_backend.Prelude.Rows.{Among, select_where}
use vpp_backend.Decision.Claim.{first_due}
use vpp_backend.Decision.Save.Saved.{Saved, Handed, Unreferenced, save-Saved, save-Handed}

abbrev whole : Floats ℕ
whole = record {
  is_nan = λ v. false;
  is_inf = λ v. false;
  lt = ltb;
  le = leb;
  eq = λ a b. a == b;
  add = λ a b. a + b;
  sub = λ a b. a - b;
  mul = λ a b. a * b;
  div = λ a b. a / b;
  abs = λ v. v;
  max = λ a b. if ltb a b then b else a;
  zero = 0;
  relative = 0;
  absolute = 0;
}

abbrev objective : PowerObjective ℕ
objective = record {
  id = "o1";
  tenant_id = "t";
  scope = ("site", "s");
  metric_id = "electrical.active_power_setpoint.v1";
  target_power_kw = 12;
  window = record { start = 5; end = 9 };
  priority = pos 0;
  source = "policy";
  source_id = "src";
  idempotency_key = "k";
  policy_id = "pol";
  policy_version = pos 1;
}

abbrev command : String → String → ℕ → PlannedCommand ℕ
command id cu value = record {
  id = id;
  cu_code = cu;
  metric_id = "electrical.active_power_setpoint.v1";
  value = record {
    bool_value = none;
    int_value = none;
    float_value = some value;
    string_value = none;
  };
  binding_revision = pos 2;
  safety = none;
  dispatch_task_id = "";
}

abbrev step : String → PlannedCommand ℕ → PlannedCommand ℕ → PlanStep ℕ
step id a b = record {
  id = id;
  ordinal = pos 1;
  execute_at = 6;
  status = PlanStatus.ready;
  version = pos 1;
  commands = a ∷ b ∷ [];
}

abbrev plan : PlanStep ℕ → Plan ℕ
plan s = record {
  id = "p1";
  objective_id = "o1";
  tenant_id = "t";
  policy_id = "pol";
  policy_version = pos 1;
  resource_revision = "rev";
  planner_id = "immediate";
  planner_version = "1";
  status = PlanStatus.ready;
  feasibility = Feasibility.feasible;
  unmet_power_kw = 0;
  window = record { start = 5; end = 9 };
  generated_at = 4;
  steps = s ∷ [];
}

abbrev planned_step : PlanStep ℕ
planned_step = step "s1" (command "c1" "a" 5) (command "c2" "b" 7)

abbrev any_order : String → String → Bool
any_order a b = false

abbrev input : SaveInput ℕ
input = record {
  objective = some objective;
  plan = some (plan planned_step);
  direction = "discharge";
  now = 4;
  cooldown_until = 20;
}

abbrev empty : Tables (CommandValue ℕ)
empty = record {
  outbox = [];
  plans = [];
  steps = [];
  objectives = [];
  commands = [];
  executions = [];
}

abbrev no_row : ℕ → CooldownView
no_row i = (none, none)

abbrev row_ids : ℕ → String
row_ids n = "r1"

abbrev saved : Result SaveError (Tables (CommandValue ℕ) × Option CooldownRow)
unfolding save validate_objective validate_plan
saved = save whole true row_ids no_row input empty

-- What the save returns; the default is never reached.
abbrev result : Tables (CommandValue ℕ) × Option CooldownRow
unfolding save validate_objective validate_plan
result = elim saved [ ok r ↦ r | err e ↦ (empty, none) ]

result_lem : save whole true row_ids no_row input empty ≡ ok result
unfolding save validate_objective validate_plan
result_lem = refl

-- Two commands with one target are refused.
twice_the_target :
    validate_plan whole (plan (step "s1" (command "c1" "a" 5) (command "c2" "a" 7)))
    ≡ err PlanInvalid.duplicate_target
unfolding validate_plan
twice_the_target = refl

save-Saved_example : Saved whole no_row input empty result.0 result.1
save-Saved_example = save-Saved whole row_ids no_row input true empty result.0 result.1 result_lem

abbrev the_row : OutboxRow
the_row = outbox_row "r1" (plan planned_step) planned_step

no_step_named : (p : Plan ℕ) → input.plan ≡ some p → All (Unreferenced empty) p.steps
unfolding select_where
no_step_named p e =
    subst (λ (q : Plan ℕ). All (Unreferenced empty) q.steps) (some_inj.0 e) ((refl, refl), tt)

queued_lem : result.0.outbox ≡ the_row ∷ []
unfolding save validate_objective validate_plan
queued_lem = refl

due_lem : first_due (the_row ∷ []) 6 ≡ some the_row
unfolding first_due
due_lem = refl

save-Handed_example : Handed input result.0 any_order (the_row ∷ []) "e1" "w1" 6 5 the_row
save-Handed_example =
    save-Handed whole row_ids no_row input true empty result.0 result.1 result_lem any_order
      (the_row ∷ []) "e1" "w1" 6 5 the_row no_step_named
      (subst (Among the_row) (sym queued_lem) (inl refl)) (λ m. m) due_lem
