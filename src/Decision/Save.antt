-- ===== src/Decision/Save.antt =====
-- internal/decision/adapter/outbound/postgres: `Save` of plan_repository.go, the transaction that writes an
-- objective, its plan and the outbox, with the rows of models_plan.go as far as execution reads them. The
-- primary keys are checked; `accepts` is whether the database takes the rows by its other constraints and
-- works. The ids of the outbox rows are a parameter, by the place of the step.
pub mod Created
pub mod Steps
pub mod Queued
pub mod Parts
pub mod Saved
mod Tests
use vpp_backend.Prelude.{
  ℕ, suc, pos_part, eqb_ℤ, String, str_eq, is_empty_text, Bool, true, not, ◌&&◌, ◌||◌, Option, none,
  some, List, [], ◌∷◌, ltb, count, ◌==◌, if◌then◌else◌, Result, ok, err, ◌>>=◌, ◌>>◌, guard,
}
use vpp_backend.Gateway.Floats.{Floats}
use vpp_backend.Decision.Tables.{
  OutboxStatus, OutboxRow, PlanRow, StepRow, ObjectiveRow, CommandRow, Tables, is_ready,
}
use vpp_backend.Decision.Cooldown.{
  CooldownKey, CooldownRow, CooldownError, CooldownView, nullable_id, write_cooldown,
}
use vpp_backend.Decision.Objective.{PowerObjective, PlanInvalid, validate_objective}
use vpp_backend.Decision.Plan.{
  CommandValue, PlannedCommand, PlanStep, Plan, is_rejected, validate_plan, validate_command_value,
}

-- A nil pointer is none.
pub record SaveInput (F : Type 0) : Type 0 where
  pub objective : Option (PowerObjective F)
  pub plan : Option (Plan F)
  pub direction : String
  pub now : ℕ
  pub cooldown_until : ℕ

pub data SaveError : Type 0 where
  missing_input missing_now identity_differs policy_differs window_differs : SaveError
  missing_policy unknown_direction until_not_after_now : SaveError
  duplicate_key database cooldown_held : SaveError
  invalid : PlanInvalid → SaveError
  cooldown : CooldownError → SaveError

abbrev pub or_invalid {ℓ} : {A : Type ℓ} → Result PlanInvalid A → Result SaveError A
or_invalid (ok a) = ok a
or_invalid (err e) = err (SaveError.invalid e)

abbrev pub or_cooldown {ℓ} : {A : Type ℓ} → Result CooldownError A → Result SaveError A
or_cooldown (ok a) = ok a
or_cooldown (err e) = err (SaveError.cooldown e)

abbrev pub given {ℓ} : {A : Type ℓ} → Option A → Result SaveError A
given none = err SaveError.missing_input
given (some a) = ok a

-- `Create` of a row by its primary key.
unfoldable pub create {ℓ} : {A : Type ℓ} → (A → String) → A → List A → Result SaveError (List A)
create key row rows =
    guard (count (λ r. str_eq (key r) (key row)) rows == 0) SaveError.duplicate_key
    >> ok (row ∷ rows)

-- The keys of the tables.
abbrev pub objective_key : ObjectiveRow → String
objective_key r = r.id

abbrev pub plan_key : PlanRow → String
plan_key r = r.id

abbrev pub step_key : StepRow → String
step_key r = r.id

abbrev pub command_key : {V : Type 0} → CommandRow V → String
command_key r = r.id

abbrev pub outbox_key : OutboxRow → String
outbox_key r = r.id

module _ {F : Type 0} where
  abbrev pub objective_row : PowerObjective F → ObjectiveRow
  objective_row o = record { id = o.id; scope_type = o.scope.0; scope_id = o.scope.1 }

  abbrev pub plan_row : Plan F → PlanRow
  plan_row p = record {
    id = p.id;
    objective_id = p.objective_id;
    policy_id = nullable_id p.policy_id;
    resource_revision = p.resource_revision;
    status = p.status;
  }

  -- A version and a revision that passed the validation are positive.
  abbrev pub step_row : String → PlanStep F → StepRow
  step_row plan_id s = record {
    id = s.id;
    plan_id = plan_id;
    status = s.status;
    version = pos_part s.version;
    dispatch_task_id = "";
  }

  -- Of a value with one field set the row keeps that field with its kind, which is the value.
  abbrev pub command_row : String → PlannedCommand F → CommandRow (CommandValue F)
  command_row step_id c = record {
    id = c.id;
    step_id = step_id;
    cu_code = c.cu_code;
    metric_id = c.metric_id;
    value = c.value;
    binding_revision = pos_part c.binding_revision;
    dispatch_task_id = c.dispatch_task_id;
  }

  abbrev pub outbox_row : String → Plan F → PlanStep F → OutboxRow
  outbox_row id p s = record {
    id = id;
    tenant_id = p.tenant_id;
    plan_id = p.id;
    step_id = s.id;
    available_at = s.execute_at;
    status = OutboxStatus.pending;
    claimed_by = "";
    lease_until = none;
    lease_token = 0;
  }

  unfoldable pub create_commands :
      String
      → List (PlannedCommand F)
      → List (CommandRow (CommandValue F))
      → Result SaveError (List (CommandRow (CommandValue F)))
  unfolding create validate_command_value
  create_commands step_id [] rows = ok rows
  create_commands step_id (c ∷ cs) rows =
      or_invalid (validate_command_value c.value)
      >> (create command_key (command_row step_id c) rows >>= create_commands step_id cs)

  unfoldable pub create_steps :
      String
      → List (PlanStep F)
      → Tables (CommandValue F)
      → Result SaveError (Tables (CommandValue F))
  unfolding create create_commands
  create_steps plan_id [] t = ok t
  create_steps plan_id (s ∷ ss) t = create step_key (step_row plan_id s) t.steps >>= λ steps.
      create_commands s.id s.commands t.commands >>= λ commands.
      create_steps plan_id ss (record t { steps = steps; commands = commands })

  -- The rows of the objective and the plan. The row of the power objective, which execution does not
  -- read, is left out.
  unfoldable pub create_plan :
      PowerObjective F
      → Plan F
      → Tables (CommandValue F)
      → Result SaveError (Tables (CommandValue F))
  unfolding create create_steps
  create_plan o p t = create objective_key (objective_row o) t.objectives >>= λ objectives.
      create plan_key (plan_row p) t.plans >>= λ plans.
      create_steps p.id p.steps (record t { objectives = objectives; plans = plans })

  unfoldable pub queue_step :
      String → Plan F → PlanStep F → List OutboxRow → Result SaveError (List OutboxRow)
  unfolding create
  queue_step id p s rows =
      if is_ready s.status then create outbox_key (outbox_row id p s) rows else ok rows

  unfoldable pub queue_steps :
      (ℕ → String)
      → ℕ
      → Plan F
      → List (PlanStep F)
      → List OutboxRow
      → Result SaveError (List OutboxRow)
  unfolding queue_step
  queue_steps ids n p [] rows = ok rows
  queue_steps ids n p (s ∷ ss) rows = queue_step (ids n) p s rows >>= queue_steps ids (suc n) p ss

  abbrev pub cooldown_key : Plan F → String → CooldownKey
  cooldown_key p direction = record {
    tenant_id = p.tenant_id;
    policy_id = p.policy_id;
    direction = direction;
  }

  abbrev same_window : PowerObjective F → Plan F → Bool
  same_window o p = o.window.start == p.window.start && o.window.end == p.window.end

  -- What an executable plan needs beyond one that is only kept.
  unfoldable pub check_trigger : SaveInput F → Plan F → Result SaveError (Unit {0})
  check_trigger input p =
      if is_rejected p.status
      then ok tt
      else (guard (not (is_empty_text p.policy_id)) SaveError.missing_policy
          >> guard (str_eq input.direction "charge" || str_eq input.direction "discharge")
              SaveError.unknown_direction
          >> guard (ltb input.now input.cooldown_until) SaveError.until_not_after_now)

  -- That the plan is one for the objective.
  unfoldable pub check_link : PowerObjective F → Plan F → Result SaveError (Unit {0})
  check_link o p =
      guard (str_eq o.id p.objective_id && str_eq o.tenant_id p.tenant_id)
        SaveError.identity_differs
      >> guard (str_eq o.policy_id p.policy_id && eqb_ℤ o.policy_version p.policy_version)
          SaveError.policy_differs
      >> guard (same_window o p) SaveError.window_differs

  unfoldable pub validate_save :
      Floats F → SaveInput F → Result SaveError (PowerObjective F × Plan F)
  unfolding check_link check_trigger
  validate_save f input = given input.objective >>= λ o. given input.plan >>= λ p.
      (or_invalid (validate_objective f o)
        >> or_invalid (validate_plan f p)
        >> guard (not (input.now == 0)) SaveError.missing_now
        >> check_link o p
        >> check_trigger input p
        >> ok (o, p))

  -- After the answer of the cooldown: the outbox.
  unfoldable pub take_window :
      (ℕ → String)
      → Plan F
      → Tables (CommandValue F)
      → Option CooldownRow
      → Result SaveError (Tables (CommandValue F) × Option CooldownRow)
  unfolding queue_steps
  take_window ids p t none = err SaveError.cooldown_held
  take_window ids p t (some row) =
      queue_steps ids 0 p p.steps t.outbox >>= λ outbox. ok (record t { outbox = outbox }, some row)

  -- After the plan is there: the window of the cooldown and the outbox, for a plan that is not rejected.
  unfoldable pub trigger :
      (ℕ → String)
      → (ℕ → CooldownView)
      → SaveInput F
      → PowerObjective F
      → Plan F
      → Tables (CommandValue F)
      → Result SaveError (Tables (CommandValue F) × Option CooldownRow)
  unfolding write_cooldown take_window
  trigger ids views input o p t =
      if is_rejected p.status
      then ok (t, none)
      else (or_cooldown (
            write_cooldown (cooldown_key p input.direction) input.now input.cooldown_until o.id p.id
              true views)
          >>= take_window ids p t)

  -- `Save`: the tables and the row of the cooldown, where one was written.
  unfoldable pub save :
      Floats F
      → Bool
      → (ℕ → String)
      → (ℕ → CooldownView)
      → SaveInput F
      → Tables (CommandValue F)
      → Result SaveError (Tables (CommandValue F) × Option CooldownRow)
  unfolding validate_save create_plan trigger
  save f accepts ids views input t = validate_save f input >>= λ (o, p).
      create_plan o p t >>= λ saved.
      (guard accepts SaveError.database >> trigger ids views input o p saved)
