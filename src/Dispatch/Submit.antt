-- ===== src/Dispatch/Submit.antt =====
-- internal/dispatch/application/command/submit_task.go: a request becomes a task, is validated,
-- saved and started. `Uuids` gives the n-th id that `idgen.Must` makes.
pub mod Built
pub mod Start
mod Tests
use vpp_backend.Prelude.{
  ℕ, suc, ℤ, pos, leb_ℤ, String, is_blank, trim_space, is_empty_text, not, Bool, true, List, [],
  ◌∷◌, Option, none, some, Result, ok, err, if◌then◌else◌, is_empty,
}
use vpp_backend.Dispatch.Model.{
  Time, Duration, TaskType, TriggerType, FailurePolicy, TaskStatus, ActionType, ActionStatus,
  ExecutionPolicy, CommandStatus, CommandValue, ControlCommand, DispatchAction, DispatchTask, Error,
  invalid, task_not_found, tenant_required, name_required, action_required, idempotency_conflict,
}
use vpp_backend.Dispatch.Validator.{validate_task}
use vpp_backend.Dispatch.Helper.{
  Env, World, M, ◌>>=◌, start_task_and_first_action, dispatch_commands,
}

-- An enumeration's empty string is `none`.
pub record SubmitCommandDto : Type 0 where
  pub cu_code : String
  pub point_key : String
  pub value : CommandValue
  pub timeout : Duration
  pub max_retries : ℤ

pub record SubmitActionDto : Type 0 where
  pub name : String
  pub kind : Option ActionType
  pub sequence : ℤ
  pub execution_policy : Option ExecutionPolicy
  pub commands : List SubmitCommandDto

pub record SubmitTask : Type 0 where
  pub tenant_id : String
  pub name : String
  pub description : String
  pub kind : Option TaskType
  pub trigger_type : Option TriggerType
  pub actions : List SubmitActionDto
  pub idempotency_key : String

-- What the handler is built with; NewSubmitTaskHandler replaces values that are not positive.
pub record Defaults : Type 0 where
  pub command_timeout : Duration
  pub max_retries : ℤ

abbrev pub Uuids : Type 0
Uuids = ℕ → String

abbrev or_else {ℓ} : {A : Type ℓ} → Option A → A → A
or_else none d = d
or_else (some a) d = a

-- `if n <= 0 { n = d }`.
abbrev positive_or : ℤ → ℤ → ℤ
positive_or n d = if leb_ℤ n (pos 0) then d else n

unfoldable pub new_defaults : Duration → ℤ → Defaults
new_defaults timeout retries = record {
  command_timeout = positive_or timeout (pos 30_000_000_000);
  max_retries = positive_or retries (pos 3);
}

module _ (d : Defaults) (uuid : Uuids) (r : SubmitTask) where
  unfoldable pub build_command : String → String → SubmitCommandDto → ControlCommand
  build_command id action_id c = record {
    id = id;
    action_id = action_id;
    tenant_id = r.tenant_id;
    cu_code = c.cu_code;
    point_key = c.point_key;
    value = c.value;
    status = CommandStatus.pending;
    retry_count = 0;
    max_retries = positive_or c.max_retries d.max_retries;
    timeout = positive_or c.timeout d.command_timeout;
    sent_at = none;
    deadline_at = none;
    finished_at = none;
    result = none;
  }

  -- The loops carry the number of ids made so far.
  unfoldable pub build_commands : String → ℕ → List SubmitCommandDto → List ControlCommand × ℕ
  unfolding build_command
  build_commands action_id n [] = ([], n)
  build_commands action_id n (c ∷ cs) =
      let (rest, m) = build_commands action_id (suc n) cs in
      (build_command (uuid n) action_id c ∷ rest, m)

  unfoldable pub build_action :
      String → String → SubmitActionDto → List ControlCommand → DispatchAction
  build_action id task_id a commands = record {
    id = id;
    task_id = task_id;
    tenant_id = r.tenant_id;
    name = a.name;
    kind = or_else a.kind ActionType.control;
    sequence = a.sequence;
    status = ActionStatus.pending;
    execution_policy = or_else a.execution_policy ExecutionPolicy.sequential;
    commands = commands;
  }

  unfoldable pub build_actions : String → ℕ → List SubmitActionDto → List DispatchAction
  unfolding build_commands build_action
  build_actions task_id n [] = []
  build_actions task_id n (a ∷ as') =
      let (commands, m) = build_commands (uuid n) (suc n) a.commands in
      build_action (uuid n) task_id a commands ∷ build_actions task_id m as'

  unfoldable pub build_task : Time → DispatchTask
  unfolding build_actions
  build_task now = record {
    id = uuid 0;
    tenant_id = r.tenant_id;
    name = r.name;
    description = r.description;
    kind = or_else r.kind TaskType.control;
    trigger_type = or_else r.trigger_type TriggerType.manual;
    failure_policy = FailurePolicy.fail_fast;
    status = TaskStatus.pending;
    created_at = now;
    started_at = none;
    finished_at = none;
    idempotency_key = trim_space r.idempotency_key;
    actions = build_actions (uuid 0) 1 r.actions;
  }

-- What SubmitTask comes to: refused, answered with the task of an earlier request, or run.
pub data Submitted : Type 0 where
  refused : Error → Submitted
  existing : DispatchTask → Submitted
  ran : World → Result Error (Unit {0}) → Submitted

-- `lookupIdempotentTask`, of what `FindByIdempotencyKey` returns.
unfoldable lookup_idempotent_task : Result Error DispatchTask → Result Error (Option DispatchTask)
lookup_idempotent_task (ok t) = ok (some t)
lookup_idempotent_task (err task_not_found) = ok none
lookup_idempotent_task (err e) = err e

module _ (env : Env) (fuel : ℕ) (d : Defaults) (uuid : Uuids) where
  unfoldable run_task : M (Unit {0})
  unfolding start_task_and_first_action dispatch_commands
  run_task = start_task_and_first_action env >>= λ cmds. dispatch_commands env fuel cmds

  -- `saved` is what `Save` returns, and `again` what the lookup after a conflict does.
  unfoldable save_and_run :
      ℕ → Bool → Result Error (Unit {0}) → Result Error DispatchTask → DispatchTask → Submitted
  unfolding lookup_idempotent_task run_task
  save_and_run tick keyed (ok _) again t =
      let (w, r) = run_task (record { task = t; store = t; events = []; tick = tick }) in ran w r
  save_and_run tick true (err idempotency_conflict) again t = elim (lookup_idempotent_task again) [
    | err e ↦ refused e
    | ok (some other) ↦ existing other
    | ok none ↦ refused idempotency_conflict
  ]
  save_and_run tick keyed (err e) again t = refused e

  unfoldable pub validate_and_save :
      ℕ → Bool → Result Error (Unit {0}) → Result Error DispatchTask → DispatchTask → Submitted
  unfolding validate_task save_and_run
  validate_and_save tick keyed saved again t = elim (validate_task t) [
    | err e ↦ refused (invalid e)
    | ok _ ↦ save_and_run tick keyed saved again t
  ]

  -- `found` is what the first `FindByIdempotencyKey` returns.
  unfoldable pub submit_task :
      ℕ
      → Result Error DispatchTask
      → Result Error (Unit {0})
      → Result Error DispatchTask
      → SubmitTask
      → Submitted
  unfolding validate_and_save build_task lookup_idempotent_task
  submit_task tick found saved again r =
      let keyed = not (is_empty_text (trim_space r.idempotency_key)) in
      let fresh = validate_and_save tick keyed saved again (build_task d uuid r (env.now tick)) in
      if is_blank r.tenant_id
      then refused tenant_required
      else if is_blank r.name
      then refused name_required
      else if is_empty r.actions
      then refused action_required
      else if not keyed
      then fresh
      else elim (lookup_idempotent_task found) [
        | err e ↦ refused e
        | ok (some t) ↦ existing t
        | ok none ↦ fresh
      ]
