-- ===== src/Dispatch/Tests.antt =====
-- A task with two actions, and the theorems of the dispatch service at it.
use vpp_backend.Prelude.{
  ℕ, pos, ◌≡◌, refl, inl, String, true, List, [], ◌∷◌, none, some, ok, Ensures, Either, arith,
  str_eq_iff,
}
use vpp_backend.Dispatch.Model.{
  TaskType, TriggerType, FailurePolicy, TaskStatus, ActionType, ActionStatus, ExecutionPolicy,
  CommandStatus, CommandValue, ControlCommand, DispatchAction, DispatchTask,
}
use vpp_backend.Dispatch.Command.{new_success_result, new_failure_result}
use vpp_backend.Dispatch.Task.{Found}
use vpp_backend.Dispatch.Task
use vpp_backend.Dispatch.Invariant.{TaskInv, IsSettled}
use vpp_backend.Dispatch.Dispatcher.{on_command_result, on_command_timeout, cancel}
use vpp_backend.Dispatch.Dispatcher.Advance.{Advanced}
use vpp_backend.Dispatch.Dispatcher.Recorded.{Recorded}
use vpp_backend.Dispatch.Dispatcher.Results.{
  Holds, TimedOut, with_result, on_command_result-Advanced, on_command_result-IsSettled,
  on_command_timeout-Advanced,
}
use vpp_backend.Dispatch.Dispatcher.Cancellation.{withdrawn, cancel-withdrawn}
use vpp_backend.Dispatch.Dispatcher.Progress.{Genuine, Bounded}
use vpp_backend.Dispatch.Dispatcher.Next.{AllWait, on_command_result-Waits}
use vpp_backend.Dispatch.Handlers.{handle_command_result, handle_expired}
use vpp_backend.Dispatch.Handlers.Ends.{HasEnded, handlers-HasEnded}
use vpp_backend.Dispatch.Task.Order.{Selects, next_pending_action-Selects}
use vpp_backend.Dispatch.Helper.{Env, World, GatewayReply, GatewayStatus, dispatch_commands}
use vpp_backend.Dispatch.Helper.Loop.{dispatch_commands-ends}

abbrev switch_on : CommandValue
switch_on = record {
  bool_value = some true;
  int_value = none;
  float_value = none;
  string_value = none;
}

abbrev command : String → String → CommandStatus → ControlCommand
command id action_id status = record {
  id = id;
  action_id = action_id;
  tenant_id = "t1";
  cu_code = "cu-1";
  point_key = "switch";
  value = switch_on;
  status = status;
  retry_count = 0;
  max_retries = pos 3;
  timeout = pos 30;
  sent_at = none;
  deadline_at = none;
  finished_at = none;
  result = none;
}

abbrev action : String → ExecutionPolicy → ActionStatus → ℕ → List ControlCommand → DispatchAction
action id policy status sequence commands = record {
  id = id;
  task_id = "task";
  tenant_id = "t1";
  name = id;
  kind = ActionType.control;
  sequence = pos sequence;
  status = status;
  execution_policy = policy;
  commands = commands;
}

abbrev task : TaskStatus → List DispatchAction → DispatchTask
task status actions = record {
  id = "task";
  tenant_id = "t1";
  name = "shed load";
  description = "";
  kind = TaskType.control;
  trigger_type = TriggerType.manual;
  failure_policy = FailurePolicy.fail_fast;
  status = status;
  created_at = pos 1;
  started_at = none;
  finished_at = none;
  idempotency_key = "";
  actions = actions;
}

abbrev first_action : DispatchAction
first_action =
    action "a1" ExecutionPolicy.sequential ActionStatus.running 1
      (command "c1" "a1" CommandStatus.sending ∷ command "c2" "a1" CommandStatus.pending ∷ [])

abbrev second_action : DispatchAction
second_action =
    action "a2" ExecutionPolicy.parallel ActionStatus.pending 2
      (command "c3" "a2" CommandStatus.pending ∷ [])

abbrev two_actions : DispatchTask
two_actions = task TaskStatus.running (second_action ∷ first_action ∷ [])

two_actions-TaskInv : TaskInv two_actions
two_actions-TaskInv = record {
  commands_fit = ground arith;
  actions_fit = ground arith;
  one_running = λ _. refl;
  ids_distinct = (((λ e. cc ((str_eq_iff "a1" "a2").1 e)), tt), (tt, tt));
}

abbrev found_c1 : Found
found_c1 = record {
  action_place = 1;
  action = first_action;
  command_place = 0;
  command = command "c1" "a1" CommandStatus.sending;
}

c1-Holds : Holds two_actions "c1" found_c1
unfolding Task.find_command
c1-Holds = record { inv = two_actions-TaskInv; task_runs = refl; found = refl }

on_command_result-Advanced_example :
    Ensures
      (λ r.
        Advanced r
        × Recorded 1 0
            (with_result
              (pos 9)
              (new_success_result (pos 8))
              (command "c1" "a1" CommandStatus.sending))
            r)
      (on_command_result (pos 9) two_actions "c1" (new_success_result (pos 8)))
on_command_result-Advanced_example =
    on_command_result-Advanced two_actions "c1" found_c1 c1-Holds (pos 9)
      (new_success_result (pos 8)) refl

on_command_result-IsSettled_example :
    Ensures
      (λ r.
        TaskInv r.0 × (r.0.status ≡ TaskStatus.failed) × (r.1.task_finished ≡ true) × IsSettled r.0)
      (on_command_result (pos 9) two_actions "c1" (new_failure_result "busy" "device busy"))
unfolding new_failure_result
on_command_result-IsSettled_example =
    on_command_result-IsSettled two_actions "c1" found_c1 c1-Holds (pos 9)
      (new_failure_result "busy" "device busy") refl refl (inl refl)

on_command_timeout-Advanced_example :
    Ensures
      (λ r. Advanced r × TimedOut (pos 40) two_actions found_c1 r)
      (on_command_timeout (pos 40) two_actions "c1")
on_command_timeout-Advanced_example =
    on_command_timeout-Advanced two_actions "c1" found_c1 c1-Holds (pos 40) refl

cancel-withdrawn_example :
    Ensures
      (λ r.
        (r.0 ≡ withdrawn (pos 9) two_actions)
        × TaskInv r.0
        × IsSettled r.0
        × (r.1.task_finished ≡ true))
      (cancel (pos 9) two_actions)
cancel-withdrawn_example = cancel-withdrawn (pos 9) two_actions two_actions-TaskInv refl

next_pending_action-Selects_example :
    Selects two_actions.actions (Task.next_pending_action two_actions)
next_pending_action-Selects_example = next_pending_action-Selects two_actions

on_command_result-Waits_example :
    Either
      (λ r. Bounded 2 r × AllWait r)
      Genuine
      (on_command_result (pos 9) two_actions "c1" (new_success_result (pos 8)))
on_command_result-Waits_example =
    on_command_result-Waits (pos 9) two_actions "c1" (new_success_result (pos 8))

-- A gateway that accepts every call, and services that never fail.
abbrev willing : Env
willing = record {
  execute = λ n c.
      GatewayReply.replied
        (record { status = GatewayStatus.completed; success = true; message = "" });
  succeeds = λ n. true;
  now = λ n. pos n;
}

handlers-HasEnded_example :
    HasEnded
      (handle_command_result willing 12 5 (ok two_actions) "c1" (some (new_success_result (pos 8))))
    × HasEnded (handle_expired willing 12 5 (ok two_actions) "c1")
handlers-HasEnded_example =
    handlers-HasEnded willing 12 5 two_actions (omega arith) "c1"
      (some (new_success_result (pos 8)))

abbrev fresh : World
fresh = record {
  task = task TaskStatus.running (
      action "a1" ExecutionPolicy.parallel ActionStatus.running 1
        (command "c1" "a1" CommandStatus.pending ∷ command "c2" "a1" CommandStatus.pending ∷ [])
      ∷ []);
  store = task TaskStatus.running [];
  events = [];
  tick = 0;
}

dispatch_commands-ends_example :
    Either (λ _. Unit {0}) Genuine (dispatch_commands willing 6 ((0, 0) ∷ (0, 1) ∷ []) fresh).1
dispatch_commands-ends_example =
    dispatch_commands-ends willing 6 ((0, 0) ∷ (0, 1) ∷ []) fresh (omega arith)

-- Two commands that complete at once: the second is queued twice and sent once.
parallel_completes :
    (dispatch_commands willing 6 ((0, 0) ∷ (0, 1) ∷ []) fresh).0.task.status ≡ TaskStatus.completed
unfolding dispatch_commands
parallel_completes = refl
