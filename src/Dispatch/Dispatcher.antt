-- ===== src/Dispatch/Dispatcher.antt =====
-- internal/dispatch/domain/service/dispatcher.go: the state machine over a whole task. A pointer to
-- a command or an action in an outcome is its place in the task. On an error the callers drop the
-- task that they passed, so the error carries none.
pub mod Breaker
pub mod Waiting
pub mod Advance
pub mod Recorded
pub mod Results
pub mod Cancellation
pub mod Progress
pub mod Next
use vpp_backend.Prelude.{
  ℕ, suc, String, str_eq, Bool, true, false, ◌||◌, ◌&&◌, not, List, [], ◌∷◌, ◌++◌, map, none, some,
  Result, ok, err, ◌>>=◌, if◌then◌else◌, is_empty, set,
}
use vpp_backend.Dispatch.Model.{
  Time, ActionStatus, CommandResult, ControlCommand, DispatchAction, DispatchTask, Error,
  command_not_found, task_already_done,
}
use vpp_backend.Dispatch.Command
use vpp_backend.Dispatch.Command.{is_pending, is_sending, is_cancelled}
use vpp_backend.Dispatch.Action
use vpp_backend.Dispatch.Action.{is_pending_action, is_running_action, places}
use vpp_backend.Dispatch.Task
use vpp_backend.Dispatch.Task.{is_finished}

-- The place of an action and of a command in it.
abbrev pub CommandRef : Type 0
CommandRef = ℕ × ℕ

pub record CommandResultOutcome : Type 0 where
  pub changed_commands : List CommandRef
  pub changed_actions : List ℕ
  pub task_changed : Bool
  pub next_commands : List CommandRef
  pub task_finished : Bool

unfoldable no_outcome : CommandResultOutcome
no_outcome = record {
  changed_commands = [];
  changed_actions = [];
  task_changed = false;
  next_commands = [];
  task_finished = false;
}

-- The references to some commands of the action at place `i`.
unfoldable pub refs : ℕ → List ℕ → List CommandRef
refs i js = map (λ j. (i, j)) js

unfoldable pub put_action : ℕ → DispatchAction → DispatchTask → DispatchTask
put_action i a t = record t { actions = set t.actions i a }

unfoldable pub put_command : ℕ → ControlCommand → DispatchAction → DispatchAction
put_command j c a = record a { commands = set a.commands j c }

abbrev pub Step : Type 0
Step = Result Error (DispatchTask × CommandResultOutcome)

-- What a loop over the actions leaves: the actions, and the places that it changed.
pub record Sweep : Type 0 where
  pub actions : List DispatchAction
  pub commands : List CommandRef
  pub places : List ℕ

-- Step 3 of the circuit breaker, over the actions from place `k` on.
unfoldable pub break_rest : String → ℕ → List DispatchAction → Sweep
unfolding Action.cancel_pending places refs
break_rest failed_id k [] = record { actions = []; commands = []; places = [] }
break_rest failed_id k (a ∷ as') =
    let rest = break_rest failed_id (suc k) as' in
    if str_eq a.id failed_id || not (is_pending_action a.status)
    then record rest { actions = a ∷ rest.actions }
    else record {
      actions =
          record a { commands = Action.cancel_pending a.commands; status = ActionStatus.cancelled }
          ∷ rest.actions;
      commands = refs k (places is_pending 0 a.commands) ++ rest.commands;
      places = k ∷ rest.places;
    }

-- `a` is the action at place `i`, with the changes that the callers have made to it.
unfoldable pub apply_circuit_breaker :
    Time → DispatchTask → ℕ → DispatchAction → CommandResultOutcome → Step
unfolding Action.cancel_pending_commands places refs Action.fail break_rest put_action Task.fail
apply_circuit_breaker now t i a o = do
  let pendings = refs i (places is_pending 0 a.commands)
  failed ← Action.fail (Action.cancel_pending_commands a)
  let swept = break_rest failed.id 0 (put_action i failed t).actions
  t' ← Task.fail now (record t { actions = swept.actions })
  ok (
    t',
    record o {
      changed_commands = (o.changed_commands ++ pendings) ++ swept.commands;
      changed_actions = (o.changed_actions ++ i ∷ []) ++ swept.places;
      task_changed = true;
      task_finished = true;
    },
  )

-- The end of `advanceAfterSuccess`: the next action, or the end of the task.
unfoldable pub advance_task : Time → DispatchTask → CommandResultOutcome → Step
unfolding Task.next_pending_action Action.start Action.commands_to_dispatch refs put_action
    Task.complete
advance_task now t o = elim (Task.next_pending_action t) [
  | some (k, b) ↦ do
    b' ← Action.start b
    ok (
      put_action k b' t,
      record o {
        changed_actions = o.changed_actions ++ k ∷ [];
        next_commands = refs k (Action.commands_to_dispatch b');
      },
    )
  | none ↦ do
    t' ← Task.complete now t
    ok (t', record o { task_changed = true; task_finished = true })
]

unfoldable pub advance_after_success :
    Time → DispatchTask → ℕ → DispatchAction → CommandResultOutcome → Step
unfolding Action.commands_to_dispatch refs put_action Action.all_commands_finished
    Action.any_command_failed apply_circuit_breaker Action.complete advance_task
advance_after_success now t i a o =
    let next = Action.commands_to_dispatch a in
    if not (is_empty next)
    then ok (put_action i a t, record o { next_commands = refs i next })
    else if not (Action.all_commands_finished a)
    then ok (put_action i a t, o)
    else if Action.any_command_failed a
    then apply_circuit_breaker now t i a o
    else do
      a' ← Action.complete a
      advance_task now (put_action i a' t)
          (record o { changed_actions = o.changed_actions ++ i ∷ [] })

unfoldable pub changed_command : ℕ → ℕ → CommandResultOutcome
unfolding no_outcome
changed_command i j = record no_outcome { changed_commands = (i, j) ∷ [] }

unfoldable pub on_command_result : Time → DispatchTask → String → CommandResult → Step
unfolding Task.find_command Command.mark_succeeded Command.mark_failed put_command
    advance_after_success apply_circuit_breaker changed_command
on_command_result now t command_id result = elim (Task.find_command command_id t) [
  | none ↦ err command_not_found
  | some f ↦
      if result.success
      then (Command.mark_succeeded now result f.command >>= λ c.
          advance_after_success now t f.action_place (put_command f.command_place c f.action)
            (changed_command f.action_place f.command_place))
      else (Command.mark_failed now result f.command >>= λ c.
          apply_circuit_breaker now t f.action_place (put_command f.command_place c f.action)
            (changed_command f.action_place f.command_place))
]

-- The message with the number of attempts is left out of the failure result.
unfoldable timed_out : CommandResult
unfolding Command.new_failure_result
timed_out = Command.new_failure_result "timeout" "command timed out"

unfoldable pub on_command_timeout : Time → DispatchTask → String → Step
unfolding Task.find_command no_outcome Command.mark_timeout Command.can_retry
    Command.reset_for_retry put_command put_action changed_command Command.mark_failed timed_out
    apply_circuit_breaker
on_command_timeout now t command_id = elim (Task.find_command command_id t) [
  | none ↦ err command_not_found
  | some f ↦ if not (is_sending f.command.status) then ok (t, no_outcome) else do
    late ← Command.mark_timeout f.command
    if Command.can_retry late
        then (Command.reset_for_retry late >>= λ again. ok (
          put_action f.action_place (put_command f.command_place again f.action) t,
          record (changed_command f.action_place f.command_place) {
            next_commands = (f.action_place, f.command_place) ∷ [];
          },
        ))
        else (Command.mark_failed now timed_out late >>= λ c.
            apply_circuit_breaker now t f.action_place (put_command f.command_place c f.action)
              (changed_command f.action_place f.command_place))
]

-- The loop of `Cancel`, over the actions from place `k` on.
unfoldable pub cancel_actions : ℕ → List DispatchAction → Result Error Sweep
unfolding Action.cancel_pending_commands places refs Action.cancel
cancel_actions k [] = ok (record { actions = []; commands = []; places = [] })
cancel_actions k (a ∷ as') =
    let rest = cancel_actions (suc k) as' in
    if not (is_pending_action a.status) && not (is_running_action a.status)
    then (rest >>= λ sweep. ok (record sweep { actions = a ∷ sweep.actions }))
    else let b = Action.cancel_pending_commands a in
      do
        b' ← Action.cancel b
        sweep ← rest
        ok (record {
          actions = b' ∷ sweep.actions;
          commands = refs k (places is_cancelled 0 b.commands) ++ sweep.commands;
          places = k ∷ sweep.places;
        })

unfoldable pub cancel : Time → DispatchTask → Step
unfolding cancel_actions Task.cancel
cancel now t = if is_finished t.status then err task_already_done else do
  sweep ← cancel_actions 0 t.actions
  t' ← Task.cancel now (record t { actions = sweep.actions })
  ok (
    t',
    record {
      changed_commands = sweep.commands;
      changed_actions = sweep.places;
      task_changed = true;
      next_commands = [];
      task_finished = true;
    },
  )
