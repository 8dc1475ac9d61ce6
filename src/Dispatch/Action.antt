-- ===== src/Dispatch/Action.antt =====
-- internal/dispatch/domain/model/dispatch_action.go. A command of an action is named by its place
-- in `commands`, which stands for the source's pointer: the slices are never reordered.
use vpp_backend.Prelude.{
  ℕ, suc, Bool, true, false, ◌||◌, ◌&&◌, not, List, [], ◌∷◌, Result, ok, err, if◌then◌else◌,
}
use vpp_backend.Dispatch.Model.{
  ActionStatus, ExecutionPolicy, CommandStatus, ControlCommand, DispatchAction, Error,
  cannot_start_action, cannot_complete_action, cannot_fail_action, cannot_cancel_action,
}
use vpp_backend.Dispatch.Command.{is_pending, is_sending, is_failed, is_terminal}

abbrev pub is_pending_action : ActionStatus → Bool
is_pending_action ActionStatus.pending = true
is_pending_action _ = false

abbrev pub is_running_action : ActionStatus → Bool
is_running_action ActionStatus.running = true
is_running_action _ = false

unfoldable pub start : DispatchAction → Result Error DispatchAction
start a =
    if not (is_pending_action a.status)
    then err (cannot_start_action a.status)
    else ok (record a { status = ActionStatus.running })

unfoldable pub complete : DispatchAction → Result Error DispatchAction
complete a =
    if not (is_running_action a.status)
    then err (cannot_complete_action a.status)
    else ok (record a { status = ActionStatus.completed })

unfoldable pub fail : DispatchAction → Result Error DispatchAction
fail a =
    if not (is_running_action a.status)
    then err (cannot_fail_action a.status)
    else ok (record a { status = ActionStatus.failed })

unfoldable pub cancel : DispatchAction → Result Error DispatchAction
cancel a =
    if not (is_pending_action a.status) && not (is_running_action a.status)
    then err (cannot_cancel_action a.status)
    else ok (record a { status = ActionStatus.cancelled })

-- The loop of `CancelPendingCommands`.
unfoldable pub cancel_pending : List ControlCommand → List ControlCommand
cancel_pending [] = []
cancel_pending (c ∷ cs) =
    (if is_pending c.status then record c { status = CommandStatus.cancelled } else c)
    ∷ cancel_pending cs

unfoldable pub cancel_pending_commands : DispatchAction → DispatchAction
unfolding cancel_pending
cancel_pending_commands a = record a { commands = cancel_pending a.commands }

-- The places, from `j` on, of the commands whose status passes the test.
unfoldable pub places : (CommandStatus → Bool) → ℕ → List ControlCommand → List ℕ
places p j [] = []
places p j (c ∷ cs) = if p c.status then j ∷ places p (suc j) cs else places p (suc j) cs

unfoldable pub any_status : (CommandStatus → Bool) → List ControlCommand → Bool
any_status p [] = false
any_status p (c ∷ cs) = p c.status || any_status p cs

abbrev pub first : List ℕ → List ℕ
first [] = []
first (j ∷ js) = j ∷ []

unfoldable pub commands_to_dispatch : DispatchAction → List ℕ
unfolding places any_status
commands_to_dispatch a = elim a.execution_policy [
  | ExecutionPolicy.parallel ↦ places is_pending 0 a.commands
  | ExecutionPolicy.sequential ↦
      if any_status is_sending a.commands then [] else first (places is_pending 0 a.commands)
]

unfoldable pub all_commands_finished : DispatchAction → Bool
unfolding any_status
all_commands_finished a = not (any_status (λ s. not (is_terminal s)) a.commands)

unfoldable pub any_command_failed : DispatchAction → Bool
unfolding any_status
any_command_failed a = any_status is_failed a.commands
