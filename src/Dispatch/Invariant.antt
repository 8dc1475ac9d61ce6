-- ===== src/Dispatch/Invariant.antt =====
-- What holds of a dispatch task between two calls of the service.
mod Ids
pub use Ids.{Distinct, ids, ids-set, Distinct-others}
use vpp_backend.Prelude.{
  ℕ, zero, suc, pos, ◌≤ℤ◌, ◌≡◌, Bool, true, false, ◌||◌, List, [], ◌∷◌, some, All, All-map, All-zip,
  count, is_empty, get_elem?, set, arith,
}
use vpp_backend.Dispatch.Model.{
  TaskStatus, ActionStatus, CommandStatus, ControlCommand, DispatchAction, DispatchTask,
}
use vpp_backend.Dispatch.Command.{is_sending, is_pending}
use vpp_backend.Dispatch.Action.{is_running_action, is_pending_action, any_status}
use vpp_backend.Dispatch.Task.{is_finished}

-- The command statuses that an action in a status can hold.
abbrev fits_command : ActionStatus → CommandStatus → Bool
fits_command ActionStatus.pending CommandStatus.pending = true
fits_command ActionStatus.running CommandStatus.pending = true
fits_command ActionStatus.running CommandStatus.sending = true
fits_command ActionStatus.running CommandStatus.succeeded = true
fits_command ActionStatus.completed CommandStatus.succeeded = true
fits_command ActionStatus.failed CommandStatus.succeeded = true
fits_command ActionStatus.failed CommandStatus.sending = true
fits_command ActionStatus.failed CommandStatus.failed = true
fits_command ActionStatus.failed CommandStatus.cancelled = true
fits_command ActionStatus.cancelled CommandStatus.succeeded = true
fits_command ActionStatus.cancelled CommandStatus.sending = true
fits_command ActionStatus.cancelled CommandStatus.cancelled = true
fits_command _ _ = false

-- The action statuses that a task in a status can hold.
abbrev pub fits_action : TaskStatus → ActionStatus → Bool
fits_action TaskStatus.pending ActionStatus.pending = true
fits_action TaskStatus.running ActionStatus.pending = true
fits_action TaskStatus.running ActionStatus.running = true
fits_action TaskStatus.running ActionStatus.completed = true
fits_action TaskStatus.completed ActionStatus.completed = true
fits_action TaskStatus.failed ActionStatus.completed = true
fits_action TaskStatus.failed ActionStatus.failed = true
fits_action TaskStatus.failed ActionStatus.cancelled = true
fits_action TaskStatus.cancelled ActionStatus.completed = true
fits_action TaskStatus.cancelled ActionStatus.cancelled = true
fits_action _ _ = false

abbrev pub CommandInv : ActionStatus → ControlCommand → Type 0
CommandInv s c = (fits_command s c.status ≡ true) × (pos c.retry_count ≤ℤ c.max_retries)

abbrev pub ActionInv : DispatchAction → Type 0
ActionInv a = (is_empty a.commands ≡ false) × All (CommandInv a.status) a.commands

abbrev pub running_actions : List DispatchAction → ℕ
running_actions = count (λ a. is_running_action a.status)

pub record TaskInv (t : DispatchTask) : Type 0 where
  pub commands_fit : All ActionInv t.actions
  pub actions_fit : All (λ a. fits_action t.status a.status ≡ true) t.actions
  pub one_running : t.status ≡ TaskStatus.running → running_actions t.actions ≡ 1
  pub ids_distinct : Distinct (ids t.actions)

-- Some command of the task has been handed to the gateway and is awaited.
pub awaits_result : List DispatchAction → Bool
awaits_result [] = false
awaits_result (a ∷ as') = any_status is_sending a.commands || awaits_result as'

pub awaits_result-set :
    (as' : List DispatchAction) (i : ℕ) (v : DispatchAction) {a : DispatchAction}
    → get_elem? as' i ≡ some a
    → any_status is_sending v.commands ≡ true
    → awaits_result (set as' i v) ≡ true
unfolding awaits_result
awaits_result-set [] i v e h = cc
awaits_result-set (x ∷ xs) zero v e h = ground arith
awaits_result-set (x ∷ xs) (suc i) v e h = ground (arith, awaits_result-set xs i v e h)

-- No action is pending or running, and no command waits to be sent.
abbrev pub IsSettled : DispatchTask → Type 0
IsSettled t =
    All
      (λ a.
        (is_pending_action a.status ≡ false)
        × (is_running_action a.status ≡ false)
        × All (λ c. is_pending c.status ≡ false) a.commands)
      t.actions

settled_action :
    (s : TaskStatus) (a : DispatchAction)
    → is_finished s ≡ true
    → ActionInv a
    → fits_action s a.status ≡ true
    → (is_pending_action a.status ≡ false)
      × (is_running_action a.status ≡ false)
      × All (λ c. is_pending c.status ≡ false) a.commands
settled_action s a f h k = (
  ground arith,
  ground arith,
  All-map (CommandInv a.status) _ (λ c l. ground arith) a.commands h.1,
)

pub finished-IsSettled : (t : DispatchTask) → TaskInv t → is_finished t.status ≡ true → IsSettled t
finished-IsSettled t v f =
    All-zip ActionInv (λ a. fits_action t.status a.status ≡ true) _
      (λ a h k. settled_action t.status a f h k) t.actions v.commands_fit v.actions_fit
