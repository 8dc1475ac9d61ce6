-- ===== src/Dispatch/Task.antt =====
-- internal/dispatch/domain/model/dispatch_task.go. An action of a task is named by its place in
-- `actions`, which stands for the source's pointer.
pub mod Order
pub mod Find
use vpp_backend.Prelude.{
  ℕ, suc, ltb_ℤ, String, str_eq, is_blank, Bool, true, false, not, List, [], ◌∷◌, Option, none,
  some, Result, ok, err, guard, ◌>>◌, if◌then◌else◌, is_empty,
}
use vpp_backend.Dispatch.Model.{
  Time, TaskStatus, ControlCommand, DispatchAction, DispatchTask, Invalid, Error, cannot_start_task,
  cannot_complete_task, cannot_fail_task, cannot_cancel_task, task_id_required,
  task_tenant_required, task_name_required, task_needs_action,
}
use vpp_backend.Dispatch.Action.{is_pending_action}

abbrev is_pending_task : TaskStatus → Bool
is_pending_task TaskStatus.pending = true
is_pending_task _ = false

abbrev is_running_task : TaskStatus → Bool
is_running_task TaskStatus.running = true
is_running_task _ = false

-- `IsFinished`, of the task's status.
abbrev pub is_finished : TaskStatus → Bool
is_finished TaskStatus.completed = true
is_finished TaskStatus.failed = true
is_finished TaskStatus.cancelled = true
is_finished _ = false

unfoldable pub start : Time → DispatchTask → Result Error DispatchTask
start now t =
    if not (is_pending_task t.status)
    then err (cannot_start_task t.status)
    else ok (record t { status = TaskStatus.running; started_at = some now })

unfoldable pub complete : Time → DispatchTask → Result Error DispatchTask
complete now t =
    if not (is_running_task t.status)
    then err (cannot_complete_task t.status)
    else ok (record t { status = TaskStatus.completed; finished_at = some now })

unfoldable pub fail : Time → DispatchTask → Result Error DispatchTask
fail now t =
    if not (is_running_task t.status)
    then err (cannot_fail_task t.status)
    else ok (record t { status = TaskStatus.failed; finished_at = some now })

unfoldable pub cancel : Time → DispatchTask → Result Error DispatchTask
cancel now t =
    if is_finished t.status
    then err (cannot_cancel_task t.status)
    else ok (record t { status = TaskStatus.cancelled; finished_at = some now })

-- An action with its place in the slice.
abbrev pub Placed : Type 0
Placed = ℕ × DispatchAction

unfoldable pub placed : ℕ → List DispatchAction → List Placed
placed k [] = []
placed k (a ∷ as') = (k, a) ∷ placed (suc k) as'

-- `sort.SliceStable` by `Sequence`, as an insertion sort: among equal keys the order stays.
unfoldable pub insert_sorted : Placed → List Placed → List Placed
insert_sorted p [] = p ∷ []
insert_sorted p (q ∷ qs) =
    if ltb_ℤ q.1.sequence p.1.sequence then q ∷ insert_sorted p qs else p ∷ q ∷ qs

unfoldable pub sort_stable : List Placed → List Placed
unfolding insert_sorted
sort_stable [] = []
sort_stable (p ∷ ps) = insert_sorted p (sort_stable ps)

unfoldable pub sorted_actions : DispatchTask → List Placed
unfolding placed sort_stable
sorted_actions t = sort_stable (placed 0 t.actions)

unfoldable pub first_pending : List Placed → Option Placed
first_pending [] = none
first_pending (p ∷ ps) = if is_pending_action p.1.status then some p else first_pending ps

unfoldable pub next_pending_action : DispatchTask → Option Placed
unfolding sorted_actions first_pending
next_pending_action t = first_pending (sorted_actions t)

-- The inner loop of `FindCommand`, from place `j` on.
unfoldable pub find_in_commands : String → ℕ → List ControlCommand → Option (ℕ × ControlCommand)
find_in_commands id j [] = none
find_in_commands id j (c ∷ cs) =
    if str_eq c.id id then some (j, c) else find_in_commands id (suc j) cs

-- A command with the place of its action, that action, its own place in it, and itself.
pub record Found : Type 0 where
  pub action_place : ℕ
  pub action : DispatchAction
  pub command_place : ℕ
  pub command : ControlCommand

unfoldable pub find_in_actions : String → ℕ → List DispatchAction → Option Found
unfolding find_in_commands
find_in_actions id i [] = none
find_in_actions id i (a ∷ as') = elim (find_in_commands id 0 a.commands) [
  | some (j, c) ↦ some (record { action_place = i; action = a; command_place = j; command = c })
  | none ↦ find_in_actions id (suc i) as'
]

unfoldable pub find_command : String → DispatchTask → Option Found
unfolding find_in_actions
find_command id t = find_in_actions id 0 t.actions

unfoldable pub validate : DispatchTask → Result Invalid (Unit {0})
validate t = do
  guard (not (is_blank t.id)) task_id_required
  guard (not (is_blank t.tenant_id)) task_tenant_required
  guard (not (is_blank t.name)) task_name_required
  guard (not (is_empty t.actions)) task_needs_action
