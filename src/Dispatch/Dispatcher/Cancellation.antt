-- ===== src/Dispatch/Dispatcher/Cancellation.antt =====
-- Dispatcher.Cancel on a well-formed task.
use vpp_backend.Prelude.{
  ℕ, suc, ◌≡◌, refl, sym, subst, true, false, ◌||◌, List, [], ◌∷◌, map, some, All, All-map, All-zip,
  Ensures, Ensures-mono, Ensures-bind, arith, if◌then◌else◌,
}
use vpp_backend.Dispatch.Model.{Time, TaskStatus, ActionStatus, DispatchAction, DispatchTask}
use vpp_backend.Dispatch.Action
use vpp_backend.Dispatch.Action.{is_pending_action, is_running_action}
use vpp_backend.Dispatch.Task.{is_finished}
use vpp_backend.Dispatch.Invariant.{
  fits_action, CommandInv, ActionInv, TaskInv, Distinct, ids, IsSettled, finished-IsSettled,
}
use vpp_backend.Dispatch.Dispatcher.{cancel_actions, cancel}
use vpp_backend.Dispatch.Dispatcher.Breaker.{cancel_pending-All, cancel_pending-is_empty}

-- What cancelling a task makes of one of its actions: one that is pending or running is cancelled
-- with its pending commands, and any other stays.
pub withdraw : DispatchAction → DispatchAction
withdraw a =
    if is_pending_action a.status || is_running_action a.status
    then record a { commands = Action.cancel_pending a.commands; status = ActionStatus.cancelled }
    else a

cancel_actions-withdraw :
    (k : ℕ) (as' : List DispatchAction)
    → Ensures (λ s. s.actions ≡ map withdraw as') (cancel_actions k as')
unfolding cancel_actions withdraw
cancel_actions-withdraw k [] = refl
cancel_actions-withdraw k (a ∷ as') = ground (arith, cancel_actions-withdraw (suc k) as')

abbrev Cancellable : DispatchAction → Type 0
Cancellable a =
    ActionInv a
    × (is_pending_action a.status
          || is_running_action a.status
          || fits_action TaskStatus.completed a.status
        ≡ true)

abbrev Withdrawn : DispatchAction → Type 0
Withdrawn a = ActionInv a × (fits_action TaskStatus.cancelled a.status ≡ true)

withdrawn_commands :
    (a : DispatchAction)
    → ActionInv a
    → is_pending_action a.status || is_running_action a.status ≡ true
    → All (CommandInv ActionStatus.cancelled) (Action.cancel_pending a.commands)
withdrawn_commands a h p =
    cancel_pending-All (CommandInv a.status) (CommandInv ActionStatus.cancelled)
      (λ c k. ground arith) a.commands h.1

withdraw-Withdrawn : (a : DispatchAction) → Cancellable a → Withdrawn (withdraw a)
unfolding withdraw
withdraw-Withdrawn a h =
    ground (arith, withdrawn_commands a h.0, cancel_pending-is_empty a.commands)

map-withdraw-Withdrawn :
    (as' : List DispatchAction) → All Cancellable as' → All Withdrawn (map withdraw as')
map-withdraw-Withdrawn [] h = tt
map-withdraw-Withdrawn (a ∷ as') h = (withdraw-Withdrawn a h.0, map-withdraw-Withdrawn as' h.1)

ids-map-withdraw : (as' : List DispatchAction) → ids (map withdraw as') ≡ ids as'
unfolding withdraw
ids-map-withdraw [] = refl
ids-map-withdraw (a ∷ as') = ground (arith, ids-map-withdraw as')

cancellable :
    (s : TaskStatus) (a : DispatchAction)
    → is_finished s ≡ false
    → ActionInv a
    → fits_action s a.status ≡ true
    → Cancellable a
cancellable s a f h k = (h, ground arith)

-- The task with every action withdrawn.
pub withdrawn : Time → DispatchTask → DispatchTask
withdrawn now t = record t {
  status = TaskStatus.cancelled;
  finished_at = some now;
  actions = map withdraw t.actions;
}

withdrawn-TaskInv :
    (now : Time) (t : DispatchTask)
    → TaskInv t
    → is_finished t.status ≡ false
    → TaskInv (withdrawn now t)
unfolding withdrawn
withdrawn-TaskInv now t v f =
    let all = map-withdraw-Withdrawn t.actions (
      All-zip ActionInv (λ a. fits_action t.status a.status ≡ true) Cancellable
        (λ a h k. cancellable t.status a f h k) t.actions v.commands_fit v.actions_fit) in
    record {
      commands_fit = All-map Withdrawn ActionInv (λ a h. h.0) _ all;
      actions_fit = All-map Withdrawn _ (λ a h. h.1) _ all;
      one_running = λ e. cc;
      ids_distinct = subst Distinct (sym (ids-map-withdraw t.actions)) v.ids_distinct;
    }

-- A well-formed task that is not finished can always be cancelled: its pending and running actions
-- are cancelled with their pending commands, every other action and command stays as it was, and
-- the task is well formed, with nothing pending or running.
pub cancel-withdrawn :
    (now : Time) (t : DispatchTask)
    → TaskInv t
    → is_finished t.status ≡ false
    → Ensures
        (λ r. (r.0 ≡ withdrawn now t) × TaskInv r.0 × IsSettled r.0 × (r.1.task_finished ≡ true))
        (cancel now t)
unfolding cancel withdrawn
cancel-withdrawn now t v f =
    Ensures-mono (λ r. (r.0 ≡ withdrawn now t) × (r.1.task_finished ≡ true)) _
      (λ r h. (
        h.0,
        subst TaskInv (sym h.0) (withdrawn-TaskInv now t v f),
        subst IsSettled (sym h.0)
            (finished-IsSettled (withdrawn now t) (withdrawn-TaskInv now t v f) refl),
        h.1,
      ))
      (cancel now t)
      (rw (cancel, f)
        (Ensures-bind (λ s. s.actions ≡ map withdraw t.actions) _ (cancel_actions 0 t.actions) _
          (cancel_actions-withdraw 0 t.actions) (λ s e. (rw e refl, refl))))
