-- ===== src/Dispatch/Helper.antt =====
-- internal/dispatch/application/command/dispatch_helper.go: sending commands to the gateway and
-- writing what changed. Every call of a service is numbered by `tick`, and `Env` answers the n-th.
pub mod Loop
use vpp_backend.Prelude.{
  ℕ, zero, suc, String, Bool, true, false, not, List, [], ◌∷◌, ◌++◌, none, some, Result, ok, err,
  if◌then◌else◌, is_empty, is_empty_text,
}
use vpp_backend.Dispatch.Model.{
  Time, TaskStatus, CommandResult, ControlCommand, DispatchTask, Error, persist_failed,
  publish_failed, no_pending_action, unfinished,
}
use vpp_backend.Dispatch.Command
use vpp_backend.Dispatch.Command.{is_pending}
use vpp_backend.Dispatch.Action
use vpp_backend.Dispatch.Task
use vpp_backend.Dispatch.Task.{is_finished}
use vpp_backend.Dispatch.Dispatcher.{
  CommandRef, CommandResultOutcome, Step, refs, put_action, on_command_result,
}
use vpp_backend.Dispatch.Store.{get_command, save_command, save_action, write_task, put_at}

pub data GatewayStatus : Type 0 where
  accepted completed rejected : GatewayStatus
  unknown : ℕ → GatewayStatus

pub record GatewayExecuteResult : Type 0 where
  pub status : GatewayStatus
  pub success : Bool
  pub message : String

-- What `ExecuteCommand` returns: an error with its text, a nil result, or a result.
pub data GatewayReply : Type 0 where
  failed : String → GatewayReply
  nil_result : GatewayReply
  replied : GatewayExecuteResult → GatewayReply

pub record Env : Type 0 where
  pub execute : ℕ → ControlCommand → GatewayReply
  -- Whether the n-th call of a repository or of the publisher succeeds.
  pub succeeds : ℕ → Bool
  pub now : ℕ → Time

pub data TaskEvent : Type 0 where
  task_started task_completed task_failed task_cancelled : TaskEvent

pub record World : Type 0 where
  pub task : DispatchTask
  pub store : DispatchTask
  pub events : List TaskEvent
  pub tick : ℕ

-- A call that fails has done what it did: the world is returned with the error too.
abbrev pub M : Type 0 → Type 0
M A = World → World × Result Error A

abbrev pub proceed : {A B : Type 0} → World × Result Error A → (A → M B) → World × Result Error B
proceed (w, ok a) f = f a w
proceed (w, err e) f = (w, err e)

infixl 5 ◌>>=◌ ◌>>◌
abbrev pub ◌>>=◌ : {A B : Type 0} → M A → (A → M B) → M B
◌>>=◌ m f w = proceed (m w) f

abbrev pub ◌>>◌ : {B : Type 0} → M (Unit {0}) → M B → M B
m >> k = m >>= λ _. k

abbrev pub pure : {A : Type 0} → A → M A
pure a w = (w, ok a)

abbrev pub skip : M (Unit {0})
skip = pure tt

abbrev pub lift : {A : Type 0} → Result Error A → M A
lift r w = (w, r)

-- Keeps the task in memory.
abbrev pub put_task : DispatchTask → M (Unit {0})
put_task t w = (record w { task = t }, ok tt)

-- The commands to send next, and whether the task is finished.
abbrev pub Continuation : Type 0
Continuation = List CommandRef × Bool

-- A `for` loop whose body may fail.
unfoldable pub each : {A : Type 0} → (A → M (Unit {0})) → List A → M (Unit {0})
each f [] = skip
each f (x ∷ xs) = f x >> each f xs

-- What follows one entry of the queue: the loop stops, or goes on with what it adds.
abbrev pub resume : (List CommandRef → M (Unit {0})) → List CommandRef → Continuation → M (Unit {0})
resume loop queue (next, true) = skip
resume loop queue (next, false) = loop (queue ++ next)

module _ (env : Env) where
  -- One call of a repository or of the publisher, with what it does when it succeeds.
  unfoldable pub call : Error → (World → World) → M (Unit {0})
  call e effect w =
      let w' = record w { tick = suc w.tick } in
      if env.succeeds w.tick then (effect w', ok tt) else (w', err e)

  unfoldable pub update_command_row : CommandRef → M (Unit {0})
  unfolding call save_command
  update_command_row r =
      call persist_failed (λ w. record w { store = save_command r w.task w.store })

  unfoldable pub update_action_row : ℕ → M (Unit {0})
  unfolding call save_action
  update_action_row i = call persist_failed (λ w. record w { store = save_action i w.task w.store })

  unfoldable pub update_task_row : M (Unit {0})
  unfolding call write_task
  update_task_row = call persist_failed (λ w. record w { store = write_task w.task w.store })

  unfoldable pub publish : TaskEvent → M (Unit {0})
  unfolding call
  publish e = call publish_failed (λ w. record w { events = w.events ++ e ∷ [] })

  abbrev pub publish_finished : TaskStatus → M (Unit {0})
  publish_finished TaskStatus.completed = publish task_completed
  publish_finished TaskStatus.failed = publish task_failed
  publish_finished TaskStatus.cancelled = publish task_cancelled
  publish_finished _ = skip

  abbrev pub save_task_if : Bool → M (Unit {0})
  save_task_if true = update_task_row
  save_task_if false = skip

  abbrev pub announce_if : Bool → M (Unit {0})
  announce_if true w = publish_finished w.task.status w
  announce_if false w = skip w

  unfoldable pub persist_outcome : CommandResultOutcome → M (Unit {0})
  unfolding each update_command_row update_action_row update_task_row publish
  persist_outcome o = do
    each update_command_row o.changed_commands
    each update_action_row o.changed_actions
    save_task_if o.task_changed
    announce_if o.task_finished

  unfoldable pub start_first_action : M (List CommandRef)
  unfolding Task.next_pending_action Action.start put_action update_action_row refs
      Action.commands_to_dispatch
  start_first_action w = elim (Task.next_pending_action w.task) [
    | none ↦ (w, err no_pending_action)
    | some (k, a) ↦
        (lift (Action.start a) >>= λ a'.
        put_task (put_action k a' w.task)
        >> (update_action_row k >> pure (refs k (Action.commands_to_dispatch a'))))
          w
  ]

  unfoldable pub start_task_and_first_action : M (List CommandRef)
  unfolding Task.start update_task_row publish start_first_action
  start_task_and_first_action w =
      (lift (Task.start (env.now w.tick) w.task) >>= λ t.
      put_task t >> (update_task_row >> (publish task_started >> start_first_action)))
        w

  -- Takes a step of the dispatcher over: the task, and the rows that it changed.
  unfoldable pub conclude : Step → M Continuation
  unfolding persist_outcome
  conclude s = do
    (t, o) ← lift s
    put_task t
    persist_outcome o
    pure (o.next_commands, o.task_finished)

  unfoldable pub apply_failure : String → String → String → M Continuation
  unfolding conclude on_command_result Command.new_failure_result
  apply_failure command_id code message w =
      conclude
        (on_command_result (env.now w.tick) w.task command_id
          (Command.new_failure_result code message))
        w

  abbrev or_default : String → String → String
  or_default s d = if is_empty_text s then d else s

  -- The result that a synchronous completion stands for.
  unfoldable pub completion : Time → GatewayExecuteResult → CommandResult
  unfolding Command.new_success_result Command.new_failure_result
  completion now g =
      if g.success
      then Command.new_success_result now
      else Command.new_failure_result "gateway_completed_failure"
          (or_default g.message "gateway completed with failure")

  unfoldable pub send_accepted : CommandRef → ControlCommand → M Continuation
  unfolding Command.mark_sending put_at update_command_row
  send_accepted r c w =
      (lift (Command.mark_sending (env.now w.tick) c) >>= λ c'.
      put_task (put_at r c' w.task) >> (update_command_row r >> pure ([], false)))
        w

  unfoldable pub send_completed :
      CommandRef → ControlCommand → GatewayExecuteResult → M Continuation
  unfolding Command.mark_sending put_at conclude on_command_result completion
  send_completed r c g w =
      let now = env.now w.tick in
      (lift (Command.mark_sending now c) >>= λ c'.
      let t = put_at r c' w.task in
      put_task t >> conclude (on_command_result now t c.id (completion now g)))
        w

  -- The switch over the gateway's status.
  unfoldable pub on_status :
      CommandRef → ControlCommand → GatewayExecuteResult → GatewayStatus → M Continuation
  unfolding send_accepted send_completed apply_failure
  on_status r c g accepted = send_accepted r c
  on_status r c g completed = send_completed r c g
  on_status r c g rejected =
      apply_failure c.id "gateway_rejected" (or_default g.message "gateway rejected command")
  on_status r c g (unknown n) = apply_failure c.id "gateway_error" "unknown gateway status"

  unfoldable pub on_gateway : CommandRef → ControlCommand → GatewayReply → M Continuation
  unfolding on_status apply_failure
  on_gateway r c (failed message) = apply_failure c.id "gateway_error" message
  on_gateway r c nil_result = apply_failure c.id "gateway_error" "nil gateway result"
  on_gateway r c (replied g) = on_status r c g g.status

  -- A reference is to a command of the task; the first case does not arise.
  unfoldable pub dispatch_one : CommandRef → M Continuation
  unfolding get_command on_gateway
  dispatch_one r w = elim (get_command r w.task) [
    | none ↦ (w, ok ([], false))
    | some c ↦
        if not (is_pending c.status)
        then (w, ok ([], false))
        else on_gateway r c (env.execute w.tick c) (record w { tick = suc w.tick })
  ]

  -- The loop over the queue, on fuel.
  unfoldable pub dispatch_commands : ℕ → List CommandRef → M (Unit {0})
  unfolding dispatch_one
  dispatch_commands fuel [] w = (w, ok tt)
  dispatch_commands zero (r ∷ queue) w = (w, err unfinished)
  dispatch_commands (suc fuel) (r ∷ queue) w =
      if is_finished w.task.status
      then (w, ok tt)
      else let run : M (Unit {0}) = dispatch_one r >>= resume (dispatch_commands fuel) queue in
        run w

  unfoldable pub apply_outcome_and_continue : ℕ → CommandResultOutcome → M (Unit {0})
  unfolding persist_outcome dispatch_commands
  apply_outcome_and_continue fuel o = do
    persist_outcome o
    if is_empty o.next_commands then skip else dispatch_commands fuel o.next_commands
