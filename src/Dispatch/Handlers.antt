-- ===== src/Dispatch/Handlers.antt =====
-- internal/dispatch/application/command: handle_command_result.go, scan_timeouts.go and
-- cancel_task.go. What the repository's lookup returns is an argument; the rows that it read are
-- the store that the handler then writes to.
pub mod Ends
use vpp_backend.Prelude.{
  ℕ, String, str_eq, is_blank, not, [], Option, none, some, Result, ok, err, if◌then◌else◌,
}
use vpp_backend.Dispatch.Model.{
  CommandResult, DispatchTask, Error, command_not_found, task_not_found, tenant_required,
  command_id_blank, task_id_blank, result_required,
}
use vpp_backend.Dispatch.Command.{is_terminal}
use vpp_backend.Dispatch.Task
use vpp_backend.Dispatch.Task.{is_finished}
use vpp_backend.Dispatch.Dispatcher
use vpp_backend.Dispatch.Helper.{
  Env, World, M, ◌>>=◌, ◌>>◌, lift, put_task, persist_outcome, apply_outcome_and_continue,
}

-- A call is refused before it touches the task, or runs and leaves a world and a result.
pub data Handled : Type 0 where
  refused : Error → Handled
  ran : World → Result Error (Unit {0}) → Handled

unfoldable pub load : DispatchTask → ℕ → World
load t tick = record { task = t; store = t; events = []; tick = tick }

abbrev pub finish : World × Result Error (Unit {0}) → Handled
finish r = ran r.0 r.1

module _ (env : Env) (fuel : ℕ) where
  -- Takes a step of the dispatcher over and goes on with it.
  unfoldable continue_with : Dispatcher.Step → M (Unit {0})
  unfolding apply_outcome_and_continue
  continue_with s = lift s >>= λ r. put_task r.0 >> apply_outcome_and_continue env fuel r.1

  -- `Handle` of HandleCommandResult; `found` is what `FindByCommandID` returns.
  unfoldable pub handle_command_result :
      ℕ → Result Error DispatchTask → String → Option CommandResult → Handled
  unfolding load Task.find_command Dispatcher.on_command_result continue_with
  handle_command_result tick found command_id result =
      if is_blank command_id then refused command_id_blank else elim result [
        | none ↦ refused result_required
        | some r ↦ elim found [
          | err e ↦ refused e
          | ok t ↦ elim (Task.find_command command_id t) [
            | none ↦ refused command_not_found
            | some f ↦
                let w = load t tick in
                if is_terminal f.command.status
                then ran w (ok tt)
                else if is_finished t.status
                then ran w (ok tt)
                else finish
                    (continue_with (Dispatcher.on_command_result (env.now tick) t command_id r) w)
          ]
        ]
      ]

  -- `handleExpired`.
  unfoldable pub handle_expired : ℕ → Result Error DispatchTask → String → Handled
  unfolding load Dispatcher.on_command_timeout continue_with
  handle_expired tick found command_id = elim found [
    | err e ↦ refused e
    | ok t ↦
        let w = load t tick in
        if is_finished t.status
        then ran w (ok tt)
        else finish (continue_with (Dispatcher.on_command_timeout (env.now tick) t command_id) w)
  ]

  -- `Handle` of CancelTask; `found` is what `FindByID` returns.
  unfoldable pub cancel_task : ℕ → Result Error (Option DispatchTask) → String → String → Handled
  unfolding load Dispatcher.cancel persist_outcome
  cancel_task tick found tenant_id task_id =
      if is_blank tenant_id
      then refused tenant_required
      else if is_blank task_id
      then refused task_id_blank
      else elim found [
        | err e ↦ refused e
        | ok none ↦ refused task_not_found
        | ok (some t) ↦
            if not (str_eq t.tenant_id tenant_id)
            then refused task_not_found
            else finish (
                (lift (Dispatcher.cancel (env.now tick) t) >>= λ r.
                put_task r.0 >> persist_outcome env r.1)
                  (load t tick))
      ]
