-- ===== src/Dispatch/Dispatcher/Results.antt =====
-- OnCommandResult and OnCommandTimeout on a well-formed task.
use vpp_backend.Prelude.{
  pos, ltb_ℤ, ◌≤ℤ◌, ◌≡◌, refl, sym, subst, ◌∙◌, ◌⊎◌, inl, inr, String, true, false, some, All,
  All-set, All-map, All-get_elem?, get_elem?, set-is_empty, Ensures, Ensures-mono, Ensures-both,
  arith, none, [], ◌∷◌, set, ◌+◌, if◌then◌else◌, Bool-cases,
}
use vpp_backend.Dispatch.Model.{
  Time, TaskStatus, ActionStatus, CommandStatus, CommandResult, ControlCommand, DispatchTask,
}
use vpp_backend.Dispatch.Command
use vpp_backend.Dispatch.Command.{new_failure_result}
use vpp_backend.Dispatch.Dispatcher.Recorded.{
  Recorded, get_elem?-set, apply_circuit_breaker-Recorded, advance_after_success-Recorded,
}
use vpp_backend.Dispatch.Task
use vpp_backend.Dispatch.Task.{Found}
use vpp_backend.Dispatch.Task.Find.{find_command-some}
use vpp_backend.Dispatch.Invariant.{
  fits_action, CommandInv, ActionInv, TaskInv, IsSettled, finished-IsSettled,
}
use vpp_backend.Dispatch.Dispatcher.{
  CommandResultOutcome, timed_out, put_action, put_command, changed_command, on_command_result,
  on_command_timeout,
}
use vpp_backend.Dispatch.Dispatcher.Breaker.{Breaking, fits_breaking, apply_circuit_breaker-TaskInv}
use vpp_backend.Dispatch.Dispatcher.Advance.{
  Advanced, Advancing, advance_after_success-Advanced, broken-Advanced, kept-TaskInv,
  runs_ne_pending,
}

-- A command of a running task, found by its id.
pub record Holds (t : DispatchTask) (command_id : String) (f : Found) : Type 0 where
  pub inv : TaskInv t
  pub task_runs : t.status ≡ TaskStatus.running
  pub found : Task.find_command command_id t ≡ some f

settle :
    (r : DispatchTask × CommandResultOutcome)
    → TaskInv r.0 × (r.0.status ≡ TaskStatus.failed) × (r.1.task_finished ≡ true)
    → TaskInv r.0 × (r.0.status ≡ TaskStatus.failed) × (r.1.task_finished ≡ true) × IsSettled r.0
settle r h = (h.0, h.1, h.2, finished-IsSettled r.0 h.0 (rw h.1 refl))

-- The command with its end: the result and the time.
abbrev pub ended : Time → CommandResult → CommandStatus → ControlCommand → ControlCommand
ended now result status c = record c {
  status = status;
  finished_at = some now;
  result = some result;
}

abbrev pub with_result : Time → CommandResult → ControlCommand → ControlCommand
with_result now result c =
    ended now result (if result.success then CommandStatus.succeeded else CommandStatus.failed) c

-- What a timeout of the command makes of the task.
abbrev pub TimedOut : Time → DispatchTask → Found → DispatchTask × CommandResultOutcome → Type 0
TimedOut now t f r =
    ((ltb_ℤ (pos f.command.retry_count) f.command.max_retries ≡ true)
      × (r.0 ≡ record t {
        actions = set t.actions f.action_place (record f.action {
          commands = set f.action.commands f.command_place (record f.command {
            retry_count = f.command.retry_count + 1;
            status = CommandStatus.pending;
            sent_at = none;
            deadline_at = none;
          });
        });
      })
      × (r.1.changed_commands ≡ (f.action_place, f.command_place) ∷ [])
      × (r.1.next_commands ≡ (f.action_place, f.command_place) ∷ []))
    ⊎ ((ltb_ℤ (pos f.command.retry_count) f.command.max_retries ≡ false)
        × Recorded f.action_place f.command_place
            (ended now (new_failure_result "timeout" "command timed out") CommandStatus.failed
              f.command)
            r
        × (r.0.status ≡ TaskStatus.failed)
        × IsSettled r.0)

settle_timeout :
    (now : Time) (t : DispatchTask) (f : Found)
    → ltb_ℤ (pos f.command.retry_count) f.command.max_retries ≡ false
    → (r : DispatchTask × CommandResultOutcome)
    → Advanced r
      × ((TaskInv r.0 × (r.0.status ≡ TaskStatus.failed) × (r.1.task_finished ≡ true))
          × Recorded f.action_place f.command_place
              (ended now timed_out CommandStatus.failed f.command)
              r)
    → Advanced r × TimedOut now t f r
unfolding timed_out
settle_timeout now t f spent r (live, (h, recorded)) =
    (live, inr (spent, recorded, h.1, (settle r h).3))

module _ (t : DispatchTask) (command_id : String) (f : Found) (h : Holds t command_id f) where
  at_action : get_elem? t.actions f.action_place ≡ some f.action
  at_action = (find_command-some command_id t h.found).0

  found-ActionInv : ActionInv f.action
  found-ActionInv = All-get_elem? ActionInv t.actions f.action_place h.inv.commands_fit at_action

  found-CommandInv : CommandInv f.action.status f.command
  found-CommandInv =
      All-get_elem? (CommandInv f.action.status) f.action.commands f.command_place found-ActionInv.1
        (find_command-some command_id t h.found).1

  found-fits : fits_action TaskStatus.running f.action.status ≡ true
  found-fits =
      subst (λ s. fits_action s f.action.status ≡ true) h.task_runs
        (All-get_elem? (λ a. fits_action t.status a.status ≡ true) t.actions f.action_place
          h.inv.actions_fit at_action)

  -- A command that is awaited in a running task belongs to a running action.
  sending_runs : f.command.status ≡ CommandStatus.sending → f.action.status ≡ ActionStatus.running
  sending_runs s = ground (arith, found-fits, found-CommandInv.0)

  advancing :
      (c : ControlCommand)
      → f.action.status ≡ ActionStatus.running
      → CommandInv ActionStatus.running c
      → Advancing t f.action_place (put_command f.command_place c f.action)
  unfolding put_command
  advancing c r k = record {
    inv = h.inv;
    task_runs = h.task_runs;
    old = f.action;
    at_place = at_action;
    old_runs = r;
    same_id = refl;
    runs = r;
    nonempty = set-is_empty f.action.commands f.command_place c ∙ found-ActionInv.0;
    commands_fit =
        All-set (CommandInv ActionStatus.running) f.action.commands f.command_place c
          (subst (λ s. All (CommandInv s) f.action.commands) r found-ActionInv.1) k;
  }

  breaking :
      (c : ControlCommand)
      → f.action.status ≡ ActionStatus.running
      → fits_breaking c.status ≡ true
      → pos c.retry_count ≤ℤ c.max_retries
      → Breaking t f.action_place (put_command f.command_place c f.action)
  unfolding put_command
  breaking c r fits bound = record {
    inv = h.inv;
    task_runs = h.task_runs;
    old = f.action;
    at_place = at_action;
    old_runs = r;
    same_id = refl;
    runs = r;
    nonempty = set-is_empty f.action.commands f.command_place c ∙ found-ActionInv.0;
    commands_fit =
        All-set (λ x. (fits_breaking x.status ≡ true) × (pos x.retry_count ≤ℤ x.max_retries))
          f.action.commands f.command_place c
          (All-map (CommandInv ActionStatus.running) _ (λ x k. ground arith) f.action.commands
            (subst (λ s. All (CommandInv s) f.action.commands) r found-ActionInv.1))
          (fits, bound);
  }

  -- The command as it stands in its action after the change.
  changed_at :
      (c : ControlCommand)
      → get_elem? (put_command f.command_place c f.action).commands f.command_place ≡ some c
  unfolding put_command
  changed_at c =
      get_elem?-set f.action.commands f.command_place c (find_command-some command_id t h.found).1

  still_runs :
      (c : ControlCommand)
      → f.action.status ≡ ActionStatus.running
      → (put_command f.command_place c f.action).status ≡ ActionStatus.running
  unfolding put_command
  still_runs c r = r

  -- A result for an awaited command of a well-formed running task is always processed: the command at
  -- its place has become succeeded or failed, as the result says, with the result and the time, and
  -- counts as changed; the task stays well formed, the flag for a finished task is right, and the task
  -- is finished, has commands to send next or awaits a result.
  pub on_command_result-Advanced :
      (now : Time) (result : CommandResult)
      → f.command.status ≡ CommandStatus.sending
      → Ensures
          (λ r.
            Advanced r
            × Recorded f.action_place f.command_place (with_result now result f.command) r)
          (on_command_result now t command_id result)
  unfolding on_command_result changed_command
  on_command_result-Advanced now result s = elim (Bool-cases result.success) [
    | inl won ↦
        let c = ended now (record result { success = true }) CommandStatus.succeeded f.command in
        rw (h.found, on_command_result, won, s)
          (Ensures-both Advanced (Recorded f.action_place f.command_place c) _
            (advance_after_success-Advanced now t f.action_place _
              (advancing _ (sending_runs s) (refl, found-CommandInv.1))
              (changed_command f.action_place f.command_place) refl)
            (advance_after_success-Recorded now t f.action_place f.command_place c refl
              (put_command f.command_place c f.action)
              (changed_command f.action_place f.command_place) at_action (changed_at c)
              (still_runs c (sending_runs s)) h.task_runs (inl refl)))
    | inr lost ↦
        let c = ended now (record result { success = false }) CommandStatus.failed f.command in
        rw (h.found, on_command_result, lost, s)
          (Ensures-both Advanced (Recorded f.action_place f.command_place c) _
            (broken-Advanced now t f.action_place _ (changed_command f.action_place f.command_place)
              (breaking _ (sending_runs s) refl found-CommandInv.1))
            (apply_circuit_breaker-Recorded now t f.action_place f.command_place c refl
              (put_command f.command_place c f.action)
              (changed_command f.action_place f.command_place) at_action (changed_at c)
              (still_runs c (sending_runs s)) h.task_runs (inl refl)))
  ]

  -- A failure result for a command, awaited or still to be sent, of a running action of a
  -- well-formed running task trips the circuit breaker: the task is well formed and failed, the
  -- flag for a finished task is set, and nothing of it is pending or running.
  pub on_command_result-IsSettled :
      (now : Time) (result : CommandResult)
      → result.success ≡ false
      → f.action.status ≡ ActionStatus.running
      → (f.command.status ≡ CommandStatus.sending) ⊎ (f.command.status ≡ CommandStatus.pending)
      → Ensures
          (λ r.
            TaskInv r.0
            × (r.0.status ≡ TaskStatus.failed)
            × (r.1.task_finished ≡ true)
            × IsSettled r.0)
          (on_command_result now t command_id result)
  unfolding on_command_result
  on_command_result-IsSettled now result lost r (inl s) =
      rw (h.found, on_command_result, lost, s)
        (Ensures-mono _ _ settle _ (
          apply_circuit_breaker-TaskInv now t f.action_place _
            (breaking _ r refl found-CommandInv.1)
            (changed_command f.action_place f.command_place)))
  on_command_result-IsSettled now result lost r (inr s) =
      rw (h.found, on_command_result, lost, s)
        (Ensures-mono _ _ settle _ (
          apply_circuit_breaker-TaskInv now t f.action_place _
            (breaking _ r refl found-CommandInv.1)
            (changed_command f.action_place f.command_place)))

  -- The timeout of an awaited command of a well-formed running task is always processed: the task stays
  -- well formed, the flag for a finished task is right, and the task is finished, has commands to send
  -- next or awaits a result. If the command has been retried fewer times than its limit, one more retry
  -- is counted and only this command is changed, waiting again, and sent next; otherwise it has failed
  -- as timed out and counts as changed, the task has failed, and nothing of it is pending or running.
  pub on_command_timeout-Advanced :
      (now : Time)
      → f.command.status ≡ CommandStatus.sending
      → Ensures (λ r. Advanced r × TimedOut now t f r) (on_command_timeout now t command_id)
  unfolding on_command_timeout Command.can_retry put_action put_command changed_command
  on_command_timeout-Advanced now s =
      elim (Bool-cases (ltb_ℤ (pos f.command.retry_count) f.command.max_retries)) [
        | inl again ↦
            rw (h.found, on_command_timeout, s, again)
              (
                (
                  kept-TaskInv now t f.action_place _
                      (advancing _ (sending_runs s) (refl, ground arith)),
                  rw h.task_runs refl,
                  (λ e. absurd (runs_ne_pending (sym h.task_runs ∙ e))),
                  inr (inl refl),
                ),
                inl (refl, refl, refl, refl),
              )
        | inr spent ↦
            let c = ended now timed_out CommandStatus.failed f.command in
            Ensures-mono _ _ (settle_timeout now t f spent) (on_command_timeout now t command_id) (
              rw (h.found, on_command_timeout, s, spent)
                (Ensures-both Advanced _ _
                  (broken-Advanced now t f.action_place _
                    (changed_command f.action_place f.command_place)
                    (breaking _ (sending_runs s) refl found-CommandInv.1))
                  (Ensures-both _ (Recorded f.action_place f.command_place c) _
                    (apply_circuit_breaker-TaskInv now t f.action_place _
                      (breaking _ (sending_runs s) refl found-CommandInv.1)
                      (changed_command f.action_place f.command_place))
                    (apply_circuit_breaker-Recorded now t f.action_place f.command_place c refl
                      (put_command f.command_place c f.action)
                      (changed_command f.action_place f.command_place) at_action (changed_at c)
                      (still_runs c (sending_runs s)) h.task_runs (inl refl)))))
      ]
