-- ===== src/Dispatch/Dispatcher/Progress.antt =====
-- How many commands wait to be sent, before and after a result.
use vpp_backend.Prelude.{
  ℕ, suc, ◌≢◌, ◌+◌, ◌≤◌, ◌≡◌, refl, ap, inl, inr, String, Bool, true, false, ◌||◌, List, [], ◌∷◌,
  ◌++◌, some, ◌>>=◌, Either, length, length-map, count, count-set, total, total-set, total-ge,
  get_elem?, arith, is_empty, Bool-cases, Option-cases,
}
use vpp_backend.Dispatch.Model.{
  Time, ActionStatus, CommandStatus, CommandResult, ControlCommand, DispatchAction, DispatchTask,
  Error, unfinished,
}
use vpp_backend.Dispatch.Command
use vpp_backend.Dispatch.Command.{is_pending, is_sending}
use vpp_backend.Dispatch.Action
use vpp_backend.Dispatch.Action.{places, is_running_action}
use vpp_backend.Dispatch.Task
use vpp_backend.Dispatch.Task.{Found}
use vpp_backend.Dispatch.Task.Order.{next_pending_action-some}
use vpp_backend.Dispatch.Task.Find.{find_command-some}
use vpp_backend.Dispatch.Dispatcher.{
  CommandResultOutcome, refs, put_action, put_command, changed_command, apply_circuit_breaker,
  advance_task, advance_after_success, on_command_result,
}

abbrev pub waiting : DispatchAction → ℕ
waiting a = count (λ c. is_pending c.status) a.commands

-- The commands of a task that wait to be sent.
abbrev pub pending_commands : DispatchTask → ℕ
pending_commands t = total waiting t.actions

-- An error that is not the model's own.
abbrev pub Genuine : Error → Type 0
Genuine e = e ≢ unfinished

-- Unless the task is finished, at most `n` commands wait, and no more are to be sent next than wait.
abbrev pub Bounded : ℕ → DispatchTask × CommandResultOutcome → Type 0
Bounded n r =
    r.1.task_finished ≡ false
    → (pending_commands r.0 ≤ n) × (length r.1.next_commands ≤ pending_commands r.0)

length-places :
    (j : ℕ) (cs : List ControlCommand)
    → length (places is_pending j cs) ≡ count (λ c. is_pending c.status) cs
unfolding places
length-places j [] = refl
length-places j (c ∷ cs) = ground (arith, length-places (suc j) cs)

length-first : (js : List ℕ) → length (Action.first js) ≤ length js
length-first [] = omega arith
length-first (j ∷ js) = omega arith

length-commands_to_dispatch :
    (a : DispatchAction) → length (Action.commands_to_dispatch a) ≤ waiting a
unfolding Action.commands_to_dispatch
length-commands_to_dispatch a =
    ground (arith, length-places 0 a.commands, length-first (places is_pending 0 a.commands))

length-refs : (i : ℕ) (js : List ℕ) → length (refs i js) ≡ length js
unfolding refs
length-refs i js = length-map (λ j. (i, j)) js

broken-Bounded :
    (n : ℕ) (now : Time) (t : DispatchTask) (i : ℕ) (a : DispatchAction) (o : CommandResultOutcome)
    → Either (Bounded n) Genuine (apply_circuit_breaker now t i a o)
unfolding apply_circuit_breaker
broken-Bounded n now t i a o = ground arith

advance_task-Bounded :
    (n : ℕ) (now : Time) (t : DispatchTask) (o : CommandResultOutcome)
    → pending_commands t ≤ n
    → Either (Bounded n) Genuine (advance_task now t o)
unfolding advance_task
advance_task-Bounded n now t o h = elim (Option-cases (Task.next_pending_action t)) [
  | inl e ↦ rw (e, advance_task) (ground arith)
  | inr ((k, b), e) ↦
      let found = next_pending_action-some t e in
      let b' : DispatchAction = record b { status = ActionStatus.running } in
      rw (e, advance_task, found.1)
        λ _. (
          omega (arith, total-set waiting t.actions k b' found.0),
          omega (
            arith,
            total-set waiting t.actions k b' found.0,
            total-ge waiting t.actions k found.0,
            length-commands_to_dispatch b',
            length-refs k (Action.commands_to_dispatch b'),
          ),
        )
]

module _ (n : ℕ) (now : Time) (t : DispatchTask) (i : ℕ) (a old : DispatchAction)
    (at_place : get_elem? t.actions i ≡ some old)
    (bound : pending_commands t + waiting a ≤ n + waiting old) where
  kept-le : pending_commands (put_action i a t) ≤ n
  unfolding put_action
  kept-le = omega (arith, bound, total-set waiting t.actions i a at_place)

  waiting-le-kept : waiting a ≤ pending_commands (put_action i a t)
  unfolding put_action
  waiting-le-kept =
      omega (arith, total-set waiting t.actions i a at_place, total-ge waiting t.actions i at_place)

  advance_after_success-Bounded :
      (o : CommandResultOutcome)
      → o.next_commands ≡ []
      → Either (Bounded n) Genuine (advance_after_success now t i a o)
  unfolding advance_after_success
  advance_after_success-Bounded o none_next =
      elim (Bool-cases (is_empty (Action.commands_to_dispatch a))) [
        | inr more ↦ rw more λ _. (
          kept-le,
          omega (
            arith,
            waiting-le-kept,
            length-commands_to_dispatch a,
            length-refs i (Action.commands_to_dispatch a),
          ),
        )
        | inl idle ↦ elim (Bool-cases (Action.all_commands_finished a)) [
          | inr wait ↦ rw (idle, wait) λ _. (kept-le, omega (arith, ap length none_next))
          | inl over ↦ elim (Bool-cases (Action.any_command_failed a)) [
            | inl broken ↦ rw (idle, over, broken) (broken-Bounded n now t i a o)
            | inr fine ↦
                rw (idle, over, fine)
                  (elim (Bool-cases (is_running_action a.status)) [
                    | inr stopped ↦ rw stopped (λ e. cc)
                    | inl runs ↦ rw runs (
                        advance_task-Bounded n now
                          (put_action i (record a { status = ActionStatus.completed }) t)
                          (record o { changed_actions = o.changed_actions ++ i ∷ [] })
                          (omega (
                            arith,
                            bound,
                            total-set waiting t.actions i
                                (record a { status = ActionStatus.completed }) at_place,
                          )))
                  ])
          ]
        ]
      ]

abbrev fails_from : CommandStatus → Bool
fails_from s = is_sending s || is_pending s || Command.is_timeout s

succeeded-Bounded :
    (now : Time) (t : DispatchTask) (command_id : String) (f : Found)
    → Task.find_command command_id t ≡ some f
    → is_sending f.command.status ≡ true
    → (c : ControlCommand) → c.status ≡ CommandStatus.succeeded
    → Either (Bounded (pending_commands t)) Genuine (
        advance_after_success now t f.action_place
          (put_command f.command_place c f.action)
          (changed_command f.action_place f.command_place))
unfolding put_command changed_command
succeeded-Bounded now t command_id f e sent c done =
    let found = find_command-some command_id t e in
    advance_after_success-Bounded (pending_commands t) now t f.action_place
      (put_command f.command_place c f.action) f.action found.0
      (ground
        (arith, count-set (λ x. is_pending x.status) f.action.commands f.command_place c found.1))
      (changed_command f.action_place f.command_place) refl

lost-Bounded :
    (n : ℕ) (now : Time) (t : DispatchTask) (f : Found) (result : CommandResult)
    → Either (Bounded n) Genuine (
        Command.mark_failed now result f.command >>= λ c.
        apply_circuit_breaker now t f.action_place
          (put_command f.command_place c f.action)
          (changed_command f.action_place f.command_place))
unfolding Command.mark_failed
lost-Bounded n now t f result = elim (Bool-cases (fails_from f.command.status)) [
  | inr refused ↦ rw (Command.mark_failed, refused) (λ h. cc)
  | inl allowed ↦
      rw (Command.mark_failed, allowed)
        (broken-Bounded n now t f.action_place
          (put_command f.command_place
            (record f.command {
              status = CommandStatus.failed;
              finished_at = some now;
              result = some result;
            })
            f.action)
          (changed_command f.action_place f.command_place))
]

-- A failure result ends the task or is refused, so it leaves nothing to send.
pub failure-Bounded :
    (n : ℕ) (now : Time) (t : DispatchTask) (command_id : String) (result : CommandResult)
    → result.success ≡ false
    → Either (Bounded n) Genuine (on_command_result now t command_id result)
unfolding on_command_result
failure-Bounded n now t command_id result lost =
    elim (Option-cases (Task.find_command command_id t)) [
      | inl e ↦ rw (e, on_command_result) (λ h. cc)
      | inr (f, e) ↦ simp (e, on_command_result, lost) (lost-Bounded n now t f result)
    ]

-- Taking a result over never adds to the commands that wait, and no more are to be sent next than wait;
-- no error of it is the model's own.
pub on_command_result-Bounded :
    (now : Time) (t : DispatchTask) (command_id : String) (result : CommandResult)
    → Either (Bounded (pending_commands t)) Genuine (on_command_result now t command_id result)
unfolding on_command_result
on_command_result-Bounded now t command_id result =
    elim (Option-cases (Task.find_command command_id t)) [
      | inl e ↦ rw (e, on_command_result) (λ h. cc)
      | inr (f, e) ↦
          rw (e, on_command_result)
            (elim (Bool-cases result.success) [
              | inl won ↦ rw won (elim (Bool-cases (is_sending f.command.status)) [
                | inr idle ↦ rw idle (λ h. cc)
                | inl sent ↦ rw sent (
                    succeeded-Bounded now t command_id f e sent
                      (record f.command {
                        status = CommandStatus.succeeded;
                        finished_at = some now;
                        result = some (record result { success = true });
                      })
                      refl)
              ])
              | inr lost ↦ simp lost (lost-Bounded (pending_commands t) now t f result)
            ])
    ]
