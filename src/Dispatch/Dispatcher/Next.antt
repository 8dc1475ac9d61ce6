-- ===== src/Dispatch/Dispatcher/Next.antt =====
-- What a result leaves to be sent next.
use mathlib.Core.Bool.{true≢false}
use vpp_backend.Prelude.{
  ℕ, zero, suc, ◌+◌, ◌≡◌, refl, sym, ◌∙◌, subst, inl, inr, ◌⊎◌, String, true, false, ltb_ℤ, pos,
  ◌≤◌, length, count-set, total-set, List, [], ◌∷◌, ◌++◌, none, some, ◌>>=◌, Either, Result, ok,
  err, All, All-map, get_elem?, arith, is_empty, Bool-cases, Option-cases,
}
use vpp_backend.Dispatch.Model.{
  Time, ActionStatus, CommandStatus, CommandResult, ControlCommand, DispatchAction, DispatchTask,
  Error, ExecutionPolicy,
}
use vpp_backend.Dispatch.Command
use vpp_backend.Dispatch.Command.{is_pending, is_sending}
use vpp_backend.Dispatch.Action
use vpp_backend.Dispatch.Action.{places, any_status}
use vpp_backend.Dispatch.Task
use vpp_backend.Dispatch.Task.{Found}
use vpp_backend.Dispatch.Task.Order.{next_pending_action-some}
use vpp_backend.Dispatch.Task.Find.{find_command-some}
use vpp_backend.Dispatch.Dispatcher.{
  no_outcome, on_command_timeout, CommandRef, CommandResultOutcome, refs, put_action, put_command,
  changed_command, apply_circuit_breaker, advance_task, advance_after_success, on_command_result,
}
use vpp_backend.Dispatch.Dispatcher.Recorded.{IsAt, get_elem?-set}
use vpp_backend.Dispatch.Dispatcher.Progress.{
  waiting, Bounded, Genuine, pending_commands, on_command_result-Bounded,
}

-- The place is that of a command of the task that waits to be sent.
abbrev pub WaitsAt : DispatchTask → CommandRef → Type 0
WaitsAt t (i, j) = (c : ControlCommand) × IsAt t.actions i j c × (is_pending c.status ≡ true)

abbrev pub AllWait : DispatchTask × CommandResultOutcome → Type 0
AllWait r =
    All (WaitsAt r.0) r.1.next_commands × (r.1.task_finished ≡ true → r.1.next_commands ≡ [])

-- From `k` on, the entry at `n` waits.
abbrev Pends : ℕ → List ControlCommand → ℕ → Type 0
Pends k cs n =
    (m : ℕ) × (n ≡ k + m)
    × ((c : ControlCommand) × (get_elem? cs m ≡ some c) × (is_pending c.status ≡ true))

shifted :
    (k : ℕ) (x : ControlCommand) (cs : List ControlCommand) (n : ℕ)
    → Pends (suc k) cs n
    → Pends k (x ∷ cs) n
shifted k x cs n (m, e, h) = (suc m, omega (arith, e), h)

places-Pends : (k : ℕ) (cs : List ControlCommand) → All (Pends k cs) (places is_pending k cs)
unfolding places
places-Pends k [] = tt
places-Pends k (c ∷ cs) =
    let rest =
      All-map (Pends (suc k) cs) (Pends k (c ∷ cs)) (shifted k c cs) _ (places-Pends (suc k) cs) in
    elim (Bool-cases (is_pending c.status)) [
      | inl e ↦ rw e ((zero, omega arith, (c, refl, e)), rest)
      | inr e ↦ rw e rest
    ]

All-first : (P : ℕ → Type 0) (js : List ℕ) → All P js → All P (Action.first js)
All-first P [] h = tt
All-first P (j ∷ js) h = (h.0, tt)

policy_cases :
    (p : ExecutionPolicy) → (p ≡ ExecutionPolicy.parallel) ⊎ (p ≡ ExecutionPolicy.sequential)
policy_cases ExecutionPolicy.parallel = inl refl
policy_cases ExecutionPolicy.sequential = inr refl

commands_to_dispatch-Pends :
    (a : DispatchAction) → All (Pends 0 a.commands) (Action.commands_to_dispatch a)
unfolding Action.commands_to_dispatch
commands_to_dispatch-Pends a = elim (policy_cases a.execution_policy) [
  | inl e ↦ rw e (places-Pends 0 a.commands)
  | inr e ↦ elim (Bool-cases (any_status is_sending a.commands)) [
    | inl busy ↦ rw (e, busy) tt
    | inr free ↦ rw (e, free) (All-first _ _ (places-Pends 0 a.commands))
  ]
]

All-refs :
    (t : DispatchTask) (i : ℕ) (a : DispatchAction) (js : List ℕ)
    → get_elem? t.actions i ≡ some a
    → All (Pends 0 a.commands) js
    → All (WaitsAt t) (refs i js)
unfolding refs
All-refs t i a [] at h = tt
All-refs t i a (j ∷ js) at ((m, e, (c, here, waits)), h) = (
  (c, (a, at, subst (λ n. get_elem? a.commands n ≡ some c) (sym (e ∙ zero_add m)) here), waits),
  All-refs t i a js at h,
)
  where
    zero_add : (m : ℕ) → 0 + m ≡ m
    zero_add m = omega arith

broken-AllWait :
    (now : Time) (t : DispatchTask) (i : ℕ) (a : DispatchAction) (o : CommandResultOutcome)
    → o.next_commands ≡ []
    → Either AllWait Genuine (apply_circuit_breaker now t i a o)
unfolding apply_circuit_breaker
broken-AllWait now t i a o e = ground (arith, e)

Either-both {ℓ} :
    {A : Type ℓ} (P Q : A → Type 0) (R : Error → Type 0) (r : Result Error A)
    → Either P R r
    → Either Q R r
    → Either (λ a. P a × Q a) R r
Either-both P Q R (ok a) h k = (h, k)
Either-both P Q R (err e) h k = h

Either-bind {ℓ κ} :
    {A : Type ℓ} {B : Type κ} (Q : B → Type 0) (R : Error → Type 0) (m : Result Error A)
    (next : A → Result Error B)
    → Either (λ _. Unit {0}) R m
    → ((a : A) → Either Q R (next a))
    → Either Q R (m >>= next)
Either-bind Q R (ok a) next h k = k a
Either-bind Q R (err e) next h k = h

mark_succeeded-Genuine :
    (now : Time) (result : CommandResult) (c : ControlCommand)
    → Either (λ _. Unit {0}) Genuine (Command.mark_succeeded now result c)
unfolding Command.mark_succeeded
mark_succeeded-Genuine now result c = ground arith

mark_failed-Genuine :
    (now : Time) (result : CommandResult) (c : ControlCommand)
    → Either (λ _. Unit {0}) Genuine (Command.mark_failed now result c)
unfolding Command.mark_failed
mark_failed-Genuine now result c = ground arith

advance_task-AllWait :
    (now : Time) (t : DispatchTask) (o : CommandResultOutcome)
    → o.next_commands ≡ []
    → o.task_finished ≡ false
    → Either AllWait Genuine (advance_task now t o)
unfolding advance_task put_action
advance_task-AllWait now t o e running = elim (Option-cases (Task.next_pending_action t)) [
  | inl idle ↦ rw (idle, advance_task) (ground (arith, e))
  | inr ((k, b), found) ↦
      let (at, pending, _) = next_pending_action-some t found in
      let b' : DispatchAction = record b { status = ActionStatus.running } in
      rw (found, advance_task, pending)
        (
          All-refs (put_action k b' t) k b' (Action.commands_to_dispatch b')
              (get_elem?-set t.actions k b' at) (commands_to_dispatch-Pends b'),
          (λ h. absurd (true≢false (sym h ∙ running))),
        )
]

module _ (now : Time) (t : DispatchTask) (i : ℕ) (a : DispatchAction) {old : DispatchAction}
    (at_place : get_elem? t.actions i ≡ some old) where
  advance_after_success-AllWait :
      (o : CommandResultOutcome)
      → o.next_commands ≡ []
      → o.task_finished ≡ false
      → Either AllWait Genuine (advance_after_success now t i a o)
  unfolding advance_after_success put_action
  advance_after_success-AllWait o e running =
      elim (Bool-cases (is_empty (Action.commands_to_dispatch a))) [
        | inr more ↦ rw more (
          All-refs (put_action i a t) i a (Action.commands_to_dispatch a)
              (get_elem?-set t.actions i a at_place) (commands_to_dispatch-Pends a),
          (λ h. absurd (true≢false (sym h ∙ running))),
        )
        | inl idle ↦ elim (Bool-cases (Action.all_commands_finished a)) [
          | inr wait ↦
              rw (idle, wait) (subst (All (WaitsAt (put_action i a t))) (sym e) tt, (λ _. e))
          | inl over ↦ elim (Bool-cases (Action.any_command_failed a)) [
            | inl broken ↦ rw (idle, over, broken) (broken-AllWait now t i a o e)
            | inr fine ↦
                rw (idle, over, fine)
                  (elim (Bool-cases (Action.is_running_action a.status)) [
                    | inr stopped ↦ rw stopped (λ h. cc)
                    | inl runs ↦ rw runs (
                        advance_task-AllWait now
                          (put_action i (record a { status = ActionStatus.completed }) t)
                          (record o { changed_actions = o.changed_actions ++ i ∷ [] }) e running)
                  ])
          ]
        ]
      ]

on_command_result-AllWait :
    (now : Time) (t : DispatchTask) (command_id : String) (result : CommandResult)
    → Either AllWait Genuine (on_command_result now t command_id result)
unfolding on_command_result changed_command
on_command_result-AllWait now t command_id result =
    elim (Option-cases (Task.find_command command_id t)) [
      | inl e ↦ rw (e, on_command_result) (λ h. cc)
      | inr (f, e) ↦
          rw (e, on_command_result)
            (elim (Bool-cases result.success) [
              | inl won ↦ simp won (
                  Either-bind AllWait Genuine (Command.mark_succeeded now result f.command) _
                    (mark_succeeded-Genuine now result f.command)
                    (λ c.
                      advance_after_success-AllWait now t f.action_place
                        (put_command f.command_place c f.action)
                        (find_command-some command_id t e).0
                        (changed_command f.action_place f.command_place) refl refl))
              | inr lost ↦ simp lost (
                  Either-bind AllWait Genuine (Command.mark_failed now result f.command) _
                    (mark_failed-Genuine now result f.command)
                    (λ c.
                      broken-AllWait now t f.action_place (put_command f.command_place c f.action)
                        (changed_command f.action_place f.command_place) refl))
            ])
    ]

-- If taking a result over finishes the task, nothing is to be sent next. Otherwise no more commands wait
-- than before, and no more are to be sent next than wait. Each place that is to be sent next is that of
-- a command of the task that waits. No error is the model's own.
pub on_command_result-Waits :
    (now : Time) (t : DispatchTask) (command_id : String) (result : CommandResult)
    → Either
        (λ r. Bounded (pending_commands t) r × AllWait r)
        Genuine
        (on_command_result now t command_id result)
on_command_result-Waits now t command_id result =
    Either-both (Bounded (pending_commands t)) AllWait Genuine _
      (on_command_result-Bounded now t command_id result)
      (on_command_result-AllWait now t command_id result)

-- Nothing is to be sent next, or at most `n` commands, of a task in which at most `n` wait.
abbrev pub Small : ℕ → DispatchTask × CommandResultOutcome → Type 0
Small n r = (r.1.next_commands ≡ []) ⊎ ((pending_commands r.0 ≤ n) × (length r.1.next_commands ≤ n))

pub on_command_result-Small :
    (now : Time) (t : DispatchTask) (command_id : String) (result : CommandResult)
    → Either (Small (pending_commands t)) Genuine (on_command_result now t command_id result)
on_command_result-Small now t command_id result =
    small (on_command_result now t command_id result)
      (on_command_result-Waits now t command_id result)
  where
    small :
        (r : Result Error (DispatchTask × CommandResultOutcome))
        → Either (λ r. Bounded (pending_commands t) r × AllWait r) Genuine r
        → Either (Small (pending_commands t)) Genuine r
    small (err e) h = h
    small (ok (u, o)) h = elim (Bool-cases o.task_finished) [
      | inl over ↦ inl (h.1.1 over)
      | inr goes_on ↦ let b = h.0 goes_on in inr (b.0, omega (arith, b.0, b.1))
    ]

broken-Small :
    (n : ℕ) (now : Time) (t : DispatchTask) (i : ℕ) (a : DispatchAction) (o : CommandResultOutcome)
    → o.next_commands ≡ []
    → Either (Small n) Genuine (apply_circuit_breaker now t i a o)
unfolding apply_circuit_breaker
broken-Small n now t i a o e = ground (arith, e)

-- A retry adds one command that waits.
pub on_command_timeout-Small :
    (now : Time) (t : DispatchTask) (command_id : String)
    → Either (Small (suc (pending_commands t))) Genuine (on_command_timeout now t command_id)
unfolding on_command_timeout Command.can_retry put_action put_command changed_command no_outcome
on_command_timeout-Small now t command_id = elim (Option-cases (Task.find_command command_id t)) [
  | inl e ↦ rw (e, on_command_timeout) (λ h. cc)
  | inr (f, e) ↦ elim (Bool-cases (is_sending f.command.status)) [
    | inr idle ↦ rw (e, on_command_timeout, idle) (inl refl)
    | inl sent ↦ elim (Bool-cases (ltb_ℤ (pos f.command.retry_count) f.command.max_retries)) [
      | inl again ↦
          let (at, here, _) = find_command-some command_id t e in
          let c : ControlCommand = record f.command {
            retry_count = f.command.retry_count + 1;
            status = CommandStatus.pending;
            sent_at = none;
            deadline_at = none;
          } in
          let a : DispatchAction = put_command f.command_place c f.action in
          let counted =
            count-set (λ x. is_pending x.status) f.action.commands f.command_place c here in
          let summed = total-set waiting t.actions f.action_place a at in
          rw (e, on_command_timeout, sent, again)
            (inr (ground (arith, counted, summed), omega arith))
      | inr spent ↦
          rw (e, on_command_timeout, sent, spent)
            (broken-Small _ now t f.action_place _ (changed_command f.action_place f.command_place)
              refl)
    ]
  ]
]
