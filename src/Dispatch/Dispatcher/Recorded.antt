-- ===== src/Dispatch/Dispatcher/Recorded.antt =====
-- What becomes of a command that has its result: the rest of the call leaves it as it is.
use vpp_backend.Prelude.{
  ℕ, zero, suc, ◌≡◌, ◌≢◌, refl, sym, ◌∙◌, subst, ap, inl, inr, String, false, Bool-cases,
  Option-cases, List, [], ◌∷◌, some, get_elem?, set, Ensures, is_empty, arith,
}
use mathlib.Core.Bool.{true≢false}
use mathlib.Core.Option.{some_inj}
use vpp_backend.Prelude.Rows.{Among, Among-append}
use vpp_backend.Dispatch.Model.{
  Time, TaskStatus, ActionStatus, ControlCommand, DispatchAction, DispatchTask,
}
use vpp_backend.Dispatch.Command.{is_pending}
use vpp_backend.Dispatch.Action
use vpp_backend.Dispatch.Action.{is_pending_action}
use vpp_backend.Dispatch.Task
use vpp_backend.Dispatch.Task.Order.{next_pending_action-some}
use vpp_backend.Dispatch.Dispatcher.{
  CommandResultOutcome, put_action, break_rest, apply_circuit_breaker, advance_task,
  advance_after_success,
}

-- The command at a place of the task.
abbrev pub IsAt : List DispatchAction → ℕ → ℕ → ControlCommand → Type 0
IsAt as' i j c =
    (a : DispatchAction) × (get_elem? as' i ≡ some a) × (get_elem? a.commands j ≡ some c)

-- The task holds the command at the place, and the place is among those of the changed commands.
abbrev pub Recorded : ℕ → ℕ → ControlCommand → DispatchTask × CommandResultOutcome → Type 0
Recorded i j c r = IsAt r.0.actions i j c × Among (i, j) r.1.changed_commands

pub get_elem?-set {ℓ} :
    {A : Type ℓ} (xs : List A) (i : ℕ) (v : A) {x : A}
    → get_elem? xs i ≡ some x
    → get_elem? (set xs i v) i ≡ some v
get_elem?-set [] i v e = cc
get_elem?-set (x ∷ xs) zero v e = refl
get_elem?-set (x ∷ xs) (suc i) v e = get_elem?-set xs i v e

get_elem?-set_other {ℓ} :
    {A : Type ℓ} (xs : List A) (i k : ℕ) (v : A) → k ≢ i → get_elem? (set xs k v) i ≡ get_elem? xs i
get_elem?-set_other [] i k v n = refl
get_elem?-set_other (x ∷ xs) zero zero v n = absurd (n refl)
get_elem?-set_other (x ∷ xs) zero (suc k) v n = refl
get_elem?-set_other (x ∷ xs) (suc i) zero v n = refl
get_elem?-set_other (x ∷ xs) (suc i) (suc k) v n = get_elem?-set_other xs i k v (λ e. n (ap suc e))

get_elem?-cancel_pending :
    (cs : List ControlCommand) (j : ℕ) {c : ControlCommand}
    → get_elem? cs j ≡ some c
    → is_pending c.status ≡ false
    → get_elem? (Action.cancel_pending cs) j ≡ some c
unfolding Action.cancel_pending
get_elem?-cancel_pending [] j e h = cc
get_elem?-cancel_pending (x ∷ cs) zero e h =
    rw (subst (λ z. is_pending z.status ≡ false) (sym (some_inj.0 e)) h) e
get_elem?-cancel_pending (x ∷ cs) (suc j) e h = get_elem?-cancel_pending cs j e h

get_elem?-break_rest :
    (failed_id : String) (k : ℕ) (as' : List DispatchAction) (i : ℕ) {a : DispatchAction}
    → get_elem? as' i ≡ some a
    → is_pending_action a.status ≡ false
    → get_elem? (break_rest failed_id k as').actions i ≡ some a
unfolding break_rest
get_elem?-break_rest failed_id k [] i e h = cc
get_elem?-break_rest failed_id k (x ∷ xs) zero e h =
    let idle = subst (λ z. is_pending_action z.status ≡ false) (sym (some_inj.0 e)) h in
    ground (arith, idle, e)
get_elem?-break_rest failed_id k (x ∷ xs) (suc i) e h =
    ground (arith, get_elem?-break_rest failed_id (suc k) xs i e h)

module _ (now : Time) (t : DispatchTask) (i j : ℕ) (c : ControlCommand)
    (settled : is_pending c.status ≡ false) where
  -- The breaker leaves the command, which belongs to the failing action.
  pub apply_circuit_breaker-Recorded :
      (a : DispatchAction) {old : DispatchAction} (o : CommandResultOutcome)
      → get_elem? t.actions i ≡ some old
      → get_elem? a.commands j ≡ some c
      → a.status ≡ ActionStatus.running
      → t.status ≡ TaskStatus.running
      → Among (i, j) o.changed_commands
      → Ensures (Recorded i j c) (apply_circuit_breaker now t i a o)
  unfolding apply_circuit_breaker Action.cancel_pending_commands
  apply_circuit_breaker-Recorded a o place at runs task_runs listed =
      let failed : DispatchAction = record a {
        commands = Action.cancel_pending a.commands;
        status = ActionStatus.failed;
      } in
      rw (runs, task_runs)
        (
          (
            failed,
            get_elem?-break_rest a.id 0 (set t.actions i failed) i
                (get_elem?-set t.actions i failed place) refl,
            get_elem?-cancel_pending a.commands j at settled,
          ),
          Among-append (i, j) _ _ (Among-append (i, j) _ _ listed),
        )

  advance_task-Recorded :
      {a : DispatchAction} (o : CommandResultOutcome)
      → get_elem? t.actions i ≡ some a
      → is_pending_action a.status ≡ false
      → get_elem? a.commands j ≡ some c
      → t.status ≡ TaskStatus.running
      → Among (i, j) o.changed_commands
      → Ensures (Recorded i j c) (advance_task now t o)
  unfolding advance_task
  advance_task-Recorded {a} o place idle at task_runs listed =
      elim (Option-cases (Task.next_pending_action t)) [
        | inl e ↦ rw (e, advance_task, task_runs) ((a, place, at), listed)
        | inr ((k, b), e) ↦
            let (here, pending, _) = next_pending_action-some t e in
            let other : k ≢ i = λ same. true≢false (
              sym pending
              ∙ subst (λ (x : DispatchAction). is_pending_action x.status ≡ false)
                  (some_inj.0 (sym place ∙ subst (λ n. get_elem? t.actions n ≡ some b) same here))
                  idle) in
            rw (e, advance_task, pending)
              ((a, get_elem?-set_other t.actions i k _ other ∙ place, at), listed)
      ]

module _ (now : Time) (t : DispatchTask) (i j : ℕ) (c : ControlCommand)
    (settled : is_pending c.status ≡ false) where
  pub advance_after_success-Recorded :
      (a : DispatchAction) {old : DispatchAction} (o : CommandResultOutcome)
      → get_elem? t.actions i ≡ some old
      → get_elem? a.commands j ≡ some c
      → a.status ≡ ActionStatus.running
      → t.status ≡ TaskStatus.running
      → Among (i, j) o.changed_commands
      → Ensures (Recorded i j c) (advance_after_success now t i a o)
  unfolding advance_after_success put_action
  advance_after_success-Recorded a o place at runs task_runs listed =
      let kept = get_elem?-set t.actions i a place in
      elim (Bool-cases (is_empty (Action.commands_to_dispatch a))) [
        | inr more ↦ rw more ((a, kept, at), listed)
        | inl idle ↦ elim (Bool-cases (Action.all_commands_finished a)) [
          | inr wait ↦ rw (idle, wait) ((a, kept, at), listed)
          | inl over ↦ elim (Bool-cases (Action.any_command_failed a)) [
            | inl broken ↦
                rw (idle, over, broken)
                  (apply_circuit_breaker-Recorded now t i j c settled a o place at runs task_runs
                    listed)
            | inr fine ↦
                rw (idle, over, fine, runs)
                  (advance_task-Recorded now _ i j c settled _
                    (get_elem?-set t.actions i (record a { status = ActionStatus.completed }) place)
                    refl at task_runs listed)
          ]
        ]
      ]
