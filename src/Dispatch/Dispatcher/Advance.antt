-- ===== src/Dispatch/Dispatcher/Advance.antt =====
-- The continuation after a successful command, on a well-formed task.
use vpp_backend.Prelude.{
  ℕ, ◌+◌, ◌≢◌, if◌then◌else◌, ◌≡◌, refl, sym, subst, ◌∙◌, ◌⊎◌, inl, inr, pos, ◌≤ℤ◌, true, false,
  List, [], ◌∷◌, some, All, All-set, All-get_elem?, All-map, All-zip, count-set, count-zero-All,
  get_elem?, is_empty, Ensures, Ensures-mono, arith, Bool-cases, Option-cases,
}
use vpp_backend.Dispatch.Model.{Time, TaskStatus, ActionStatus, DispatchAction, DispatchTask}
use vpp_backend.Dispatch.Action
use vpp_backend.Dispatch.Action.{is_pending_action, is_running_action}
use vpp_backend.Dispatch.Task
use vpp_backend.Dispatch.Task.{is_finished}
use vpp_backend.Dispatch.Task.Order.{next_pending_action-some, next_pending_action-none}
use vpp_backend.Dispatch.Invariant.{
  fits_action, CommandInv, ActionInv, running_actions, TaskInv, Distinct, ids, ids-set,
  awaits_result, awaits_result-set,
}
use vpp_backend.Dispatch.Dispatcher.{
  CommandResultOutcome, refs, put_action, apply_circuit_breaker, advance_task,
  advance_after_success,
}
use vpp_backend.Dispatch.Dispatcher.Breaker.{Breaking, fits_breaking, apply_circuit_breaker-TaskInv}
use vpp_backend.Dispatch.Dispatcher.Waiting.{
  commands_to_dispatch-waits, finished-CommandInv, commands_to_dispatch-fresh,
}

-- Something will move the task on: it is finished, or there are commands to send, or a result is
-- awaited.
abbrev IsLive : DispatchTask → CommandResultOutcome → Type 0
IsLive t o =
    (is_finished t.status ≡ true)
    ⊎ (is_empty o.next_commands ≡ false)
    ⊎ (awaits_result t.actions ≡ true)

-- What a call of the dispatcher leaves: a well-formed task that is live and started, and a flag
-- that tells whether the task is finished.
abbrev pub Advanced : DispatchTask × CommandResultOutcome → Type 0
Advanced r =
    TaskInv r.0
    × (r.1.task_finished ≡ is_finished r.0.status)
    × (r.0.status ≢ TaskStatus.pending)
    × IsLive r.0 r.1

pub refs-is_empty : (i : ℕ) (js : List ℕ) → is_empty (refs i js) ≡ is_empty js
unfolding refs
refs-is_empty i [] = refl
refs-is_empty i (j ∷ js) = refl

pub runs_ne_pending : TaskStatus.running ≢ TaskStatus.pending
runs_ne_pending h = cc

failed_ne_pending : TaskStatus.failed ≢ TaskStatus.pending
failed_ne_pending h = cc

-- The breaker's outcome is one.
pub broken-Advanced :
    (now : Time) (t : DispatchTask) (i : ℕ) (a : DispatchAction) (o : CommandResultOutcome)
    → Breaking t i a
    → Ensures Advanced (apply_circuit_breaker now t i a o)
broken-Advanced now t i a o b =
    Ensures-mono _ Advanced
      (λ r h. (h.0, rw h.1 h.2, (λ e. absurd (failed_ne_pending (sym h.1 ∙ e))), inl (rw h.1 refl)))
      (apply_circuit_breaker now t i a o) (apply_circuit_breaker-TaskInv now t i a b o)

-- A running task of which `n` actions run.
pub record Running (n : ℕ) (t : DispatchTask) : Type 0 where
  pub commands_fit : All ActionInv t.actions
  pub actions_fit : All (λ a. fits_action TaskStatus.running a.status ≡ true) t.actions
  pub runs : t.status ≡ TaskStatus.running
  pub running : running_actions t.actions ≡ n
  pub ids_distinct : Distinct (ids t.actions)

Running-of_TaskInv : (t : DispatchTask) → TaskInv t → t.status ≡ TaskStatus.running → Running 1 t
Running-of_TaskInv t v r = record {
  commands_fit = v.commands_fit;
  actions_fit =
      All-map _ _ (λ x h. subst (λ s. fits_action s x.status ≡ true) r h) t.actions v.actions_fit;
  runs = r;
  running = v.one_running r;
  ids_distinct = v.ids_distinct;
}

pub TaskInv-of_Running : (t : DispatchTask) → Running 1 t → TaskInv t
TaskInv-of_Running t v = record {
  commands_fit = v.commands_fit;
  actions_fit =
      All-map _ _ (λ x h. subst (λ s. fits_action s x.status ≡ true) (sym v.runs) h) t.actions
        v.actions_fit;
  one_running = λ _. v.running;
  ids_distinct = v.ids_distinct;
}

abbrev pub bit : ActionStatus → ℕ
bit s = if is_running_action s then 1 else 0

pub put_action-Running :
    (m n : ℕ) (t : DispatchTask) (i : ℕ) (a : DispatchAction) {old : DispatchAction}
    → Running n t
    → get_elem? t.actions i ≡ some old
    → a.id ≡ old.id
    → ActionInv a
    → fits_action TaskStatus.running a.status ≡ true
    → m + bit old.status ≡ n + bit a.status
    → Running m (put_action i a t)
unfolding put_action
put_action-Running m n t i a v e same_id h fits total = record {
  commands_fit = All-set ActionInv t.actions i a v.commands_fit h;
  actions_fit = All-set _ t.actions i a v.actions_fit fits;
  runs = v.runs;
  running =
      omega (arith, count-set (λ x. is_running_action x.status) t.actions i a e, v.running, total);
  ids_distinct = subst Distinct (sym (ids-set t.actions i a e same_id)) v.ids_distinct;
}

pub pending_of : (s : ActionStatus) → is_pending_action s ≡ true → s ≡ ActionStatus.pending
pending_of s h = ground arith

unfoldable pub started : DispatchAction → DispatchAction
started b = record b { status = ActionStatus.running }

module _ (b : DispatchAction) (h : ActionInv b) (p : is_pending_action b.status ≡ true) where
  fresh-CommandInv : All (CommandInv ActionStatus.pending) b.commands
  fresh-CommandInv = subst (λ s. All (CommandInv s) b.commands) (pending_of b.status p) h.1

  pub started-ActionInv : ActionInv (started b)
  unfolding started
  started-ActionInv = (
    h.0,
    All-map (CommandInv ActionStatus.pending) (CommandInv ActionStatus.running)
        (λ c k. ground arith) b.commands fresh-CommandInv,
  )

  pub started-dispatches : is_empty (Action.commands_to_dispatch (started b)) ≡ false
  unfolding started
  started-dispatches = commands_to_dispatch-fresh (started b) fresh-CommandInv h.0

completed-TaskInv :
    (now : Time) (t : DispatchTask)
    → Running 0 t
    → All (λ a. is_pending_action a.status ≡ false) t.actions
    → TaskInv (record t { status = TaskStatus.completed; finished_at = some now })
completed-TaskInv now t v h = record {
  commands_fit = v.commands_fit;
  actions_fit =
      All-zip (λ x. fits_action TaskStatus.running x.status ≡ true)
        (λ x. (is_pending_action x.status ≡ false) × (is_running_action x.status ≡ false)) _
        (λ x k l. ground arith) t.actions v.actions_fit
        (All-zip _ _ _ (λ x k l. (k, l)) t.actions h (count-zero-All _ t.actions v.running));
  one_running = λ e. cc;
  ids_distinct = v.ids_distinct;
}

-- Between two actions: none runs, and the next one starts or the task completes.
advance_task-Advanced :
    (now : Time) (t : DispatchTask) (o : CommandResultOutcome)
    → Running 0 t
    → o.task_finished ≡ false
    → Ensures Advanced (advance_task now t o)
unfolding advance_task started
advance_task-Advanced now t o v f = elim (Option-cases (Task.next_pending_action t)) [
  | inl e ↦
      rw (e, advance_task, v.runs)
        (completed-TaskInv now t v (next_pending_action-none t e), refl, (λ h. cc), inl refl)
  | inr ((k, b), e) ↦
      let found = next_pending_action-some t e in
      rw (e, advance_task, found.1)
        (
          TaskInv-of_Running _ (
              put_action-Running 1 0 t k (started b) v found.0 refl
                (started-ActionInv b (All-get_elem? ActionInv t.actions k v.commands_fit found.0)
                  found.1)
                refl (rw (pending_of b.status found.1) refl)),
          rw (v.runs) f,
          (λ h. absurd (runs_ne_pending (sym v.runs ∙ h))),
          inr (
              inl (
                refs-is_empty k (Action.commands_to_dispatch (started b))
                ∙ started-dispatches b (All-get_elem? ActionInv t.actions k v.commands_fit found.0)
                    found.1)),
        )
]

-- The action of a command that has just succeeded: it runs, and its commands fit that.
pub record Advancing (t : DispatchTask) (i : ℕ) (a : DispatchAction) : Type 0 where
  pub inv : TaskInv t
  pub task_runs : t.status ≡ TaskStatus.running
  pub old : DispatchAction
  pub at_place : get_elem? t.actions i ≡ some old
  pub old_runs : old.status ≡ ActionStatus.running
  pub same_id : a.id ≡ old.id
  pub runs : a.status ≡ ActionStatus.running
  pub nonempty : is_empty a.commands ≡ false
  pub commands_fit : All (CommandInv ActionStatus.running) a.commands

module _ (now : Time) (t : DispatchTask) (i : ℕ) (a : DispatchAction) (b : Advancing t i a) where
  pub kept-TaskInv : TaskInv (put_action i a t)
  kept-TaskInv = TaskInv-of_Running _ (
      put_action-Running 1 1 t i a (Running-of_TaskInv t b.inv b.task_runs) b.at_place b.same_id
        (rw b.runs (b.nonempty, b.commands_fit)) (rw b.runs refl) (rw (b.runs, b.old_runs) refl))

  completed_action : DispatchAction
  completed_action = record a { status = ActionStatus.completed }

  completed-Running :
      Action.all_commands_finished a ≡ true → Running 0 (put_action i completed_action t)
  unfolding completed_action Action.all_commands_finished
  completed-Running h =
      put_action-Running 0 1 t i completed_action (Running-of_TaskInv t b.inv b.task_runs)
        b.at_place b.same_id
        (b.nonempty, finished-CommandInv a.commands b.commands_fit (ground arith)) refl
        (rw b.old_runs refl)

  breaking : Breaking t i a
  breaking = record {
    inv = b.inv;
    task_runs = b.task_runs;
    old = b.old;
    at_place = b.at_place;
    old_runs = b.old_runs;
    same_id = b.same_id;
    runs = b.runs;
    nonempty = b.nonempty;
    commands_fit =
        All-map (CommandInv ActionStatus.running)
          (λ c. (fits_breaking c.status ≡ true) × (pos c.retry_count ≤ℤ c.max_retries))
          (λ c k. ground arith) a.commands b.commands_fit;
  }

  pub advance_after_success-Advanced :
      (o : CommandResultOutcome)
      → o.task_finished ≡ false
      → Ensures Advanced (advance_after_success now t i a o)
  unfolding advance_after_success completed_action
  advance_after_success-Advanced o f =
      elim (Bool-cases (is_empty (Action.commands_to_dispatch a))) [
        | inr more ↦ rw more (
          kept-TaskInv,
          rw b.task_runs f,
          (λ h. absurd (runs_ne_pending (sym b.task_runs ∙ h))),
          inr (inl (refs-is_empty i (Action.commands_to_dispatch a) ∙ more)),
        )
        | inl idle ↦ elim (Bool-cases (Action.all_commands_finished a)) [
          | inr wait ↦
              rw (idle, wait)
                (
                  kept-TaskInv,
                  rw b.task_runs f,
                  (λ h. absurd (runs_ne_pending (sym b.task_runs ∙ h))),
                  inr (
                      inr (
                        awaits_result-set t.actions i a b.at_place
                          (commands_to_dispatch-waits a b.commands_fit idle wait))),
                )
          | inl over ↦ elim (Bool-cases (Action.any_command_failed a)) [
            | inl broken ↦ rw (idle, over, broken) (broken-Advanced now t i a o breaking)
            | inr fine ↦
                rw (idle, over, fine, b.runs)
                  (advance_task-Advanced now _ _ (completed-Running over) f)
          ]
        ]
      ]
