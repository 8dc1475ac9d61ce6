-- ===== src/Dispatch/Dispatcher/Breaker.antt =====
-- The circuit breaker of dispatcher.go on a well-formed task.
use vpp_backend.Prelude.{
  ℕ, suc, pos, ◌≤ℤ◌, ◌⊎◌, inl, inr, ◌≡◌, refl, sym, ◌∙◌, subst, String, str_eq_iff, Bool, true,
  false, List, [], ◌∷◌, some, All, All-set, All-map, All-zip, count-set, count-zero-All, get_elem?,
  set, Ensures, arith, is_empty,
}
use vpp_backend.Dispatch.Model.{
  Time, TaskStatus, ActionStatus, CommandStatus, ControlCommand, DispatchAction, DispatchTask,
}
use vpp_backend.Dispatch.Command.{is_pending}
use vpp_backend.Dispatch.Action
use vpp_backend.Dispatch.Action.{is_pending_action, is_running_action}
use vpp_backend.Dispatch.Invariant.{
  fits_action, CommandInv, ActionInv, running_actions, TaskInv, Distinct, ids, ids-set,
  Distinct-others,
}
use vpp_backend.Dispatch.Dispatcher.{CommandResultOutcome, break_rest, apply_circuit_breaker}

-- A command of the failing action, before its pending ones are cancelled.
abbrev pub fits_breaking : CommandStatus → Bool
fits_breaking CommandStatus.timeout = false
fits_breaking _ = true

-- The action statuses that remain when the failing action has been marked.
abbrev fits_broken : ActionStatus → Bool
fits_broken ActionStatus.running = false
fits_broken ActionStatus.cancelled = false
fits_broken _ = true

pub cancel_pending-All :
    (P Q : ControlCommand → Type 0)
    → ((c : ControlCommand)
        → P c
        → Q (record c { status = CommandStatus.cancelled }) × (is_pending c.status ≡ false → Q c))
    → (cs : List ControlCommand) → All P cs
    → All Q (Action.cancel_pending cs)
unfolding Action.cancel_pending
cancel_pending-All P Q f [] h = tt
cancel_pending-All P Q f (c ∷ cs) h = ground (arith, f c h.0, cancel_pending-All P Q f cs h.1)

pub cancel_pending-is_empty :
    (cs : List ControlCommand) → is_empty (Action.cancel_pending cs) ≡ is_empty cs
unfolding Action.cancel_pending
cancel_pending-is_empty [] = refl
cancel_pending-is_empty (c ∷ cs) = refl

-- What the loop over the other actions meets: those with the failing id are not pending.
abbrev Broken : String → DispatchAction → Type 0
Broken failed_id b =
    ActionInv b
    × (fits_broken b.status ≡ true)
    × (b.id ≡ failed_id → is_pending_action b.status ≡ false)

abbrev Settled : DispatchAction → Type 0
Settled b = ActionInv b × (fits_action TaskStatus.failed b.status ≡ true)

cancelled-ActionInv :
    (b : DispatchAction)
    → ActionInv b
    → is_pending_action b.status ≡ true
    → Settled
        (record b { commands = Action.cancel_pending b.commands; status = ActionStatus.cancelled })
cancelled-ActionInv b h p = (
  (
    rw (cancel_pending-is_empty b.commands) h.0,
    cancel_pending-All (CommandInv b.status) (CommandInv ActionStatus.cancelled)
        (λ c k. ground arith) b.commands h.1,
  ),
  refl,
)

break_rest-Settled :
    (failed_id : String) (k : ℕ) (as' : List DispatchAction)
    → All (Broken failed_id) as'
    → All Settled (break_rest failed_id k as').actions
unfolding break_rest
break_rest-Settled failed_id k [] h = tt
break_rest-Settled failed_id k (a ∷ as') h = ground (
  arith,
  str_eq_iff a.id failed_id,
  cancelled-ActionInv a h.0.0,
  break_rest-Settled failed_id (suc k) as' h.1,
)

ids-break_rest :
    (failed_id : String) (k : ℕ) (as' : List DispatchAction)
    → ids (break_rest failed_id k as').actions ≡ ids as'
unfolding break_rest
ids-break_rest failed_id k [] = refl
ids-break_rest failed_id k (a ∷ as') = ground (arith, ids-break_rest failed_id (suc k) as')

-- The failing action: it runs, and none of its commands is timed out.
pub record Breaking (t : DispatchTask) (i : ℕ) (a : DispatchAction) : Type 0 where
  pub inv : TaskInv t
  pub task_runs : t.status ≡ TaskStatus.running
  pub old : DispatchAction
  pub at_place : get_elem? t.actions i ≡ some old
  pub old_runs : old.status ≡ ActionStatus.running
  pub same_id : a.id ≡ old.id
  pub runs : a.status ≡ ActionStatus.running
  pub nonempty : is_empty a.commands ≡ false
  pub commands_fit :
      All (λ c. (fits_breaking c.status ≡ true) × (pos c.retry_count ≤ℤ c.max_retries)) a.commands

module _ (now : Time) (t : DispatchTask) (i : ℕ) (a : DispatchAction) (b : Breaking t i a) where
  failing : DispatchAction
  unfolding Action.cancel_pending_commands
  failing = record (Action.cancel_pending_commands a) { status = ActionStatus.failed }

  failing-ActionInv : ActionInv failing
  unfolding failing Action.cancel_pending_commands
  failing-ActionInv = (
    rw (cancel_pending-is_empty a.commands) b.nonempty,
    cancel_pending-All (λ c. (fits_breaking c.status ≡ true) × (pos c.retry_count ≤ℤ c.max_retries))
        (CommandInv ActionStatus.failed) (λ c k. ground arith) a.commands b.commands_fit,
  )

  none_runs : running_actions (set t.actions i failing) ≡ 0
  unfolding failing
  none_runs = ground (
    arith,
    b.inv.one_running b.task_runs,
    count-set (λ x. is_running_action x.status) t.actions i failing b.at_place,
  )

  set-Broken : All (Broken a.id) (set t.actions i failing)
  unfolding failing Action.cancel_pending_commands
  set-Broken =
      All-zip ActionInv
        (λ x. (fits_broken x.status ≡ true) × (x.id ≡ a.id → is_pending_action x.status ≡ false))
        (Broken a.id) (λ x h k. (h, k.0, k.1)) _
        (All-set ActionInv t.actions i failing b.inv.commands_fit failing-ActionInv)
        (All-zip _ _ _ (λ x h k. (h, k)) _
          (All-zip
            (λ x.
              (fits_action TaskStatus.running x.status ≡ true) ⊎ (x.status ≡ ActionStatus.failed))
            (λ x. is_running_action x.status ≡ false) (λ x. fits_broken x.status ≡ true)
            (λ x h k. ground arith) _
            (All-set _ t.actions i failing
              (All-map _ _ (λ x h. inl (subst (λ s. fits_action s x.status ≡ true) b.task_runs h)) _
                b.inv.actions_fit)
              (inr refl))
            (count-zero-All _ _ none_runs))
          (Distinct-others t.actions i failing b.inv.ids_distinct b.at_place b.same_id refl))

  -- The breaker always trips, and leaves a well-formed failed task.
  pub apply_circuit_breaker-TaskInv :
      (o : CommandResultOutcome)
      → Ensures
          (λ r. TaskInv r.0 × (r.0.status ≡ TaskStatus.failed) × (r.1.task_finished ≡ true))
          (apply_circuit_breaker now t i a o)
  unfolding apply_circuit_breaker failing Action.cancel_pending_commands
  apply_circuit_breaker-TaskInv o =
      let settled = break_rest-Settled a.id 0 (set t.actions i failing) set-Broken in
      rw (b.runs, b.task_runs)
        (
          record {
            commands_fit = All-map Settled ActionInv (λ x h. h.0) _ settled;
            actions_fit = All-map Settled _ (λ x h. h.1) _ settled;
            one_running = λ h. cc;
            ids_distinct =
                subst Distinct
                  (sym (
                    ids-break_rest a.id 0 (set t.actions i failing)
                    ∙ ids-set t.actions i failing b.at_place b.same_id))
                  b.inv.ids_distinct;
          },
          refl,
          refl,
        )
