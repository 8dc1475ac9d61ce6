-- ===== src/Dispatch/Submit/Start.antt =====
-- startTaskAndFirstAction on a well-formed task.
use vpp_backend.Prelude.{
  ℕ, ◌≡◌, refl, ◌⊎◌, inl, inr, true, false, List, [], ◌∷◌, ◌++◌, some, Result, err, Either,
  is_empty, All, All-get_elem?, All-map, All-count-zero, Bool-cases, Option-cases, arith, subst,
  sym, ◌∙◌, get_elem?,
}
use vpp_backend.Dispatch.Model.{
  Time, TaskStatus, DispatchAction, DispatchTask, Error, persist_failed, publish_failed,
}
use vpp_backend.Dispatch.Action
use vpp_backend.Dispatch.Action.{is_pending_action, is_running_action}
use vpp_backend.Dispatch.Task
use vpp_backend.Dispatch.Task.Order.{next_pending_action-some, next_pending_action-none}
use vpp_backend.Dispatch.Invariant.{fits_action, ActionInv, TaskInv}
use vpp_backend.Dispatch.Dispatcher.{CommandRef, refs, put_action}
use vpp_backend.Dispatch.Dispatcher.Advance.{
  Running, TaskInv-of_Running, put_action-Running, pending_of, started, started-ActionInv,
  started-dispatches, refs-is_empty,
}
use vpp_backend.Dispatch.Store.{save_action, write_task}
use vpp_backend.Dispatch.Helper.{
  pure, ◌>>◌, task_started, Env, World, M, proceed, call, update_task_row, update_action_row,
  publish, start_first_action, start_task_and_first_action,
}

-- A call of a repository or of the publisher fails, or has its effect and is followed by `k`.
call-cases :
    {B : Type 0} (P : World × Result Error B → Type 0) (env : Env) (e : Error)
    (effect : World → World) (w : World) (k : Unit {0} → M B)
    → ((v : World) → P (v, err e))
    → ((v : World) → v.task ≡ w.task → P (k tt (effect v)))
    → P (proceed (call env e effect w) k)
unfolding call
call-cases P env e effect w k failed went = elim (Bool-cases (env.succeeds w.tick)) [
  | inl kept ↦ rw (kept, call) (went _ refl)
  | inr lost ↦ rw (lost, call) (failed _)
]

-- The commands to send are there, and the task runs; or the store or the publisher failed.
abbrev pub Started : World × Result Error (List CommandRef) → Type 0
Started p =
    Either
      (λ next. TaskInv p.0.task × (p.0.task.status ≡ TaskStatus.running) × (is_empty next ≡ false))
      (λ e. (e ≡ persist_failed) ⊎ (e ≡ publish_failed)) p.1

first_started :
    (t : DispatchTask) (k : ℕ) (b : DispatchAction)
    → Running 0 t
    → get_elem? t.actions k ≡ some b
    → is_pending_action b.status ≡ true
    → let t' = put_action k (started b) t in
      TaskInv t'
      × (t'.status ≡ TaskStatus.running)
      × (is_empty (refs k (Action.commands_to_dispatch (started b))) ≡ false)
unfolding started put_action
first_started t k b v at p =
    let fits = All-get_elem? ActionInv t.actions k v.commands_fit at in
    (
      TaskInv-of_Running _ (
          put_action-Running 1 0 t k (started b) v at refl (started-ActionInv b fits p) refl
            (rw (pending_of b.status p) refl)),
      v.runs,
      refs-is_empty k (Action.commands_to_dispatch (started b)) ∙ started-dispatches b fits p,
    )

-- A task that starts: none of its actions runs yet.
begun :
    (now : Time) (t : DispatchTask)
    → TaskInv t
    → t.status ≡ TaskStatus.pending
    → Running 0 (record t { status = TaskStatus.running; started_at = some now })
      × All (λ a. is_pending_action a.status ≡ true) t.actions
begun now t v p =
    let fits = subst (λ s. All (λ a. fits_action s a.status ≡ true) t.actions) p v.actions_fit in
    (
      record {
        commands_fit = v.commands_fit;
        actions_fit = All-map _ _ (λ a h. ground arith) t.actions fits;
        runs = refl;
        running =
            All-count-zero (λ a. is_running_action a.status) t.actions
              (All-map _ _ (λ a h. ground arith) t.actions fits);
        ids_distinct = v.ids_distinct;
      },
      All-map _ _ (λ a h. ground arith) t.actions fits,
    )

module _ (env : Env) where
  start_first_action-Started :
      (w : World)
      → Running 0 w.task
      → All (λ a. is_pending_action a.status ≡ true) w.task.actions
      → is_empty w.task.actions ≡ false
      → Started (start_first_action env w)
  unfolding start_first_action update_action_row started
  start_first_action-Started w v p n = elim (Option-cases (Task.next_pending_action w.task)) [
    | inl none_left ↦
        absurd (some_pending w.task.actions p (next_pending_action-none w.task none_left) n)
    | inr ((k, b), e) ↦
        let found = next_pending_action-some w.task e in
        rw (e, start_first_action, found.1)
          (call-cases Started env persist_failed
            (λ u. record u { store = save_action k u.task u.store })
            (record w { task = put_action k (started b) w.task })
            (λ _. pure (refs k (Action.commands_to_dispatch (started b)))) (λ u. inl refl)
            (λ u same.
              subst
                (λ t.
                  TaskInv t
                  × (t.status ≡ TaskStatus.running)
                  × (is_empty (refs k (Action.commands_to_dispatch (started b))) ≡ false))
                (sym same) (first_started w.task k b v found.0 found.1)))
  ]
    where
      some_pending :
          (as' : List DispatchAction)
          → All (λ a. is_pending_action a.status ≡ true) as'
          → All (λ a. is_pending_action a.status ≡ false) as'
          → is_empty as' ≡ false
          → ⊥
      some_pending [] h k l = cc
      some_pending (a ∷ as') h k l = ground arith

  -- A well-formed pending task that has an action is started as a well-formed running one, with
  -- commands to send, unless the store or the publisher fails; nothing else can go wrong.
  pub start_task_and_first_action-Started :
      (w : World)
      → TaskInv w.task
      → w.task.status ≡ TaskStatus.pending
      → is_empty w.task.actions ≡ false
      → Started (start_task_and_first_action env w)
  unfolding start_task_and_first_action update_task_row publish
  start_task_and_first_action-Started w v p n =
      let t = record w.task { status = TaskStatus.running; started_at = some (env.now w.tick) } in
      let (r, all) = begun (env.now w.tick) w.task v p in
      rw (p, start_task_and_first_action)
        (call-cases Started env persist_failed (λ u. record u { store = write_task u.task u.store })
          (record w { task = t }) (λ _. publish env task_started >> start_first_action env)
          (λ u. inl refl)
          (λ u same.
            call-cases Started env publish_failed
              (λ x. record x { events = x.events ++ task_started ∷ [] })
              (record u { store = write_task u.task u.store }) (λ _. start_first_action env)
              (λ x. inr refl)
              (λ x again.
                let path = again ∙ same in
                start_first_action-Started _ (subst (Running 0) (sym path) r)
                  (subst (λ y. All (λ a. is_pending_action a.status ≡ true) y.actions) (sym path)
                    all)
                  (subst (λ y. is_empty y.actions ≡ false) (sym path) n))))
