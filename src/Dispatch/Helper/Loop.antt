-- ===== src/Dispatch/Helper/Loop.antt =====
-- The queue loop of dispatch_helper.go ends: enough fuel is a function of the task and the queue.
use vpp_backend.Prelude.{
  ℕ, ◌+ℤ◌, zero, suc, ◌+◌, ◌-◌, ◌*◌, ◌≤◌, ◌<◌, ◌≡◌, refl, subst, ◌∙◌, ◌⊎◌, inl, inr, String, Bool,
  true, false, List, [], ◌∷◌, ◌++◌, some, Result, ok, err, Either, Option-cases, Bool-cases, length,
  length-append, set, count-set, total-set, arith,
}
use vpp_backend.Dispatch.Model.{TaskStatus, CommandStatus, ControlCommand, DispatchTask, Error}
use vpp_backend.Dispatch.Command.{is_pending}
use vpp_backend.Dispatch.Task.{is_finished}
use vpp_backend.Dispatch.Dispatcher.{CommandRef, CommandResultOutcome, Step, on_command_result}
use vpp_backend.Dispatch.Dispatcher.Progress.{
  waiting, pending_commands, Genuine, Bounded, on_command_result-Bounded, failure-Bounded,
}
use vpp_backend.Dispatch.Store.{get_command, put_at, get_command-some, put_at-set}
use vpp_backend.Dispatch.Helper.{
  Env, World, M, ◌>>◌, GatewayReply, GatewayExecuteResult, GatewayStatus, TaskEvent, proceed,
  resume, save_task_if, publish_finished, announce_if, update_command_row, update_action_row,
  update_task_row, publish, each, persist_outcome, Continuation, conclude, apply_failure,
  completion, send_accepted, send_completed, on_status, on_gateway, dispatch_one, dispatch_commands,
}

-- The call leaves the task in memory alone, and its errors are not the model's own.
abbrev pub Quiet : M (Unit {0}) → Type 0
Quiet m = (w : World) → ((m w).0.task ≡ w.task) × Either (λ _. Unit {0}) Genuine (m w).1

proceed-Quiet :
    (w : World) (p : World × Result Error (Unit {0})) (k : M (Unit {0}))
    → (p.0.task ≡ w.task) × Either (λ _. Unit {0}) Genuine p.1
    → Quiet k
    → let q = proceed p (λ _. k) in (q.0.task ≡ w.task) × Either (λ _. Unit {0}) Genuine q.1
proceed-Quiet w (v, ok a) k h g = ((g v).0 ∙ h.0, (g v).1)
proceed-Quiet w (v, err e) k h g = h

>>-Quiet : (m k : M (Unit {0})) → Quiet m → Quiet k → Quiet (m >> k)
>>-Quiet m k h g w = proceed-Quiet w (m w) k (h w) g

each-Quiet :
    {A : Type 0} (f : A → M (Unit {0}))
    → ((a : A) → Quiet (f a))
    → (xs : List A) → Quiet (each f xs)
unfolding each
each-Quiet f h [] w = (refl, tt)
each-Quiet f h (x ∷ xs) w = >>-Quiet (f x) (each f xs) (h x) (each-Quiet f h xs) w

module _ (env : Env) where
  update_command_row-Quiet : (r : CommandRef) → Quiet (update_command_row env r)
  unfolding update_command_row
  update_command_row-Quiet r w = ground arith

  update_action_row-Quiet : (i : ℕ) → Quiet (update_action_row env i)
  unfolding update_action_row
  update_action_row-Quiet i w = ground arith

  update_task_row-Quiet : Quiet (update_task_row env)
  unfolding update_task_row
  update_task_row-Quiet w = ground arith

  publish-Quiet : (e : TaskEvent) → Quiet (publish env e)
  unfolding publish
  publish-Quiet e w = ground arith

  save_task_if-Quiet : (b : Bool) → Quiet (save_task_if env b)
  save_task_if-Quiet true = update_task_row-Quiet
  save_task_if-Quiet false = λ w. (refl, tt)

  publish_finished-Quiet : (s : TaskStatus) → Quiet (publish_finished env s)
  publish_finished-Quiet TaskStatus.completed = publish-Quiet TaskEvent.task_completed
  publish_finished-Quiet TaskStatus.failed = publish-Quiet TaskEvent.task_failed
  publish_finished-Quiet TaskStatus.cancelled = publish-Quiet TaskEvent.task_cancelled
  publish_finished-Quiet TaskStatus.pending = λ w. (refl, tt)
  publish_finished-Quiet TaskStatus.running = λ w. (refl, tt)

  announce_if-Quiet : (b : Bool) → Quiet (announce_if env b)
  announce_if-Quiet true w = publish_finished-Quiet w.task.status w
  announce_if-Quiet false w = (refl, tt)

  pub persist_outcome-Quiet : (o : CommandResultOutcome) → Quiet (persist_outcome env o)
  unfolding persist_outcome
  persist_outcome-Quiet o =
      >>-Quiet _ _ (each-Quiet _ update_command_row-Quiet o.changed_commands) (
        >>-Quiet _ _ (each-Quiet _ update_action_row-Quiet o.changed_actions)
          (>>-Quiet _ _ (save_task_if-Quiet o.task_changed) (announce_if-Quiet o.task_finished)))

  -- What a call may add to the queue: nothing, or fewer commands than it took off those that wait.
  Adds : ℕ → World × Result Error Continuation → Type 0
  Adds n p =
      Either
        (λ c.
          c.1 ≡ false → (pending_commands p.0.task ≤ n) × (length c.0 ≤ pending_commands p.0.task))
        Genuine p.1

  persisted-Adds :
      (n : ℕ) (t : DispatchTask) (o : CommandResultOutcome) (p : World × Result Error (Unit {0}))
      → Bounded n (t, o)
      → (p.0.task ≡ t) × Either (λ _. Unit {0}) Genuine p.1
      → Adds n (proceed p (λ _ v. (v, ok (o.next_commands, o.task_finished))))
  unfolding Adds
  persisted-Adds n t o (v, ok a) h g = rw g.0 h
  persisted-Adds n t o (v, err e) h g = g.1

  conclude-Adds :
      (n : ℕ) (s : Step) → Either (Bounded n) Genuine s → (w : World) → Adds n (conclude env s w)
  unfolding Adds conclude
  conclude-Adds n (ok (t, o)) h w =
      persisted-Adds n t o (persist_outcome env o (record w { task = t })) h
        (persist_outcome-Quiet o (record w { task = t }))
  conclude-Adds n (err e) h w = h

  apply_failure-Adds :
      (n : ℕ) (command_id code message : String) (w : World)
      → Adds n (apply_failure env command_id code message w)
  unfolding apply_failure
  apply_failure-Adds n command_id code message w =
      conclude-Adds n _ (failure-Bounded n (env.now w.tick) w.task command_id _ refl) w

  -- One entry of the queue adds none, or takes a command off those that wait and adds at most as
  -- many as still do.
  Shrinks : ℕ → World × Result Error Continuation → Type 0
  Shrinks n p =
      Either
        (λ c.
          c.1 ≡ false
          → ((c.0 ≡ []) × (pending_commands p.0.task ≤ n))
            ⊎ ((pending_commands p.0.task < n) × (length c.0 ≤ pending_commands p.0.task)))
        Genuine p.1

  Adds-Shrinks :
      (n : ℕ) (p : World × Result Error Continuation) → 0 < n → Adds (n - 1) p → Shrinks n p
  unfolding Adds Shrinks
  Adds-Shrinks n (w, ok c) pos_n h = λ e. inr (omega (arith, h e), (h e).1)
  Adds-Shrinks n (w, err x) pos_n h = h

  abbrev later : World → World
  later w = record w { tick = suc w.tick }

  quiet-Shrinks :
      (n : ℕ) (t : DispatchTask) (p : World × Result Error (Unit {0}))
      → (p.0.task ≡ t) × Either (λ _. Unit {0}) Genuine p.1
      → pending_commands t ≤ n
      → Shrinks n (proceed p (λ _ v. (v, ok ([], false))))
  unfolding Shrinks
  quiet-Shrinks n t (w, ok _) h le = λ e. inl (refl, rw h.0 le)
  quiet-Shrinks n t (w, err e) h le = h.1

  module _ (r : CommandRef) (c : ControlCommand) (w : World)
      (at_place : get_command r w.task ≡ some c) (waits : is_pending c.status ≡ true) where
    pending_commands-put_at :
        (c' : ControlCommand)
        → is_pending c'.status ≡ false
        → pending_commands (put_at r c' w.task) + 1 ≡ pending_commands w.task
    pending_commands-put_at c' sent =
        let (a, e, inner) = get_command-some r w.task at_place in
        rw (put_at-set r w.task c' e) (
          ground (
            arith,
            total-set waiting w.task.actions r.0 (record a { commands = set a.commands r.1 c' }) e,
            count-set (λ x. is_pending x.status) a.commands r.1 c' inner,
          ))

    some_wait : 0 < pending_commands w.task
    some_wait =
        let (a, e, inner) = get_command-some r w.task at_place in
        let sent : ControlCommand = record c { status = CommandStatus.sending } in
        omega (arith, pending_commands-put_at sent refl)

    send_accepted-Shrinks : Shrinks (pending_commands w.task) (send_accepted env r c (later w))
    unfolding send_accepted
    send_accepted-Shrinks =
        let sent : ControlCommand = record c {
          status = CommandStatus.sending;
          sent_at = some (env.now (suc w.tick));
          deadline_at = some (env.now (suc w.tick) +ℤ c.timeout);
        } in
        let v : World = record (later w) { task = put_at r sent w.task } in
        rw waits (
          quiet-Shrinks (pending_commands w.task) v.task (update_command_row env r v)
            (update_command_row-Quiet r v) (omega (arith, pending_commands-put_at sent refl)))

    send_completed-Shrinks :
        (g : GatewayExecuteResult)
        → Shrinks (pending_commands w.task) (send_completed env r c g (later w))
    unfolding send_completed
    send_completed-Shrinks g =
        let now = env.now (suc w.tick) in
        let sent : ControlCommand = record c {
          status = CommandStatus.sending;
          sent_at = some now;
          deadline_at = some (now +ℤ c.timeout);
        } in
        let t = put_at r sent w.task in
        rw waits (
          Adds-Shrinks (pending_commands w.task) _ some_wait (
            conclude-Adds (pending_commands w.task - 1)
              (on_command_result now t c.id (completion env now g))
              (subst
                (λ n.
                  Either (Bounded n) Genuine (on_command_result now t c.id (completion env now g)))
                (omega (arith, pending_commands-put_at sent refl))
                (on_command_result-Bounded now t c.id (completion env now g)))
              (record (later w) { task = t })))

    failure-Shrinks :
        (code message : String)
        → Shrinks (pending_commands w.task) (apply_failure env c.id code message (later w))
    failure-Shrinks code message =
        Adds-Shrinks (pending_commands w.task) _ some_wait
          (apply_failure-Adds (pending_commands w.task - 1) c.id code message (later w))

    on_status-Shrinks :
        (g : GatewayExecuteResult) (s : GatewayStatus)
        → Shrinks (pending_commands w.task) (on_status env r c g s (later w))
    unfolding on_status
    on_status-Shrinks g GatewayStatus.accepted = send_accepted-Shrinks
    on_status-Shrinks g GatewayStatus.completed = send_completed-Shrinks g
    on_status-Shrinks g GatewayStatus.rejected = failure-Shrinks "gateway_rejected" _
    on_status-Shrinks g (GatewayStatus.unknown n) = failure-Shrinks "gateway_error" _

    on_gateway-Shrinks :
        (reply : GatewayReply)
        → Shrinks (pending_commands w.task) (on_gateway env r c reply (later w))
    unfolding on_gateway
    on_gateway-Shrinks (GatewayReply.failed message) = failure-Shrinks "gateway_error" message
    on_gateway-Shrinks GatewayReply.nil_result =
        failure-Shrinks "gateway_error" "nil gateway result"
    on_gateway-Shrinks (GatewayReply.replied g) = on_status-Shrinks g g.status

  dispatch_one-Shrinks :
      (r : CommandRef) (w : World) → Shrinks (pending_commands w.task) (dispatch_one env r w)
  unfolding dispatch_one Shrinks
  dispatch_one-Shrinks r w = elim (Option-cases (get_command r w.task)) [
    | inl e ↦ rw (e, dispatch_one) λ _. inl (refl, omega arith)
    | inr (c, e) ↦
        rw (e, dispatch_one)
          (elim (Bool-cases (is_pending c.status)) [
            | inr sent ↦ rw sent λ _. inl (refl, omega arith)
            | inl waits ↦ rw waits (on_gateway-Shrinks r c w e waits (env.execute w.tick c))
          ])
  ]

  -- Rounds that the loop makes at most: one for each entry of the queue, and for each command that
  -- waits the entries that sending it can add.
  abbrev pub rounds : DispatchTask → List CommandRef → ℕ
  rounds t queue = length queue + pending_commands t * pending_commands t

  square_step : (n m k : ℕ) → m < n → k ≤ m → k + m * m < n * n
  square_step n m k h le = grind arith

  pub square_mono : (m n : ℕ) → m ≤ n → m * m ≤ n * n
  square_mono m n h = grind arith

  next_rounds :
      (n : ℕ) (queue next : List CommandRef) (m fuel : ℕ)
      → ((next ≡ []) × (m ≤ n)) ⊎ ((m < n) × (length next ≤ m))
      → suc (length queue) + n * n ≤ suc fuel
      → length (queue ++ next) + m * m ≤ fuel
  next_rounds n queue next m fuel (inl (e, h)) le =
      rw (length-append queue next, e) (omega (arith, square_mono m n h))
  next_rounds n queue next m fuel (inr (h, k)) le =
      rw (length-append queue next) (omega (arith, square_step n m (length next) h k))

  resume-ends :
      (loop : List CommandRef → M (Unit {0})) (fuel : ℕ)
      → ((queue : List CommandRef) (w : World)
          → rounds w.task queue ≤ fuel
          → Either (λ _. Unit {0}) Genuine (loop queue w).1)
      → (n : ℕ) (queue : List CommandRef) (p : World × Result Error Continuation) → Shrinks n p
      → suc (length queue) + n * n ≤ suc fuel
      → Either (λ _. Unit {0}) Genuine (proceed p (resume loop queue)).1
  unfolding Shrinks
  resume-ends loop fuel ends n queue (w, err e) h le = h
  resume-ends loop fuel ends n queue (w, ok (next, true)) h le = tt
  resume-ends loop fuel ends n queue (w, ok (next, false)) h le =
      ends (queue ++ next) w (next_rounds n queue next (pending_commands w.task) fuel (h refl) le)

  -- With as much fuel as `rounds` of the task and the queue, the loop over the queue ends by itself:
  -- it never stops because the fuel ran out.
  pub dispatch_commands-ends :
      (fuel : ℕ) (queue : List CommandRef) (w : World)
      → rounds w.task queue ≤ fuel
      → Either (λ _. Unit {0}) Genuine (dispatch_commands env fuel queue w).1
  unfolding dispatch_commands
  dispatch_commands-ends fuel [] w h = tt
  dispatch_commands-ends zero (r ∷ queue) w h = absurd (omega arith)
  dispatch_commands-ends (suc fuel) (r ∷ queue) w h =
      elim (Bool-cases (is_finished w.task.status)) [
        | inl over ↦ rw over tt
        | inr going ↦ rw going (
            resume-ends (dispatch_commands env fuel) fuel (dispatch_commands-ends fuel)
              (pending_commands w.task) queue (dispatch_one env r w) (dispatch_one-Shrinks r w) h)
      ]
