-- ===== src/Dispatch/Handlers/Ends.antt =====
-- The handlers of a result and of an expired deadline come to their end.
use vpp_backend.Prelude.{
  ℕ, suc, ◌+◌, ◌*◌, ◌≤◌, ◌≡◌, refl, sym, subst, ◌∙◌, inl, inr, String, false, is_blank, Option,
  Result, ok, err, Either, is_empty, arith, Bool-cases, Option-cases,
}
use vpp_backend.Dispatch.Model.{CommandResult, DispatchTask}
use vpp_backend.Dispatch.Command.{is_terminal}
use vpp_backend.Dispatch.Task
use vpp_backend.Dispatch.Task.{Found, is_finished}
use vpp_backend.Dispatch.Dispatcher.{CommandResultOutcome, Step}
use vpp_backend.Dispatch.Dispatcher.Progress.{pending_commands, Genuine}
use vpp_backend.Dispatch.Dispatcher.Next.{Small, on_command_result-Small, on_command_timeout-Small}
use vpp_backend.Dispatch.Helper.{
  Env, World, M, proceed, persist_outcome, apply_outcome_and_continue,
}
use vpp_backend.Dispatch.Helper.Loop.{
  rounds, square_mono, persist_outcome-Quiet, dispatch_commands-ends,
}
use vpp_backend.Dispatch.Handlers.{Handled, continue_with, handle_command_result, handle_expired}

-- The call was refused or came to its end: it did not stop because the fuel ran out.
abbrev pub HasEnded : Handled → Type 0
HasEnded (Handled.refused e) = Genuine e
HasEnded (Handled.ran w r) = Either (λ _. Unit {0}) Genuine r

proceed-ends :
    (w : World) (p : World × Result _ (Unit {0})) (k : M (Unit {0}))
    → (p.0.task ≡ w.task) × Either (λ _. Unit {0}) Genuine p.1
    → ((v : World) → v.task ≡ w.task → Either (λ _. Unit {0}) Genuine (k v).1)
    → Either (λ _. Unit {0}) Genuine (proceed p (λ _. k)).1
proceed-ends w (v, ok a) k h f = f v h.0
proceed-ends w (v, err e) k h f = h.1

module _ (env : Env) (fuel n : ℕ) (enough : n + n * n ≤ fuel) where
  apply_outcome-ends :
      (t : DispatchTask) (o : CommandResultOutcome) (w : World)
      → w.task ≡ t
      → Small n (t, o)
      → Either (λ _. Unit {0}) Genuine (apply_outcome_and_continue env fuel o w).1
  unfolding apply_outcome_and_continue
  apply_outcome-ends t o w same small =
      proceed-ends w (persist_outcome env o w) _ (persist_outcome-Quiet env o w) (λ v kept.
        elim (Bool-cases (is_empty o.next_commands)) [
          | inl none_next ↦ rw none_next tt
          | inr more ↦ rw more (
              dispatch_commands-ends env fuel o.next_commands v (
                subst (λ x. rounds env x o.next_commands ≤ fuel) (sym (kept ∙ same))
                  (fits small more)))
        ])
    where
      fits : Small n (t, o) → is_empty o.next_commands ≡ false → rounds env t o.next_commands ≤ fuel
      fits (inl e) more = absurd (ground (arith, e, more))
      fits (inr (h, k)) more = omega (arith, enough, k, square_mono env (pending_commands t) n h)

  continue_with-ends :
      (s : Step) (w : World)
      → Either (Small n) Genuine s
      → Either (λ _. Unit {0}) Genuine (continue_with env fuel s w).1
  unfolding continue_with
  continue_with-ends (ok (t, o)) w h = apply_outcome-ends t o (record w { task = t }) refl h
  continue_with-ends (err e) w h = h

module _ (env : Env) (fuel tick : ℕ) (t : DispatchTask)
    (enough : suc (pending_commands t) + suc (pending_commands t) * suc (pending_commands t)
      ≤ fuel) where
  handle_command_result-HasEnded :
      (id : String) (result : Option CommandResult)
      → HasEnded (handle_command_result env fuel tick (ok t) id result)
  unfolding handle_command_result
  handle_command_result-HasEnded id result = elim (Bool-cases (is_blank id)) [
    | inl blank ↦ rw (blank, handle_command_result) (λ h. cc)
    | inr named ↦ elim (Option-cases result) [
      | inl missing ↦ rw (named, missing, handle_command_result) (λ h. cc)
      | inr (r, given) ↦ elim (Option-cases (Task.find_command id t)) [
        | inl unknown ↦ rw (named, given, unknown, handle_command_result) (λ h. cc)
        | inr (c, known) ↦ elim (Bool-cases (is_terminal c.command.status)) [
          | inl over ↦ rw (named, given, known, over, handle_command_result) tt
          | inr awaited ↦ elim (Bool-cases (is_finished t.status)) [
            | inl finished ↦ rw (named, given, known, awaited, finished, handle_command_result) tt
            | inr live ↦
                rw (named, given, known, awaited, live, handle_command_result)
                  (continue_with-ends env fuel (pending_commands t) (grind arith) _ _
                    (on_command_result-Small (env.now tick) t id r))
          ]
        ]
      ]
    ]
  ]

  handle_expired-HasEnded : (id : String) → HasEnded (handle_expired env fuel tick (ok t) id)
  unfolding handle_expired
  handle_expired-HasEnded id = elim (Bool-cases (is_finished t.status)) [
    | inl finished ↦ rw (finished, handle_expired) tt
    | inr live ↦
        rw (live, handle_expired)
          (continue_with-ends env fuel (suc (pending_commands t)) enough _ _
            (on_command_timeout-Small (env.now tick) t id))
  ]

  -- Whatever the gateway and the other services answer, a result and an expired deadline of a task are
  -- handled to the end, or refused: with as much fuel as one more than the task's waiting commands and
  -- the square of that, neither handler stops because the fuel ran out.
  pub handlers-HasEnded :
      (id : String) (result : Option CommandResult)
      → HasEnded (handle_command_result env fuel tick (ok t) id result)
        × HasEnded (handle_expired env fuel tick (ok t) id)
  handlers-HasEnded id result =
      (handle_command_result-HasEnded id result, handle_expired-HasEnded id)
