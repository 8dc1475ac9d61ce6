-- ===== src/Dispatch/Submit/Built.antt =====
-- The task that SubmitTask builds, once the validator has passed it.
use vpp_backend.Prelude.{
  ℕ, suc, ℤ, pos, ◌≤ℤ◌, ◌≡◌, ◌≢◌, ◌≤◌, refl, String, Bool, true, false, not, List, [], ◌∷◌, ok,
  guard, guard-ok, >>-ok, is_empty, All, All-map, All-zip, arith,
}
use vpp_backend.Dispatch.Model.{Time, Duration, TaskStatus, ActionStatus, DispatchAction}
use vpp_backend.Dispatch.Task
use vpp_backend.Dispatch.Invariant.{CommandInv, ActionInv, TaskInv, Distinct, ids}
use vpp_backend.Dispatch.Validator.{validate_action, validate_actions, validate_task, seen}
use vpp_backend.Dispatch.Submit.{
  Uuids, Defaults, SubmitTask, SubmitCommandDto, SubmitActionDto, positive_or, new_defaults,
  build_commands, build_actions, build_task,
}

positive_or-le : (n d : ℤ) → pos 0 ≤ℤ d → pos 0 ≤ℤ positive_or n d
positive_or-le n d h = ground arith

flipped : (b : Bool) → not b ≡ true → b ≡ false
flipped b h = ground arith

-- A validated action has commands.
validate_actions-ok :
    (ns : List ℤ) (as' : List DispatchAction)
    → validate_actions ns as' ≡ ok tt
    → All (λ a. is_empty a.commands ≡ false) as'
unfolding validate_actions validate_action
validate_actions-ok ns [] e = tt
validate_actions-ok ns (a ∷ as') e =
    let (_, e₁) = >>-ok (guard (not (seen a.sequence ns)) _) _ e in
    let (valid, e₂) = >>-ok (validate_action a) _ e₁ in
    let (_, v₁) = >>-ok (guard _ _) _ valid in
    let (held, _) = >>-ok (guard (not (is_empty a.commands)) _) _ v₁ in
    let full : not (is_empty a.commands) ≡ true = guard-ok (not (is_empty a.commands)) _ held in
    (flipped (is_empty a.commands) full, validate_actions-ok (a.sequence ∷ ns) as' e₂)

module _ (timeout : Duration) (retries : ℤ) (uuid : Uuids) (r : SubmitTask) where
  abbrev d : Defaults
  d = new_defaults timeout retries

  default_retries : pos 0 ≤ℤ d.max_retries
  unfolding new_defaults
  default_retries = ground arith

  build_commands-All :
      (action_id : String) (n : ℕ) (cs : List SubmitCommandDto)
      → All (CommandInv ActionStatus.pending) (build_commands d uuid r action_id n cs).0
  unfolding build_commands
  build_commands-All action_id n [] = tt
  build_commands-All action_id n (c ∷ cs) = (
    (refl, positive_or-le c.max_retries d.max_retries default_retries),
    build_commands-All action_id (suc n) cs,
  )

  build_commands-le :
      (action_id : String) (n : ℕ) (cs : List SubmitCommandDto)
      → n ≤ (build_commands d uuid r action_id n cs).1
  unfolding build_commands
  build_commands-le action_id n [] = omega arith
  build_commands-le action_id n (c ∷ cs) = omega (arith, build_commands-le action_id (suc n) cs)

  -- An action that nothing has happened to.
  abbrev IsFresh : DispatchAction → Type 0
  IsFresh a = (a.status ≡ ActionStatus.pending) × All (CommandInv a.status) a.commands

  build_actions-All :
      (task_id : String) (n : ℕ) (as' : List SubmitActionDto)
      → All IsFresh (build_actions d uuid r task_id n as')
  unfolding build_actions
  build_actions-All task_id n [] = tt
  build_actions-All task_id n (a ∷ as') = (
    (refl, build_commands-All (uuid n) (suc n) a.commands),
    build_actions-All task_id (build_commands d uuid r (uuid n) (suc n) a.commands).1 as',
  )

  module _ (injective : (m n : ℕ) → uuid m ≡ uuid n → m ≡ n) where
    -- The ids are those from the `n`-th on.
    build_actions-ids :
        (task_id : String) (k n : ℕ) (as' : List SubmitActionDto)
        → suc k ≤ n
        → All (λ x. x ≢ uuid k) (ids (build_actions d uuid r task_id n as'))
    unfolding build_actions
    build_actions-ids task_id k n [] h = tt
    build_actions-ids task_id k n (a ∷ as') h = (
      λ e. omega (arith, injective n k e),
      build_actions-ids task_id k (build_commands d uuid r (uuid n) (suc n) a.commands).1 as'
          (omega (arith, build_commands-le (uuid n) (suc n) a.commands)),
    )

    build_actions-Distinct :
        (task_id : String) (n : ℕ) (as' : List SubmitActionDto)
        → Distinct (ids (build_actions d uuid r task_id n as'))
    unfolding build_actions
    build_actions-Distinct task_id n [] = tt
    build_actions-Distinct task_id n (a ∷ as') =
        let m = (build_commands d uuid r (uuid n) (suc n) a.commands).1 in
        (
          build_actions-ids task_id n m as' (build_commands-le (uuid n) (suc n) a.commands),
          build_actions-Distinct task_id m as',
        )

    -- A task that SubmitTask builds, with the defaults that its constructor sets, and that the
    -- validator passes is well formed and pending, if the id generator never repeats itself.
    pub build_task-TaskInv :
        (now : Time)
        → validate_task (build_task d uuid r now) ≡ ok tt
        → TaskInv (build_task d uuid r now)
          × ((build_task d uuid r now).status ≡ TaskStatus.pending)
    unfolding validate_task build_task
    build_task-TaskInv now e =
        let as' = build_actions d uuid r (uuid 0) 1 r.actions in
        let (_, valid) = >>-ok (Task.validate (build_task d uuid r now)) _ e in
        (
          record {
            commands_fit =
                All-zip IsFresh (λ a. is_empty a.commands ≡ false) ActionInv (λ a h k. (k, h.1)) as'
                  (build_actions-All (uuid 0) 1 r.actions) (validate_actions-ok [] as' valid);
            actions_fit =
                All-map IsFresh _ (λ a h. rw h.0 refl) as' (build_actions-All (uuid 0) 1 r.actions);
            one_running = λ h. cc;
            ids_distinct = build_actions-Distinct (uuid 0) 1 r.actions;
          },
          refl,
        )
