-- ===== src/Decision/Execute/Authorized.antt =====
-- When a worker submits a task.
use vpp_backend.Prelude.{
  ℕ, ◌≡◌, refl, sym, str_eq, str_eq_iff, trim_space, true, not, ◌||◌, Bool-cases, Option-cases,
  some, inl, inr, ◌⊎◌, List, [], ◌∷◌, All, get_elem?, ok, Result-cases, arith, ap, suc, zero, >>-ok,
  guard, ok_inj, is_empty, is_empty_text,
}
use mathlib.Core.Bool.{true≢false}
use vpp_backend.Decision.Tables.{Tables}
use vpp_backend.Decision.Claim.{Claim, PlannedCommand}
use vpp_backend.Decision.Execute.{
  ResolvedBinding, ResolvedCu, Resolution, ScopeQuery, Task, Ports, allows_write,
  binding_matches_in, member_of, command_matches, commands_match, catalog_matches, task_from_claim,
  soc_scope_query_for, submit, execute_resolved, execute,
}

module _ {V : Type 0} where
  -- The member has a binding of the command's metric that is enabled, writable, and of the revision
  -- that the command was planned with.
  abbrev pub Writable : PlannedCommand V → List ResolvedBinding → Type 0
  Writable cmd bs =
      (i : ℕ) × (b : ResolvedBinding) × (get_elem? bs i ≡ some b)
      × (b.metric_id ≡ cmd.metric_id)
      × (b.enabled ≡ true)
      × (b.revision ≡ cmd.binding_revision)
      × (allows_write b.access_mode ≡ true)

  binding_matches_in-Writable :
      (cmd : PlannedCommand V) (bs : List ResolvedBinding)
      → binding_matches_in cmd bs ≡ true
      → Writable cmd bs
  unfolding binding_matches_in
  binding_matches_in-Writable cmd [] h = cc
  binding_matches_in-Writable cmd (b ∷ bs) h =
      elim (Bool-cases (str_eq b.metric_id cmd.metric_id)) [
        | inr other ↦
            let (i, w, at, same, enabled, revision, write) =
              binding_matches_in-Writable cmd bs (rw (other, binding_matches_in) at h) in
            (suc i, w, at, same, enabled, revision, write)
        | inl same ↦ (
          zero,
          b,
          refl,
          (str_eq_iff b.metric_id cmd.metric_id).0 same,
          ground arith,
          ground arith,
          ground arith,
        )
      ]

  -- The last member of the command's control unit has such a binding.
  abbrev pub Planned : List ResolvedCu → PlannedCommand V → Type 0
  Planned members cmd =
      (m : ResolvedCu) × (member_of cmd.cu_code members ≡ some m) × Writable cmd m.bindings

  command_matches-Planned :
      (members : List ResolvedCu) (cmd : PlannedCommand V)
      → command_matches members cmd ≡ true
      → Planned members cmd
  unfolding command_matches
  command_matches-Planned members cmd h = elim (Option-cases (member_of cmd.cu_code members)) [
    | inl e ↦ absurd (true≢false (sym (rw (e, command_matches) at h)))
    | inr (m, e) ↦ (m, e, binding_matches_in-Writable cmd m.bindings (rw (e, command_matches) at h))
  ]

  commands_match-Planned :
      (members : List ResolvedCu) (cmds : List (PlannedCommand V))
      → commands_match members cmds ≡ true
      → All (Planned members) cmds
  unfolding commands_match
  commands_match-Planned members [] h = tt
  commands_match-Planned members (cmd ∷ cmds) h = elim (Bool-cases (command_matches members cmd)) [
    | inl e ↦ (
      command_matches-Planned members cmd e,
      commands_match-Planned members cmds (rw (e, commands_match) at h),
    )
    | inr e ↦ absurd (true≢false (sym (rw (e, commands_match) at h)))
  ]

  -- The live catalog is the one the plan was made with, and allows every command.
  abbrev Authorizes : Claim V → Resolution → Type 0
  Authorizes claim resolved =
      (resolved.precheck_ok ≡ true)
      × (trim_space resolved.resource_revision ≡ claim.resource_revision)
      × All (Planned resolved.members) claim.commands

  catalog_matches-Authorizes :
      (claim : Claim V) (resolved : Resolution)
      → catalog_matches claim resolved ≡ true
      → Authorizes claim resolved
  unfolding catalog_matches
  catalog_matches-Authorizes claim resolved h = elim (Bool-cases resolved.precheck_ok) [
    | inr e ↦ absurd (true≢false (sym (rw (e, catalog_matches) at h)))
    | inl passed ↦
        elim (Bool-cases (str_eq (trim_space resolved.resource_revision) claim.resource_revision)) [
          | inr e ↦ absurd (true≢false (sym (rw (passed, e, catalog_matches) at h)))
          | inl same ↦ (
            passed,
            (str_eq_iff _ _).0 same,
            commands_match-Planned resolved.members claim.commands
                (rw (passed, same, catalog_matches) at h),
          )
        ]
  ]

  -- One task of the claim's key is submitted, for the claim's commands, against a catalog that
  -- authorizes them.
  abbrev pub Submits : Ports V → Claim V → List (Task V) → Type 0
  Submits ports claim tasks =
      (query : ScopeQuery) × (resolved : Resolution) × (task : Task V) × (ports.resolve_scope query
        ≡ ok resolved)
      × Authorizes claim resolved
      × (task_from_claim claim ≡ ok task)
      × (task.idempotency_key ≡ claim.idempotency_key)
      × (tasks ≡ task ∷ [])

  task_from_claim-key :
      (claim : Claim V) (task : Task V)
      → task_from_claim claim ≡ ok task
      → task.idempotency_key ≡ claim.idempotency_key
  unfolding task_from_claim
  task_from_claim-key claim task e =
      ap (λ (x : Task V). x.idempotency_key)
        (sym (
          ok_inj
            (>>-ok (guard (not (is_empty_text claim.idempotency_key || is_empty claim.commands)) _)
              _ e).1))

  submit-tasks :
      (ports : Ports V) (retry_after now : ℕ) (claim : Claim V) (t : Tables V)
      → ((submit ports retry_after now claim t).0 ≡ [])
        ⊎ ((task : Task V) × (task_from_claim claim ≡ ok task)
            × ((submit ports retry_after now claim t).0 ≡ task ∷ []))
  unfolding submit
  submit-tasks ports retry_after now claim t = elim (Result-cases (task_from_claim claim)) [
    | inl (task, e) ↦ inr (task, e, rw (e, submit) refl)
    | inr (text, e) ↦ inl (rw (e, submit) refl)
  ]

  -- A worker that executes a claim submits nothing, or one task: then the live catalog passed its
  -- precheck, its revision is the plan's, every command's control unit is a member with an enabled,
  -- writable binding of the planned revision, and the task has the claim's key.
  pub execute-Submits :
      (ports : Ports V) (retry_after now : ℕ) (claim : Claim V) (t : Tables V)
      → ((execute ports retry_after now claim t).0 ≡ [])
        ⊎ Submits ports claim (execute ports retry_after now claim t).0
  unfolding execute execute_resolved
  execute-Submits ports retry_after now claim t =
      elim (Result-cases (soc_scope_query_for ports claim)) [
        | inr (text, e) ↦ inl (rw (e, execute) refl)
        | inl (query, e) ↦ elim (Result-cases (ports.resolve_scope query)) [
          | inr (text, f) ↦ inl (rw (e, f, execute) refl)
          | inl (resolved, f) ↦ elim (Bool-cases (catalog_matches claim resolved)) [
            | inr g ↦ inl (rw (e, f, g, execute, execute_resolved) refl)
            | inl g ↦ elim (submit-tasks ports retry_after now claim t) [
              | inl nothing ↦ inl (rw (e, f, g, execute, execute_resolved) nothing)
              | inr (task, made, tasks) ↦ inr (
                query,
                resolved,
                task,
                f,
                catalog_matches-Authorizes claim resolved g,
                made,
                task_from_claim-key claim task made,
                rw (e, f, g, execute, execute_resolved) tasks,
              )
            ]
          ]
        ]
      ]
