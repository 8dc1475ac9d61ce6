-- ===== src/Decision/Save/Queued.antt =====
-- A saved plan, and the workers that find its steps in the outbox.
use vpp_backend.Prelude.{
  ℕ, pos_part, ◌≡◌, refl, sym, subst, ◌∙◌, String, Bool, true, none, some, List, [], map, All, ok,
  >>=-ok,
}
use mathlib.Core.List.Permᴰ
use mathlib.Core.List.{Permᴰ}
use vpp_backend.Prelude.Rows.{Among}
use vpp_backend.Decision.Tables.{OutboxRow, Tables, is_ready}
use vpp_backend.Decision.Claim.{Claim, step_idempotency_key, first_due, planned_command, claim_once}
use vpp_backend.Decision.Claim.Fresh.{Untried, claim_once-HandedOut}
use vpp_backend.Decision.Cooldown.{nullable_id}
use vpp_backend.Decision.Objective.{PowerObjective}
use vpp_backend.Decision.Plan.{CommandValue, PlanStep, Plan}
use vpp_backend.Decision.Save.{
  create, create_plan, objective_key, plan_key, step_key, objective_row, plan_row, step_row,
  command_row, outbox_row,
}
use vpp_backend.Decision.Save.Created.{HasRow, create-HasRow}
use vpp_backend.Decision.Save.Steps.{rows_of, HasCommands, create_steps-CreatedSteps}

or_empty_nullable :
    (id : String) → (elim (nullable_id id) as (λ _. String) [ none ↦ "" | some p ↦ p ]) ≡ id
or_empty_nullable String.[] = refl
or_empty_nullable (String.◌∷◌ c s) = refl

module _ {F : Type 0} (o : PowerObjective F) (p : Plan F) where
  -- The claim of the first attempt of a step: it carries what was planned.
  pub record HandsOut (s : PlanStep F) (c : Claim (CommandValue F)) : Type 0 where
    pub attempt : c.attempt ≡ 1
    pub key : c.idempotency_key ≡ step_idempotency_key s.id
    pub tenant_id : c.tenant_id ≡ p.tenant_id
    pub plan_id : c.plan_id ≡ p.id
    pub step_id : c.step_id ≡ s.id
    pub step_version : c.step_version ≡ pos_part s.version
    pub policy_id : c.policy_id ≡ p.policy_id
    pub scope_type : c.scope_type ≡ o.scope.0
    pub scope_id : c.scope_id ≡ o.scope.1
    pub resource_revision : c.resource_revision ≡ p.resource_revision
    pub commands : Permᴰ c.commands (map planned_command (map (command_row s.id) s.commands))

  -- A worker that finds the row due, for a step that nothing refers to in the tables `t` before, gets the
  -- claim of it from the tables `t'`.
  abbrev pub Claimable : Tables (CommandValue F) → Tables (CommandValue F) → OutboxRow → Type 0
  Claimable t t' r =
      (s : PlanStep F) × Among s p.steps
      × (is_ready s.status ≡ true)
      × (r ≡ outbox_row r.id p s)
      × ((id_less : String → String → Bool) (rows : List OutboxRow) (execution_id worker : String)
            (now lease : ℕ)
          → first_due rows now ≡ some r
          → Untried s.id t.executions
          → rows_of s.id t.commands ≡ []
          → (c : Claim (CommandValue F)) × (t'' : Tables (CommandValue F)) × (claim_once id_less t'
                rows execution_id worker now lease
              ≡ ok (c, t''))
            × HandsOut s c)

  -- The rows of the objective, the plan and the steps.
  pub record CreatedPlan (t t' : Tables (CommandValue F)) : Type 0 where
    pub plan : HasRow plan_key p.id (plan_row p) t'.plans
    pub objective : HasRow objective_key o.id (objective_row o) t'.objectives
    pub outbox : t'.outbox ≡ t.outbox
    pub executions : t'.executions ≡ t.executions
    pub stored : All (λ (s : PlanStep F). HasRow step_key s.id (step_row p.id s) t'.steps) p.steps
    pub commands : All (HasCommands t.commands t'.commands) p.steps

  pub create_plan-CreatedPlan :
      (t t' : Tables (CommandValue F)) → create_plan o p t ≡ ok t' → CreatedPlan t t'
  unfolding create_plan
  create_plan-CreatedPlan t t' e =
      let (objectives, made, e₁) =
        >>=-ok (create objective_key (objective_row o) t.objectives) _ e in
      let (plans, made', e₂) = >>=-ok (create plan_key (plan_row p) t.plans) _ e₁ in
      let steps =
        create_steps-CreatedSteps p.id p.steps (record t { objectives = objectives; plans = plans })
          t' e₂ in
      record {
        plan =
            subst (HasRow plan_key p.id (plan_row p)) (sym steps.plans)
              (create-HasRow plan_key (plan_row p) t.plans made');
        objective =
            subst (HasRow objective_key o.id (objective_row o)) (sym steps.objectives)
              (create-HasRow objective_key (objective_row o) t.objectives made);
        outbox = steps.outbox;
        executions = steps.executions;
        stored = steps.stored;
        commands = steps.commands;
      }

  -- A row of the outbox for a step of the plan can be claimed.
  pub row-Claimable :
      (t saved t' : Tables (CommandValue F)) (id : String) (s : PlanStep F)
      → CreatedPlan t saved
      → (outbox : List OutboxRow) → t' ≡ record saved { outbox = outbox }
      → o.id ≡ p.objective_id
      → Among s p.steps
      → is_ready s.status ≡ true
      → HasRow step_key s.id (step_row p.id s) saved.steps
      → HasCommands t.commands saved.commands s
      → Among (outbox_row id p s) outbox
      → Claimable t t' (outbox_row id p s)
  row-Claimable t saved t' id s made outbox eq link planned ready stored has among = (
    s,
    planned,
    ready,
    refl,
    λ id_less rows execution_id worker now lease due untried none_before.
        let now_tables = record saved { outbox = outbox } in
        let (c, t'', claimed, out) =
          claim_once-HandedOut id_less now_tables (outbox_row id p s) (step_row p.id s) (plan_row p)
            (objective_row o) rows execution_id worker now lease due among refl stored made.plan
            (subst (λ k. HasRow objective_key k (objective_row o) saved.objectives) link
              made.objective)
            (subst (Untried s.id) (sym made.executions) untried) in
        (
          c,
          t'',
          subst
              (λ (x : Tables (CommandValue F)).
                claim_once id_less x rows execution_id worker now lease ≡ ok (c, t''))
              (sym eq) claimed,
          record {
            attempt = out.attempt;
            key = out.key;
            tenant_id = out.tenant_id;
            plan_id = out.plan_id;
            step_id = out.step_id;
            step_version = out.step_version;
            policy_id = out.policy_id ∙ or_empty_nullable p.policy_id;
            scope_type = out.scope_type;
            scope_id = out.scope_id;
            resource_revision = out.resource_revision;
            commands = Permᴰ.trans out.commands (Permᴰ.map planned_command (has none_before));
          },
        ),
  )
