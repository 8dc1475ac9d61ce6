-- ===== src/Decision/Tests.antt =====
-- One plan with two steps, claimed, submitted, and handed back.
use vpp_backend.Prelude.{
  map, ℕ, ◌≡◌, refl, String, Bool, true, false, none, some, [], ◌∷◌, Result, ok, err, ◌⊎◌, arith,
}
use vpp_backend.Prelude.Bytes.{codes}
use vpp_backend.Decision.Tables.{
  OutboxStatus, PlanStatus, OutboxRow, StepRow, CommandRow, Tables, PlanError,
}
use vpp_backend.Decision.Claim.{
  Claim, claim_once, claimable_rows, first_due, is_due, step_idempotency_key,
}
use vpp_backend.Decision.Claim.Due.{mark_uncertain-retried}
use vpp_backend.Decision.Claim.Reach.{Reach, claim_once-same_key}
use vpp_backend.Decision.Marks.{mark_submitted, mark_uncertain, is_own, released_row}
use vpp_backend.Decision.Marks.Rows.{Marked}
use vpp_backend.Decision.Protocol.Once.{marks-once}
use vpp_backend.Prelude.Rows.{Among}
use vpp_backend.Decision.Marks.Plans.{mark_submitted-once_per_plan}
use vpp_backend.Decision.Execute.{BindingAccess, Ports, execute}
use vpp_backend.Decision.Tick.{TickEnd, Pass, tick}
use vpp_backend.Decision.Tick.Ends.{Ended, tick-Ended}
use vpp_backend.Decision.Protocol.{Each}
use vpp_backend.Decision.Protocol.Refines.{Follows, Reach-Refines}
use vpp_backend.Decision.Execute.Authorized.{Submits, execute-Submits}

abbrev any_order : String → String → Bool
any_order a b = false

abbrev row : String → String → OutboxRow
row id step = record {
  id = id;
  tenant_id = "tenant";
  plan_id = "plan";
  step_id = step;
  available_at = 1;
  status = OutboxStatus.pending;
  claimed_by = "";
  lease_until = none;
  lease_token = 0;
}

abbrev step_row : String → StepRow
step_row id = record {
  id = id;
  plan_id = "plan";
  status = PlanStatus.ready;
  version = 1;
  dispatch_task_id = "";
}

abbrev command_row : String → String → CommandRow ℕ
command_row id step = record {
  id = id;
  step_id = step;
  cu_code = "cu";
  metric_id = "setpoint";
  value = 7;
  binding_revision = 2;
  dispatch_task_id = "";
}

abbrev start : Tables ℕ
start = record {
  outbox = row "o1" "s1" ∷ row "o2" "s2" ∷ [];
  plans =
      record {
        id = "plan";
        objective_id = "objective";
        policy_id = none;
        resource_revision = "rev";
        status = PlanStatus.ready;
      }
      ∷ [];
  steps = step_row "s1" ∷ step_row "s2" ∷ [];
  objectives = record { id = "objective"; scope_type = "site"; scope_id = "site-1" } ∷ [];
  commands = command_row "c1" "s1" ∷ command_row "c2" "s2" ∷ [];
  executions = [];
}

-- What a call returns; the default is never reached below.
abbrev value_or {ℓ} : {A : Type ℓ} → A → Result PlanError A → A
value_or d (ok a) = a
value_or d (err e) = d

abbrev no_claim : Claim ℕ
no_claim = record {
  worker_id = "";
  outbox_id = "";
  lease_token = 0;
  execution_id = "";
  attempt = 0;
  idempotency_key = "";
  tenant_id = "";
  plan_id = "";
  step_id = "";
  step_version = 0;
  policy_id = "";
  scope_type = "";
  scope_id = "";
  resource_revision = "";
  commands = [];
}

-- Worker w1 takes the first step at time 10, worker w2 the second.
abbrev first_claim : Claim ℕ × Tables ℕ
first_claim = value_or (no_claim, start) (claim_once any_order start start.outbox "e1" "w1" 10 5)

abbrev second_claim : Claim ℕ × Tables ℕ
second_claim =
    value_or (no_claim, start)
      (claim_once any_order first_claim.1 (row "o2" "s2" ∷ []) "e2" "w2" 10 5)

abbrev submitted_tables : Tables ℕ
submitted_tables = value_or start (mark_submitted first_claim.0 "task" 12 second_claim.1)

abbrev retried_tables : Tables ℕ
retried_tables =
    value_or start (mark_uncertain first_claim.0 (codes "timeout") 12 20 second_claim.1)

first_claimed : claim_once any_order start start.outbox "e1" "w1" 10 5 ≡ ok first_claim
unfolding claim_once
first_claimed = refl

second_claimed :
    claim_once any_order first_claim.1 (row "o2" "s2" ∷ []) "e2" "w2" 10 5 ≡ ok second_claim
unfolding claim_once
second_claimed = refl

first_submitted : mark_submitted first_claim.0 "task" 12 second_claim.1 ≡ ok submitted_tables
unfolding mark_submitted claim_once
first_submitted = refl

first_uncertain :
    mark_uncertain first_claim.0 (codes "timeout") 12 20 second_claim.1 ≡ ok retried_tables
unfolding mark_uncertain claim_once
first_uncertain = refl

-- The same worker takes the row that it put back, under the next token.
abbrev again_claim : Claim ℕ × Tables ℕ
again_claim =
    value_or (no_claim, start)
      (claim_once any_order retried_tables retried_tables.outbox "e3" "w1" 25 5)

again_claimed :
    claim_once any_order retried_tables retried_tables.outbox "e3" "w1" 25 5 ≡ ok again_claim
unfolding claim_once mark_uncertain
again_claimed = refl

marks-once_example : ¬ Marked first_claim.0 26 again_claim.1 again_claim.1
unfolding claim_once mark_uncertain
marks-once_example =
    marks-once any_order {claim = first_claim.0} {now = 12} {t = second_claim.1}
      {t' = retried_tables} 26 again_claim.1 again_claim.1 (omega arith)
      (Marked.uncertain (codes "timeout") 20 first_uncertain)
      (Reach.claimed retried_tables.outbox "e3" "w1" 25 5 again_claim.0 Reach.here again_claimed)

-- The second step of the plan cannot be recorded as submitted any more.
mark_submitted-once_per_plan_example :
    ¬ (mark_submitted second_claim.0 "other" 13 submitted_tables ≡ ok submitted_tables)
unfolding claim_once
mark_submitted-once_per_plan_example =
    mark_submitted-once_per_plan first_claim.0 second_claim.0 "task" "other" 12 13 second_claim.1
      submitted_tables submitted_tables refl first_submitted

mark_uncertain-retried_example :
    (r : OutboxRow) × Among r second_claim.1.outbox
    × (is_own first_claim.0 r ≡ true)
    × Among
        (released_row OutboxStatus.pending (some 20) r)
        (claimable_rows any_order retried_tables.outbox)
    × (is_due 25 (released_row OutboxStatus.pending (some 20) r) ≡ true)
    × ((first : OutboxRow) × (first_due (claimable_rows any_order retried_tables.outbox) 25
          ≡ some first))
mark_uncertain-retried_example =
    mark_uncertain-retried any_order first_claim.0 (codes "timeout") 12 20 25 second_claim.1
      retried_tables first_uncertain (omega arith)

abbrev third_claim : Claim ℕ × Tables ℕ
third_claim =
    value_or (no_claim, start)
      (claim_once any_order retried_tables (claimable_rows any_order retried_tables.outbox) "e3"
        "w2" 30 5)

third_claimed :
    claim_once any_order retried_tables
      (claimable_rows any_order retried_tables.outbox)
      "e3"
      "w2"
      30
      5
    ≡ ok third_claim
unfolding claim_once claimable_rows mark_uncertain
third_claimed = refl

claim_once-same_key_example :
    third_claim.0.idempotency_key ≡ step_idempotency_key third_claim.0.step_id
claim_once-same_key_example =
    claim_once-same_key any_order start retried_tables third_claim.1
      (claimable_rows any_order retried_tables.outbox) "e3" "w2" 30 5 third_claim.0 refl
      (Reach.marked first_claim.0 12
        (Reach.claimed (row "o2" "s2" ∷ []) "e2" "w2" 10 5 second_claim.0
          (Reach.claimed start.outbox "e1" "w1" 10 5 first_claim.0 Reach.here first_claimed)
          second_claimed)
        (Marked.uncertain (codes "timeout") 20 first_uncertain))
      third_claimed

-- A catalog that still allows the planned command, and a Dispatch that accepts.
abbrev live_ports : Ports ℕ
live_ports = record {
  resolve_scope = λ query. ok (record {
    resource_revision = "rev";
    precheck_ok = true;
    members =
        record {
          cu_id = "cu";
          bindings =
              record {
                metric_id = "setpoint";
                access_mode = BindingAccess.write;
                enabled = true;
                revision = 2;
              }
              ∷ [];
        }
        ∷ [];
  });
  submit_task = λ task. ok "task";
  quote = codes;
}

execute-Submits_example :
    ((execute live_ports 60 12 first_claim.0 second_claim.1).0 ≡ [])
    ⊎ Submits live_ports first_claim.0 (execute live_ports 60 12 first_claim.0 second_claim.1).0
execute-Submits_example = execute-Submits live_ports 60 12 first_claim.0 second_claim.1

-- A pass at time 10 submits both steps and records the first; the second stays claimed.
abbrev pass : Pass ℕ
pass = tick any_order live_ports (λ i. "e") "w1" 5 60 10 3 0 start

pass_lem :
    (pass.end ≡ TickEnd.drained)
    × (map (λ (r : OutboxRow). r.status) pass.tables.outbox
        ≡ OutboxStatus.done ∷ OutboxStatus.claimed ∷ [])
unfolding tick
pass_lem = (refl, refl)

tick-Ended_example : Ended any_order live_ports (λ i. "e") "w1" 5 60 10 pass
unfolding is_due
tick-Ended_example =
    tick-Ended any_order live_ports (λ i. "e") "w1" 5 60 10 3 0 start (omega arith) (omega arith)
      (omega arith)

-- Two claims, a timeout and a second try of the first step.
Reach-Refines_example : Each Follows start.outbox third_claim.1.outbox
Reach-Refines_example = Reach-Refines any_order start third_claim.1 (
    Reach.claimed (claimable_rows any_order retried_tables.outbox) "e3" "w2" 30 5 third_claim.0
      (Reach.marked first_claim.0 12
        (Reach.claimed (row "o2" "s2" ∷ []) "e2" "w2" 10 5 second_claim.0
          (Reach.claimed start.outbox "e1" "w1" 10 5 first_claim.0 Reach.here first_claimed)
          second_claimed)
        (Marked.uncertain (codes "timeout") 20 first_uncertain))
      third_claimed)
