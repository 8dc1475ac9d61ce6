-- ===== src/Decision/Claim.antt =====
-- internal/decision/adapter/outbound/postgres/plan_repository.go: `ClaimDue`, `claimOnce`,
-- `firstDue` and `loadClaim`. The order of ids is the database's, a parameter.
pub mod Keys
pub mod Reach
pub mod Due
pub mod Fresh
use vpp_backend.Prelude.{
  ℕ, zero, suc, ◌+◌, String, str_eq, trim_space, is_empty_text, Bool, false, not, ◌&&◌, ◌||◌,
  Option, none, some, List, [], ◌∷◌, ◌++◌, map, ltb, ◌==◌, count, if◌then◌else◌, Result, ok, err,
  ◌>>=◌, ◌>>◌, guard,
}
use Prim.Native.String.{◌++◌ as append}
use vpp_backend.Prelude.Bytes.{codes}
use vpp_backend.Prelude.Sort.{sort}
use vpp_backend.Decision.Tables.{
  OutboxStatus, ExecutionStatus, OutboxRow, PlanRow, StepRow, ObjectiveRow, CommandRow,
  ExecutionRow, Tables, PlanError, is_claimable, is_claimed_execution, update_where, take_where,
  select_where,
}

pub record PlannedCommand (V : Type 0) : Type 0 where
  pub cu_code : String
  pub metric_id : String
  pub value : V
  pub binding_revision : ℕ

-- A leased plan step.
pub record Claim (V : Type 0) : Type 0 where
  pub worker_id : String
  pub outbox_id : String
  pub lease_token : ℕ
  pub execution_id : String
  pub attempt : ℕ
  pub idempotency_key : String
  pub tenant_id : String
  pub plan_id : String
  pub step_id : String
  pub step_version : ℕ
  pub policy_id : String
  pub scope_type : String
  pub scope_id : String
  pub resource_revision : String
  pub commands : List (PlannedCommand V)

unfoldable pub step_idempotency_key : String → String
unfolding trim_space
step_idempotency_key step_id = append "plan-step:" (trim_space step_id)

-- A lease that runs at `now`.
unfoldable pub is_leased : Option ℕ → ℕ → Bool
is_leased none now = false
is_leased (some until) now = ltb now until

unfoldable pub is_due : ℕ → OutboxRow → Bool
unfolding is_leased
is_due now row = not (ltb now row.available_at) && not (is_leased row.lease_until now)

-- `firstDue`.
unfoldable pub first_due : List OutboxRow → ℕ → Option OutboxRow
unfolding is_due
first_due [] now = none
first_due (row ∷ rows) now =
    let rest = first_due rows now in
    if ltb now row.available_at
    then rest
    else if is_leased row.lease_until now
    then rest
    else some row

-- `SELECT COALESCE(MAX(attempt), 0)` of a step.
unfoldable pub max_attempt : String → List ExecutionRow → ℕ
max_attempt step_id [] = 0
max_attempt step_id (e ∷ es) =
    let rest = max_attempt step_id es in
    if str_eq e.step_id step_id && ltb rest e.attempt then e.attempt else rest

abbrev pub found {ℓ} : {A : Type ℓ} → Option A → Result PlanError A
found none = err PlanError.missing_row
found (some a) = ok a

-- The key of attempt 1, where there is one.
unfoldable pub claim_key : String → List ExecutionRow → Result PlanError String
unfolding step_idempotency_key max_attempt take_where
claim_key step_id es =
    if ltb 0 (max_attempt step_id es)
    then (found (take_where (λ (e : ExecutionRow). str_eq e.step_id step_id && e.attempt == 1) es)
        >>= λ first. ok (
            if is_empty_text first.idempotency_key
            then step_idempotency_key step_id
            else first.idempotency_key))
    else ok (step_idempotency_key step_id)

abbrev pub is_open_execution : String → ExecutionRow → Bool
is_open_execution step_id e = str_eq e.step_id step_id && is_claimed_execution e.status

abbrev pub expired_execution : ExecutionRow → ExecutionRow
expired_execution e = record e {
  status = ExecutionStatus.uncertain;
  error = codes "lease expired before dispatch finished";
}

-- An attempt whose worker vanished is uncertain.
unfoldable pub expire_claimed : String → List ExecutionRow → List ExecutionRow
unfolding update_where
expire_claimed step_id = update_where (is_open_execution step_id) expired_execution

abbrev pub claimed_row : String → ℕ → ℕ → OutboxRow → OutboxRow
claimed_row worker until token r = record r {
  status = OutboxStatus.claimed;
  claimed_by = worker;
  lease_until = some until;
  lease_token = token;
}

-- The tables and the claimable rows that a try sees, and the id it draws.
abbrev pub View : Type 0 → Type 0
View V = Tables V × List OutboxRow × String

-- The row as the worker read it is still there.
unfoldable pub unchanged : OutboxRow → OutboxRow → Bool
unchanged row r = str_eq r.id row.id && r.lease_token == row.lease_token && is_claimable r.status

module _ (id_less : String → String → Bool) where
  unfoldable pub row_less : OutboxRow → OutboxRow → Bool
  row_less a b =
      if a.available_at == b.available_at
      then id_less a.id b.id
      else ltb a.available_at b.available_at

  -- `Order("available_at ASC, id ASC")` of the rows that are pending or claimed.
  unfoldable pub claimable_rows : List OutboxRow → List OutboxRow
  unfolding sort select_where row_less
  claimable_rows rows = sort row_less (select_where (λ (r : OutboxRow). is_claimable r.status) rows)

-- `commandFromModel`, as far as the execution reads it.
abbrev pub planned_command : {V : Type 0} → CommandRow V → PlannedCommand V
planned_command c = record {
  cu_code = c.cu_code;
  metric_id = c.metric_id;
  value = c.value;
  binding_revision = c.binding_revision;
}

module _ {V : Type 0} (id_less : String → String → Bool) where
  command_less : CommandRow V → CommandRow V → Bool
  command_less a b =
      if str_eq a.cu_code b.cu_code then id_less a.id b.id else id_less a.cu_code b.cu_code

  unfoldable step_commands : String → List (CommandRow V) → List (PlannedCommand V)
  unfolding sort select_where command_less
  step_commands step_id cs =
      map planned_command
        (sort command_less (select_where (λ (c : CommandRow V). str_eq c.step_id step_id) cs))

  -- What the claim is made of once the rows and the key are read.
  abbrev made_claim :
      Tables V
      → String
      → OutboxRow
      → String
      → ℕ
      → StepRow
      → PlanRow
      → ObjectiveRow
      → String
      → Claim V × Tables V
  made_claim t execution_id out worker token step plan objective key =
      let executions = expire_claimed step.id t.executions in
      let attempt = max_attempt step.id executions + 1 in
      let execution : ExecutionRow = record {
        id = execution_id;
        plan_id = out.plan_id;
        step_id = step.id;
        idempotency_key = key;
        attempt = attempt;
        status = ExecutionStatus.claimed;
        claimed_by = worker;
        dispatch_task_id = "";
        error = [];
      } in
      (
        record {
          worker_id = worker;
          outbox_id = out.id;
          lease_token = token;
          execution_id = execution_id;
          attempt = attempt;
          idempotency_key = key;
          tenant_id = out.tenant_id;
          plan_id = out.plan_id;
          step_id = step.id;
          step_version = step.version;
          policy_id = elim plan.policy_id [ none ↦ "" | some p ↦ p ];
          scope_type = objective.scope_type;
          scope_id = objective.scope_id;
          resource_revision = plan.resource_revision;
          commands = step_commands step.id t.commands;
        },
        record t { executions = execution ∷ executions },
      )

  unfoldable pub load_claim :
      Tables V → String → OutboxRow → String → ℕ → Result PlanError (Claim V × Tables V)
  unfolding take_where expire_claimed max_attempt claim_key step_commands
  load_claim t execution_id out worker token =
      found (take_where (λ (s : StepRow). str_eq s.id out.step_id) t.steps) >>= λ step.
      found (take_where (λ (p : PlanRow). str_eq p.id out.plan_id) t.plans) >>= λ plan.
      found (take_where (λ (o : ObjectiveRow). str_eq o.id plan.objective_id) t.objectives)
      >>= λ objective. claim_key step.id (expire_claimed step.id t.executions) >>= λ key.
          ok (made_claim t execution_id out worker token step plan objective key)

  -- `claimOnce`, with the rows that its first query read.
  unfoldable pub claim_once :
      Tables V → List OutboxRow → String → String → ℕ → ℕ → Result PlanError (Claim V × Tables V)
  unfolding first_due unchanged update_where load_claim
  claim_once t rows execution_id worker now lease = elim (first_due rows now) [
    | none ↦ err PlanError.none_due
    | some row ↦
        let token = row.lease_token + 1 in
        guard (not (count (unchanged row) t.outbox == 0)) PlanError.contended
        >> load_claim
            (record t {
              outbox =
                  update_where (unchanged row) (claimed_row worker (now + lease) token) t.outbox;
            })
            execution_id row worker token
  ]

  unfoldable pub claim_tries :
      ℕ → ℕ → (ℕ → View V) → String → ℕ → ℕ → Result PlanError (Claim V × Tables V)
  unfolding claim_once
  claim_tries zero i view worker now lease = err PlanError.contended
  claim_tries (suc n) i view worker now lease =
      let (t, rows, id) = view i in
      let rest = claim_tries n (i + 1) view worker now lease in
      elim (claim_once t rows id worker now lease) [
        | ok r ↦ ok r
        | err e ↦ elim e [ PlanError.contended ↦ rest | other ↦ err other ]
      ]

  -- `ClaimDue`: five tries, as long as other workers get in between. Time 0 is the zero time.
  unfoldable pub claim_due : (ℕ → View V) → String → ℕ → ℕ → Result PlanError (Claim V × Tables V)
  unfolding claim_tries
  claim_due view worker now lease =
      guard (not (is_empty_text worker || lease == 0 || now == 0)) PlanError.bad_argument
      >> claim_tries 5 0 view worker now lease
