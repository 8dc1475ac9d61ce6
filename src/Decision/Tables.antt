-- ===== src/Decision/Tables.antt =====
-- internal/decision/adapter/outbound/postgres: the rows that plan execution reads and writes.
-- Times are numbers; a text that is only logged is the list of its bytes. A transaction is a
-- function of the tables: with an error the tables stay as they were.
use vpp_backend.Prelude.{ℕ, String, Bool, true, false, Option, List, ◌==◌, count, Result, guard}
use vpp_backend.Prelude.Bytes.{Bytes}
-- `outboxPending` and the others.
unfoldable pub use vpp_backend.Prelude.Rows.{update_where, take_where, select_where}

pub data OutboxStatus : Type 0 where
  pending claimed done stale failed : OutboxStatus

-- The statuses of a plan and of a step.
pub data PlanStatus : Type 0 where
  ready rejected stale submitted : PlanStatus

pub data ExecutionStatus : Type 0 where
  claimed submitted uncertain failed stale : ExecutionStatus

pub record OutboxRow : Type 0 where
  pub id : String
  pub tenant_id : String
  pub plan_id : String
  pub step_id : String
  pub available_at : ℕ
  pub status : OutboxStatus
  pub claimed_by : String
  pub lease_until : Option ℕ
  pub lease_token : ℕ

pub record PlanRow : Type 0 where
  pub id : String
  pub objective_id : String
  pub policy_id : Option String
  pub resource_revision : String
  pub status : PlanStatus

pub record StepRow : Type 0 where
  pub id : String
  pub plan_id : String
  pub status : PlanStatus
  pub version : ℕ
  pub dispatch_task_id : String

pub record ObjectiveRow : Type 0 where
  pub id : String
  pub scope_type : String
  pub scope_id : String

-- `V` is the type of a command's value.
pub record CommandRow (V : Type 0) : Type 0 where
  pub id : String
  pub step_id : String
  pub cu_code : String
  pub metric_id : String
  pub value : V
  pub binding_revision : ℕ
  pub dispatch_task_id : String

pub record ExecutionRow : Type 0 where
  pub id : String
  pub plan_id : String
  pub step_id : String
  pub idempotency_key : String
  pub attempt : ℕ
  pub status : ExecutionStatus
  pub claimed_by : String
  pub dispatch_task_id : String
  pub error : Bytes

pub record Tables (V : Type 0) : Type 0 where
  pub outbox : List OutboxRow
  pub plans : List PlanRow
  pub steps : List StepRow
  pub objectives : List ObjectiveRow
  pub commands : List (CommandRow V)
  pub executions : List ExecutionRow

pub data PlanError : Type 0 where
  none_due lease_lost contended missing_row bad_argument : PlanError

abbrev pub is_claimable : OutboxStatus → Bool
is_claimable OutboxStatus.pending = true
is_claimable OutboxStatus.claimed = true
is_claimable _ = false

abbrev pub is_claimed : OutboxStatus → Bool
is_claimed OutboxStatus.claimed = true
is_claimed _ = false

abbrev pub is_ready : PlanStatus → Bool
is_ready PlanStatus.ready = true
is_ready _ = false

abbrev pub is_claimed_execution : ExecutionStatus → Bool
is_claimed_execution ExecutionStatus.claimed = true
is_claimed_execution _ = false

-- `RowsAffected != 1` of an update is a lost lease.
abbrev pub one_row {ℓ} : {A : Type ℓ} → (A → Bool) → List A → Result PlanError (Unit {0})
one_row test xs = guard (count test xs == 1) PlanError.lease_lost
