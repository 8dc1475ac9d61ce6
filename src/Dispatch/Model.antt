-- ===== src/Dispatch/Model.antt =====
-- internal/dispatch/domain/model: the records of the dispatch domain and their enumerations.
-- A string enumeration is a data type of its declared constants. A pointer is an `Option`.
use vpp_backend.Prelude.{ℕ, ℤ, String, Bool, Option, List}

-- `time.Time` and `time.Duration` in nanoseconds; times count from Go's zero time.
abbrev pub Time : Type 0
Time = ℤ

abbrev pub Duration : Type 0
Duration = ℤ

-- A `float64`, by its 64 bits. This service stores and passes it on.
abbrev Float64 : Type 0
Float64 = ℕ

pub data TaskType : Type 0 where
  control : TaskType

pub data TriggerType : Type 0 where
  manual scheduled automatic : TriggerType

pub data FailurePolicy : Type 0 where
  fail_fast : FailurePolicy

pub data TaskStatus : Type 0 where
  pending running completed failed cancelled : TaskStatus

pub data ActionType : Type 0 where
  control : ActionType

pub data ExecutionPolicy : Type 0 where
  sequential parallel : ExecutionPolicy

pub data ActionStatus : Type 0 where
  pending running completed failed cancelled : ActionStatus

pub data CommandStatus : Type 0 where
  pending sending succeeded failed timeout cancelled : CommandStatus

pub record CommandResult : Type 0 where
  pub success : Bool
  pub error_code : String
  pub error_message : String
  pub ack_at : Option Time

pub record CommandValue : Type 0 where
  pub bool_value : Option Bool
  pub int_value : Option ℤ
  pub float_value : Option Float64
  pub string_value : Option String

-- `retry_count` starts at 0 and only grows; it is far from the bounds of `int`.
pub record ControlCommand : Type 0 where
  pub id : String
  pub action_id : String
  pub tenant_id : String
  pub cu_code : String
  pub point_key : String
  pub value : CommandValue
  pub status : CommandStatus
  pub retry_count : ℕ
  pub max_retries : ℤ
  pub timeout : Duration
  pub sent_at : Option Time
  pub deadline_at : Option Time
  pub finished_at : Option Time
  pub result : Option CommandResult

pub record DispatchAction : Type 0 where
  pub id : String
  pub task_id : String
  pub tenant_id : String
  pub name : String
  pub kind : ActionType
  pub sequence : ℤ
  pub status : ActionStatus
  pub execution_policy : ExecutionPolicy
  pub commands : List ControlCommand

pub record DispatchTask : Type 0 where
  pub id : String
  pub tenant_id : String
  pub name : String
  pub description : String
  pub kind : TaskType
  pub trigger_type : TriggerType
  pub failure_policy : FailurePolicy
  pub status : TaskStatus
  pub created_at : Time
  pub started_at : Option Time
  pub finished_at : Option Time
  pub idempotency_key : String
  pub actions : List DispatchAction

-- What a structural validation finds.
pub data Invalid : Type 0 where
  task_id_required task_tenant_required task_name_required task_needs_action : Invalid
  duplicate_sequence action_name_required action_needs_command : Invalid
  command_id_required command_tenant_required cu_code_required point_key_required : Invalid
  value_unset value_ambiguous max_retries_negative timeout_not_positive : Invalid

-- The errors of the domain layer, domain/errors.go among them; a message's text is left out.
pub data Error : Type 0 where
  task_not_found command_not_found task_already_done : Error
  cannot_send cannot_succeed cannot_fail_command cannot_time_out : CommandStatus → Error
  cannot_retry cannot_cancel_command : CommandStatus → Error
  cannot_start_action cannot_complete_action : ActionStatus → Error
  cannot_fail_action cannot_cancel_action : ActionStatus → Error
  cannot_start_task cannot_complete_task cannot_fail_task cannot_cancel_task : TaskStatus → Error
  invalid : Invalid → Error
  no_pending_action tenant_required name_required action_required : Error
  command_id_blank task_id_blank result_required idempotency_conflict : Error
  persist_failed publish_failed lookup_failed : Error
  -- The model's own: a loop stopped because its fuel ran out.
  unfinished : Error
