-- ===== src/Dispatch/Command.antt =====
-- internal/dispatch/domain/model/control_command.go, command_value.go and command_result.go.
-- A method that mutates `*ControlCommand` returns the new record; on an error the command stays.
use vpp_backend.Prelude.{
  ℕ, ◌+◌, pos, ◌+ℤ◌, ltb_ℤ, leb_ℤ, String, Bool, true, false, ◌||◌, not, Option, none, some, Result,
  ok, err, guard, ◌>>◌, if◌then◌else◌, is_blank, ltb, ◌==◌,
}
use vpp_backend.Dispatch.Model.{
  Time, CommandStatus, CommandResult, CommandValue, ControlCommand, Invalid, Error, cannot_send,
  cannot_succeed, cannot_fail_command, cannot_time_out, cannot_retry, cannot_cancel_command,
  value_unset, value_ambiguous, command_id_required, command_tenant_required, cu_code_required,
  point_key_required, max_retries_negative, timeout_not_positive,
}

unfoldable pub new_success_result : Time → CommandResult
new_success_result ack_at = record {
  success = true;
  error_code = "";
  error_message = "";
  ack_at = some ack_at;
}

unfoldable pub new_failure_result : String → String → CommandResult
new_failure_result code message = record {
  success = false;
  error_code = code;
  error_message = message;
  ack_at = none;
}

abbrev is_set {ℓ} : {A : Type ℓ} → Option A → ℕ
is_set none = 0
is_set (some a) = 1

-- How many of the four fields are set.
unfoldable set_fields : CommandValue → ℕ
set_fields v =
    is_set v.bool_value + is_set v.int_value + is_set v.float_value + is_set v.string_value

unfoldable validate_value : CommandValue → Result Invalid (Unit {0})
unfolding set_fields
validate_value v =
    let n = set_fields v in
    if n == 0 then err value_unset else if ltb 1 n then err value_ambiguous else ok tt

pub data Kind : Type 0 where
  bool int float string unset : Kind

unfoldable pub kind : CommandValue → Kind
kind v = elim v.bool_value [
  | some _ ↦ Kind.bool
  | none ↦ elim v.int_value [
    | some _ ↦ Kind.int
    | none ↦ elim v.float_value [
      | some _ ↦ Kind.float
      | none ↦ elim v.string_value [ some _ ↦ Kind.string | none ↦ Kind.unset ]
    ]
  ]
]

-- The comparisons of a status with one constant.
abbrev pub is_pending : CommandStatus → Bool
is_pending CommandStatus.pending = true
is_pending _ = false

abbrev pub is_sending : CommandStatus → Bool
is_sending CommandStatus.sending = true
is_sending _ = false

abbrev pub is_timeout : CommandStatus → Bool
is_timeout CommandStatus.timeout = true
is_timeout _ = false

abbrev pub is_failed : CommandStatus → Bool
is_failed CommandStatus.failed = true
is_failed _ = false

abbrev pub is_cancelled : CommandStatus → Bool
is_cancelled CommandStatus.cancelled = true
is_cancelled _ = false

unfoldable pub mark_sending : Time → ControlCommand → Result Error ControlCommand
unfolding ◌+ℤ◌
mark_sending sent_at c =
    if not (is_pending c.status)
    then err (cannot_send c.status)
    else ok (record c {
      status = CommandStatus.sending;
      sent_at = some sent_at;
      deadline_at = some (sent_at +ℤ c.timeout);
    })

-- `now` is the clock's value where the source calls `time.Now`.
unfoldable pub mark_succeeded : Time → CommandResult → ControlCommand → Result Error ControlCommand
mark_succeeded now r c =
    if not (is_sending c.status)
    then err (cannot_succeed c.status)
    else ok (record c { status = CommandStatus.succeeded; finished_at = some now; result = some r })

unfoldable pub mark_failed : Time → CommandResult → ControlCommand → Result Error ControlCommand
mark_failed now r c =
    if not (is_sending c.status || is_pending c.status || is_timeout c.status)
    then err (cannot_fail_command c.status)
    else ok (record c { status = CommandStatus.failed; finished_at = some now; result = some r })

unfoldable pub mark_timeout : ControlCommand → Result Error ControlCommand
mark_timeout c =
    if not (is_sending c.status)
    then err (cannot_time_out c.status)
    else ok (record c { status = CommandStatus.timeout })

unfoldable pub reset_for_retry : ControlCommand → Result Error ControlCommand
reset_for_retry c =
    if not (is_timeout c.status)
    then err (cannot_retry c.status)
    else ok (record c {
      retry_count = c.retry_count + 1;
      status = CommandStatus.pending;
      sent_at = none;
      deadline_at = none;
    })

unfoldable pub cancel : ControlCommand → Result Error ControlCommand
cancel c =
    if not (is_pending c.status)
    then err (cannot_cancel_command c.status)
    else ok (record c { status = CommandStatus.cancelled })

-- `t.Before(u)` is `t < u`.
unfoldable is_expired : Time → ControlCommand → Bool
is_expired now c = elim c.deadline_at [ none ↦ false | some d ↦ ltb_ℤ d now ]

unfoldable pub can_retry : ControlCommand → Bool
can_retry c = ltb_ℤ (pos c.retry_count) c.max_retries

abbrev pub is_terminal : CommandStatus → Bool
is_terminal CommandStatus.succeeded = true
is_terminal CommandStatus.failed = true
is_terminal CommandStatus.cancelled = true
is_terminal _ = false

unfoldable pub validate : ControlCommand → Result Invalid (Unit {0})
unfolding validate_value
validate c = do
  guard (not (is_blank c.id)) command_id_required
  guard (not (is_blank c.tenant_id)) command_tenant_required
  guard (not (is_blank c.cu_code)) cu_code_required
  guard (not (is_blank c.point_key)) point_key_required
  validate_value c.value
  guard (not (ltb_ℤ c.max_retries (pos 0))) max_retries_negative
  guard (not (leb_ℤ c.timeout (pos 0))) timeout_not_positive
