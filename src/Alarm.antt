-- ===== src/Alarm.antt =====
-- internal/alarm/domain/model: alarm.go, decision.go and enums.go. A ticket is opened from a
-- decision, acknowledged and closed. `P` is the type of the attributes, which are carried along.
pub mod Lifecycle
pub mod Store
pub mod Commands
pub mod Incoming
pub mod Evaluate
pub mod Ingest
mod Tests
use vpp_backend.Prelude.{
  ℤ, pos, ◌+ℤ◌, ltb_ℤ, eqb_ℤ, String, is_blank, Bool, true, false, not, ◌&&◌, Option, none, some,
  Result, ok, err, guard, ◌>>◌, if◌then◌else◌,
}

-- Nanoseconds from Go's zero time.
abbrev pub Time : Type 0
Time = ℤ

-- A string that is none of the declared constants is `other`.
pub data Status : Type 0 where
  status_open status_acknowledged status_closed : Status
  status_other : String → Status

pub data Severity : Type 0 where
  critical warning info : Severity
  other : String → Severity

pub data Source : Type 0 where
  dispatch soe : Source
  other : String → Source

pub data AlarmError : Type 0 where
  actor_required time_required already_acknowledged already_closed : AlarmError
  invalid_transition : Status → AlarmError
  id_required tenant_required invalid_status invalid_severity invalid_source : AlarmError
  fingerprint_required rule_required title_required event_required : AlarmError
  count_too_small version_too_small occurrence_required : AlarmError

pub record Decision (P : Type 0) : Type 0 where
  pub drop : Bool
  pub tenant_id : String
  pub source : Source
  pub severity : Severity
  pub rule_id : String
  pub title : String
  pub summary : String
  pub fingerprint : String
  pub event_id : String
  pub source_ref : String
  pub attributes : P
  pub attributes_schema : ℤ
  pub occurred_at : Time

pub record Alarm (P : Type 0) : Type 0 where
  pub id : String
  pub tenant_id : String
  pub status : Status
  pub severity : Severity
  pub source : Source
  pub fingerprint : String
  pub rule_id : String
  pub title : String
  pub summary : String
  pub source_ref : String
  pub attributes : P
  pub attributes_schema : ℤ
  pub count : ℤ
  pub first_occurred_at : Time
  pub last_occurred_at : Time
  pub last_event_id : String
  pub acknowledged_at : Option Time
  pub acknowledged_by : String
  pub closed_at : Option Time
  pub closed_by : String
  pub version : ℤ

abbrev pub is_zero : Time → Bool
is_zero t = eqb_ℤ t (pos 0)

-- Whether ParseStatus, ParseSeverity and ParseSource accept the string.
unfoldable pub parses_status : Status → Bool
parses_status (status_other s) = false
parses_status _ = true

unfoldable pub parses_severity : Severity → Bool
parses_severity (Severity.other s) = false
parses_severity _ = true

unfoldable pub parses_source : Source → Bool
parses_source (Source.other s) = false
parses_source _ = true

module _ {P : Type 0} where
  unfoldable pub validate : Alarm P → Result AlarmError (Unit {0})
  unfolding parses_status parses_severity parses_source
  validate a = do
    guard (not (is_blank a.id)) id_required
    guard (not (is_blank a.tenant_id)) tenant_required
    guard (parses_status a.status) invalid_status
    guard (parses_severity a.severity) invalid_severity
    guard (parses_source a.source) invalid_source
    guard (not (is_blank a.fingerprint)) fingerprint_required
    guard (not (is_blank a.rule_id)) rule_required
    guard (not (is_blank a.title)) title_required
    guard (not (is_blank a.last_event_id)) event_required
    guard (not (ltb_ℤ a.count (pos 1))) count_too_small
    guard (not (ltb_ℤ a.version (pos 1))) version_too_small
    guard (not (is_zero a.first_occurred_at) && not (is_zero a.last_occurred_at))
        occurrence_required

  -- The alarm before it is validated.
  unfoldable pub opened : String → Decision P → Alarm P
  opened id d = record {
    id = id;
    tenant_id = d.tenant_id;
    status = status_open;
    severity = d.severity;
    source = d.source;
    fingerprint = d.fingerprint;
    rule_id = d.rule_id;
    title = d.title;
    summary = d.summary;
    source_ref = d.source_ref;
    attributes = d.attributes;
    attributes_schema = if eqb_ℤ d.attributes_schema (pos 0) then pos 1 else d.attributes_schema;
    count = pos 1;
    first_occurred_at = d.occurred_at;
    last_occurred_at = d.occurred_at;
    last_event_id = d.event_id;
    acknowledged_at = none;
    acknowledged_by = "";
    closed_at = none;
    closed_by = "";
    version = pos 1;
  }

  unfoldable pub new_open_alarm : String → Decision P → Result AlarmError (Alarm P)
  unfolding opened validate
  new_open_alarm id d = let a = opened id d in do validate a; ok a

  -- The switches over the status, once the arguments have been checked.
  abbrev acknowledge_from : Status → String → Time → Alarm P → Result AlarmError (Alarm P)
  acknowledge_from status_open actor at a = ok (record a {
    status = status_acknowledged;
    acknowledged_by = actor;
    acknowledged_at = some at;
    version = a.version +ℤ pos 1;
  })
  acknowledge_from status_acknowledged actor at a = err already_acknowledged
  acknowledge_from status_closed actor at a = err already_closed
  acknowledge_from (status_other s) actor at a = err (invalid_transition (status_other s))

  unfoldable pub acknowledge : String → Time → Alarm P → Result AlarmError (Alarm P)
  acknowledge actor at a =
      if is_blank actor
      then err actor_required
      else if is_zero at
      then err time_required
      else acknowledge_from a.status actor at a

  abbrev shut : String → Time → Alarm P → Alarm P
  shut actor at a = record a {
    status = status_closed;
    closed_by = actor;
    closed_at = some at;
    version = a.version +ℤ pos 1;
  }

  abbrev close_from : Status → String → Time → Alarm P → Result AlarmError (Alarm P)
  close_from status_open actor at a = ok (shut actor at a)
  close_from status_acknowledged actor at a = ok (shut actor at a)
  close_from status_closed actor at a = err already_closed
  close_from (status_other s) actor at a = err (invalid_transition (status_other s))

  unfoldable pub close : String → Time → Alarm P → Result AlarmError (Alarm P)
  close actor at a =
      if is_blank actor
      then err actor_required
      else if is_zero at
      then err time_required
      else close_from a.status actor at a
