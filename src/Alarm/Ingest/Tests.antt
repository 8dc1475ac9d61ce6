-- ===== src/Alarm/Ingest/Tests.antt =====
-- A quality fault that comes twice, is acknowledged and comes again.
use vpp_backend.Prelude.{
  ℕ, ◌≡◌, refl, ℤ, pos, String, is_blank, Bool, true, false, map, Option, none, List, [], ◌∷◌,
  Result, ok, err,
}
use vpp_backend.Prelude.Rows.{take_where}
use vpp_backend.Alarm.{Status, status_acknowledged, Severity, Source, Decision, Alarm}
use vpp_backend.Alarm.Store.{AlarmTables, IngestResult, ingest}
use vpp_backend.Alarm.Store.Invariant.{StoreInv}
use vpp_backend.Alarm.Store.Replay.{Call, run, no_alarms, duplicate, run-Counted, ingest-replayed}
use vpp_backend.Alarm.Evaluate.{SoeRule, Rules}
use vpp_backend.Alarm.Incoming.{IncomingEvent, Attributes, Texts}
use vpp_backend.Alarm.Ingest.{Handled, Outcome, handle_ingest}
use vpp_backend.Alarm.Ingest.Announced.{Announced, Fresh, handle_ingest-Announced}

abbrev value_or {ℓ} : {E : Type 0} {A : Type ℓ} → A → Result E A → A
value_or d (ok a) = a
value_or d (err e) = d

abbrev fault : String → Decision (Option (Attributes ℕ))
fault event_id = record {
  drop = false;
  tenant_id = "t";
  source = Source.soe;
  severity = Severity.critical;
  rule_id = "soe-quality-bad";
  title = "cu1 bad";
  summary = "";
  fingerprint = "v2:f";
  event_id = event_id;
  source_ref = "cu1";
  attributes = none;
  attributes_schema = pos 1;
  occurred_at = pos 7;
}

abbrev any_attributes : Option (Attributes ℕ) → Bool
any_attributes a = true

abbrev first_taken : IngestResult × AlarmTables (Option (Attributes ℕ))
first_taken = value_or (duplicate, no_alarms) (ingest any_attributes "a1" (fault "e1") no_alarms)

first_taken_lem : ingest any_attributes "a1" (fault "e1") no_alarms ≡ ok first_taken
unfolding ingest
first_taken_lem = refl

abbrev calls : List (Call any_attributes)
calls =
    Call.ingests "a2" (fault "e2")
    ∷ Call.acknowledges
        (record { tenant_id = "t"; alarm_id = "a1"; version = pos 2; actor = "ann" }) (pos 9)
        no_alarms no_alarms
    ∷ Call.ingests "a3" (fault "e1")
    ∷ []

-- The second event and the acknowledgement leave version 3 and two events.
calls_lem :
    map {B = ℤ × ℤ × Status}
      (λ (a : Alarm (Option (Attributes ℕ))). (a.count, a.version, a.status))
      (run any_attributes calls first_taken.1).alarms
    ≡ (pos 2, pos 3, status_acknowledged) ∷ []
unfolding run is_blank vpp_backend.Prelude.◌+ℤ◌
calls_lem = refl

run-Counted_example :
    StoreInv (run any_attributes (Call.ingests "a1" (fault "e1") ∷ calls) no_alarms)
run-Counted_example = run-Counted any_attributes (Call.ingests "a1" (fault "e1") ∷ calls)

ingest-replayed_example :
    ingest any_attributes "a9" (fault "e1") (run any_attributes calls first_taken.1)
    ≡ ok (duplicate, run any_attributes calls first_taken.1)
ingest-replayed_example =
    ingest-replayed any_attributes "a1" "a9" (fault "e1") (fault "e1") no_alarms first_taken calls
      first_taken_lem refl refl refl

abbrev soe_rule : SoeRule
soe_rule = record { enabled = true; severity = Severity.other ""; metric_ids = [] }

abbrev rules : Rules
rules = record {
  dispatch_task_failed = record { enabled = true; severity = Severity.critical };
  soe_discrete_change = soe_rule;
  soe_quality_bad = soe_rule;
  soe_quality_uncertain = soe_rule;
  soe_metric_stale = soe_rule;
  soe_recovery = soe_rule;
}

abbrev texts : Texts ℕ
texts = record { sha256_hex = λ s. s; format_float = λ n. "1"; format_time = λ t. "now" }

abbrev bad_quality : IncomingEvent ℕ
bad_quality = record {
  source = Source.soe;
  tenant_id = "t";
  event_id = "";
  event_type = "";
  occurred_at = pos 7;
  task_id = "";
  task_name = "";
  task_status = "";
  trigger_type = "";
  cu_code = "cu1";
  metric_id = "electrical.active_power.v1";
  kind = "quality_bad";
  quality = "BAD";
  value = 3;
  previous_value = none;
}

abbrev nothing_handled : Handled (Option (Attributes ℕ))
nothing_handled = record {
  result = record { outcome = Outcome.dropped; alarm_id = ""; opened = false };
  tables = no_alarms;
  announced = [];
}

abbrev handled : Handled (Option (Attributes ℕ))
handled =
    value_or nothing_handled (handle_ingest texts rules any_attributes "a1" bad_quality no_alarms)

handled_lem : handle_ingest texts rules any_attributes "a1" bad_quality no_alarms ≡ ok handled
unfolding handle_ingest is_blank
handled_lem = refl

opens_lem : handled.result ≡ record { outcome = Outcome.done; alarm_id = "a1"; opened = true }
unfolding handle_ingest is_blank
opens_lem = refl

no_alarms-Fresh : Fresh {P = Option (Attributes ℕ)} "a1" no_alarms
unfolding take_where
no_alarms-Fresh = refl

named_id : is_blank "a1" ≡ false
unfolding is_blank
named_id = refl

handle_ingest-Announced_example : Announced no_alarms handled
handle_ingest-Announced_example =
    handle_ingest-Announced texts rules any_attributes "a1" bad_quality no_alarms handled named_id
      no_alarms-Fresh handled_lem
