-- ===== src/Alarm/Tests.antt =====
-- A ticket for a failed dispatch task.
use vpp_backend.Prelude.{pos, ◌≡◌, ◌≤◌, refl, String, false, List, [], ◌∷◌, is_blank}
use vpp_backend.Alarm.{
  Severity, Source, Decision, Alarm, opened, new_open_alarm, acknowledge, close,
}
use vpp_backend.Alarm.Lifecycle.{Op, acknowledges, closes, Lawful, run, new_open_alarm-Lawful}

abbrev task_failed : Decision String
task_failed = record {
  drop = false;
  tenant_id = "t1";
  source = Source.dispatch;
  severity = Severity.critical;
  rule_id = "dispatch-task-failed";
  title = "Task failed";
  summary = "";
  fingerprint = "f1";
  event_id = "e1";
  source_ref = "";
  attributes = "task-1";
  attributes_schema = pos 0;
  occurred_at = pos 5;
}

abbrev ticket : Alarm String
ticket = opened "a1" task_failed

abbrev attempts : List Op
attempts =
    acknowledges "ann" (pos 6)
    ∷ acknowledges "bob" (pos 7)
    ∷ closes " " (pos 8)
    ∷ closes "bob" (pos 9)
    ∷ acknowledges "ann" (pos 10)
    ∷ []

new_open_alarm-Lawful_example :
    Lawful (run attempts (ticket, 0)) × ((run attempts (ticket, 0)).1 ≤ 2)
unfolding new_open_alarm is_blank
new_open_alarm-Lawful_example = new_open_alarm-Lawful "a1" task_failed ticket attempts refl

-- Two of the five attempts are accepted.
two_accepted : (run attempts (ticket, 0)).1 ≡ 2
unfolding run opened acknowledge close is_blank
two_accepted = refl
