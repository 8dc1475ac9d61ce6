-- ===== src/Alarm/Evaluate.antt =====
-- internal/alarm/domain/service: evaluator.go, rules.go, dispatch_task_failed.go and soe.go, the decision
-- on an incoming event.
pub mod Openable
use Prim.Native.String.{◌++◌ as append}
use vpp_backend.Prelude.{
  pos, String, str_eq, Bool, true, false, not, ◌&&◌, ◌||◌, Option, none, some, List, is_empty,
  count, ◌==◌, if◌then◌else◌, Result, ok, ◌>>◌,
}
use vpp_backend.Contracts.{parse_metric_id, lookup_metric}
use vpp_backend.Alarm.Incoming.{
  Attributes, IncomingError, IncomingEvent, Texts, fingerprint_dispatch, fingerprint_soe,
  soe_event_id, validate_incoming,
}
use vpp_backend.Alarm.{Severity, Source, Decision}

pub record Rule : Type 0 where
  pub enabled : Bool
  pub severity : Severity

pub record SoeRule : Type 0 where
  pub enabled : Bool
  pub severity : Severity
  pub metric_ids : List String

pub record Rules : Type 0 where
  pub dispatch_task_failed : Rule
  pub soe_discrete_change : SoeRule
  pub soe_quality_bad : SoeRule
  pub soe_quality_uncertain : SoeRule
  pub soe_metric_stale : SoeRule
  pub soe_recovery : SoeRule

-- The empty severity is the one not set.
abbrev severity_or : Severity → Severity → Severity
severity_or (Severity.other s) fallback = if str_eq s "" then fallback else Severity.other s
severity_or severity fallback = severity

abbrev is_some : {A : Type 0} → Option A → Bool
is_some none = false
is_some (some a) = true

unfoldable pub allows : SoeRule → String → Bool
unfolding parse_metric_id
allows rule metric_id =
    is_some (parse_metric_id metric_id)
    && (is_empty rule.metric_ids || not (count (λ id. str_eq id metric_id) rule.metric_ids == 0))

-- A rule with its id and the words of its title.
abbrev pub Selected : Type 0
Selected = SoeRule × String × String

unfoldable pub select_rule : Rules → String → Option Selected
select_rule rules kind =
    if str_eq kind "discrete_change"
    then some (rules.soe_discrete_change, "soe-discrete-change", "变位")
    else if str_eq kind "quality_bad"
    then some (rules.soe_quality_bad, "soe-quality-bad", "质量异常")
    else if str_eq kind "quality_uncertain"
    then some (rules.soe_quality_uncertain, "soe-quality-uncertain", "质量不确定")
    else if str_eq kind "stale"
    then some (rules.soe_metric_stale, "soe-metric-stale", "测点陈旧")
    else if str_eq kind "recovery"
    then some (rules.soe_recovery, "soe-recovery", "已恢复")
    else none

abbrev default_severity : String → Severity
default_severity kind =
    if str_eq kind "quality_bad"
    then Severity.critical
    else if str_eq kind "recovery"
    then Severity.info
    else Severity.warning

unfoldable metric_presentation : String → String × String
unfolding lookup_metric
metric_presentation metric_id = elim (lookup_metric metric_id) [
  | none ↦ (metric_id, "")
  | some d ↦ (d.display_name, d.canonical_unit)
]

module _ {F : Type 0} where
  abbrev format_quantity : Texts F → F → String → String
  format_quantity x v unit =
      if str_eq unit "" then x.format_float v else append (x.format_float v) (append " " unit)

  abbrev changed_from : Texts F → Option F → String → String → String
  changed_from x none unit current = current
  changed_from x (some v) unit current = append (format_quantity x v unit) (append " → " current)

  unfoldable soe_summary : Texts F → IncomingEvent F → String → String
  soe_summary x e unit =
      let current = format_quantity x e.value unit in
      if str_eq e.kind "discrete_change"
      then changed_from x e.previous_value unit current
      else if str_eq e.kind "quality_bad"
      then append "质量 BAD，值 " current
      else if str_eq e.kind "quality_uncertain"
      then append "质量 UNCERTAIN，值 " current
      else if str_eq e.kind "stale"
      then append "上次观测 " (append current " 已超过新鲜期，不能当作当前健康值")
      else if str_eq e.kind "recovery"
      then append "恢复为 GOOD，值 " current
      else current

  -- The decision of `dispatchTaskFailedHandler`, where it matches.
  unfoldable pub dispatch_decision :
      Texts F → Rules → IncomingEvent F → Decision (Option (Attributes F))
  unfolding fingerprint_dispatch
  dispatch_decision x rules e = record {
    drop = false;
    tenant_id = e.tenant_id;
    source = Source.dispatch;
    severity = severity_or rules.dispatch_task_failed.severity Severity.critical;
    rule_id = "dispatch-task-failed";
    title = append "调度任务失败: " e.task_name;
    summary = append "task_id=" (append e.task_id (append " status=" e.task_status));
    fingerprint = fingerprint_dispatch x e.tenant_id e.task_id e.event_id;
    event_id = e.event_id;
    source_ref = e.task_id;
    attributes = some (
        Attributes.dispatch_attributes e.event_id e.task_id e.task_name e.task_status
          e.trigger_type);
    attributes_schema = pos 1;
    occurred_at = e.occurred_at;
  }

  unfoldable pub evaluate_dispatch :
      Texts F → Rules → IncomingEvent F → Option (Decision (Option (Attributes F)))
  unfolding dispatch_decision
  evaluate_dispatch x rules e =
      if str_eq e.event_type "task.failed" && rules.dispatch_task_failed.enabled
      then some (dispatch_decision x rules e)
      else none

  -- The decision of `soeHandler` by the rule that was selected.
  unfoldable pub soe_decision :
      Texts F → Selected → IncomingEvent F → Decision (Option (Attributes F))
  unfolding metric_presentation fingerprint_soe soe_event_id soe_summary
  soe_decision x (rule, rule_id, verb) e =
      let (display, unit) = metric_presentation e.metric_id in
      record {
        drop = false;
        tenant_id = e.tenant_id;
        source = Source.soe;
        severity = severity_or rule.severity (default_severity e.kind);
        rule_id = rule_id;
        title = append e.cu_code (append " " (append display (append " " verb)));
        summary = soe_summary x e unit;
        fingerprint = fingerprint_soe x e.tenant_id e.cu_code e.metric_id e.kind;
        event_id = soe_event_id x e;
        source_ref = append e.cu_code (append "/" e.metric_id);
        attributes = some (
            Attributes.soe_attributes e.cu_code e.metric_id display unit e.kind e.quality e.value
              e.previous_value);
        attributes_schema = pos 1;
        occurred_at = e.occurred_at;
      }

  unfoldable pub evaluate_soe :
      Texts F → Rules → IncomingEvent F → Option (Decision (Option (Attributes F)))
  unfolding select_rule allows soe_decision
  evaluate_soe x rules e = elim (select_rule rules e.kind) [
    | none ↦ none
    | some s ↦ if s.0.enabled && allows s.0 e.metric_id then some (soe_decision x s e) else none
  ]

  -- `Decision{Drop: true}`.
  abbrev pub dropped : Decision (Option (Attributes F))
  dropped = record {
    drop = true;
    tenant_id = "";
    source = Source.other "";
    severity = Severity.other "";
    rule_id = "";
    title = "";
    summary = "";
    fingerprint = "";
    event_id = "";
    source_ref = "";
    attributes = none;
    attributes_schema = pos 0;
    occurred_at = pos 0;
  }

  abbrev pub or_dropped :
      Option (Decision (Option (Attributes F))) → Decision (Option (Attributes F))
  or_dropped none = dropped
  or_dropped (some d) = d

  -- The handler of a source.
  abbrev pub evaluate_source :
      Texts F → Rules → Source → IncomingEvent F → Decision (Option (Attributes F))
  evaluate_source x rules Source.dispatch e = or_dropped (evaluate_dispatch x rules e)
  evaluate_source x rules Source.soe e = or_dropped (evaluate_soe x rules e)
  evaluate_source x rules (Source.other s) e = dropped

  unfoldable pub evaluate :
      Texts F → Rules → IncomingEvent F → Result IncomingError (Decision (Option (Attributes F)))
  unfolding validate_incoming evaluate_dispatch evaluate_soe
  evaluate x rules e = validate_incoming e >> ok (evaluate_source x rules e.source e)
