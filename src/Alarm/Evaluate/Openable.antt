-- ===== src/Alarm/Evaluate/Openable.antt =====
-- Whatever is not dropped can become a ticket.
use vpp_backend.Prelude.{
  ◌≡◌, refl, sym, subst, String, str_eq, is_blank, true, false, not, ◌&&◌, Bool-cases, Option,
  Option-cases, some, some_inj, some_ne_none, inl, inr, ◌⊎◌, ok, guard, guard-ok, ◌>>◌, >>-ok,
  ok_inj, err_ne_ok, arith,
}
use vpp_backend.Prelude.Blank.{is_blank-append}
use vpp_backend.Alarm.{
  Source, Decision, is_zero, parses_severity, parses_source, parses_status, validate, opened,
  new_open_alarm,
}
use vpp_backend.Alarm.Evaluate.{
  Rules, Selected, evaluate_source, evaluate, evaluate_dispatch, evaluate_soe, dispatch_decision,
  soe_decision, select_rule, allows, or_dropped,
}
use vpp_backend.Alarm.Incoming.{
  IncomingEvent, IncomingError, Attributes, Texts, is_soe_kind, check_source, validate_incoming,
  soe_event_id, fingerprint_dispatch, fingerprint_soe,
}

-- What a decision needs for a ticket, but for its severity.
pub record Openable {P : Type 0} (d : Decision P) : Type 0 where
  pub tenant : is_blank d.tenant_id ≡ false
  pub source : parses_source d.source ≡ true
  pub fingerprint : is_blank d.fingerprint ≡ false
  pub rule : is_blank d.rule_id ≡ false
  pub title : is_blank d.title ≡ false
  pub event : is_blank d.event_id ≡ false
  pub time : is_zero d.occurred_at ≡ false

pub Openable-valid :
    {P : Type 0} (id : String) (d : Decision P)
    → is_blank id ≡ false
    → parses_severity d.severity ≡ true
    → Openable d
    → new_open_alarm id d ≡ ok (opened id d)
unfolding new_open_alarm validate opened parses_status
Openable-valid id d i s o =
    rw (i, s, o.tenant, o.source, o.fingerprint, o.rule, o.title, o.event, o.time) refl

-- The fixed texts of a decision are not blank.
literals :
    (is_blank "v1:" ≡ false)
    × (is_blank "v2:" ≡ false)
    × (is_blank "soe:v2:" ≡ false)
    × (is_blank "dispatch-task-failed" ≡ false)
    × (is_blank "调度任务失败: " ≡ false)
unfolding is_blank
literals = (refl, refl, refl, refl, refl)

rule_ids :
    (is_blank "soe-discrete-change" ≡ false)
    × (is_blank "soe-quality-bad" ≡ false)
    × (is_blank "soe-quality-uncertain" ≡ false)
    × (is_blank "soe-metric-stale" ≡ false)
    × (is_blank "soe-recovery" ≡ false)
unfolding is_blank
rule_ids = (refl, refl, refl, refl, refl)

module _ {F : Type 0} (x : Texts F) (rules : Rules) where
  dispatch_decision-Openable :
      (e : IncomingEvent F)
      → is_blank e.tenant_id ≡ false
      → is_zero e.occurred_at ≡ false
      → is_blank e.event_id ≡ false
      → Openable (dispatch_decision x rules e)
  unfolding dispatch_decision fingerprint_dispatch parses_source
  dispatch_decision-Openable e t z n = record {
    tenant = t;
    source = refl;
    fingerprint = is_blank-append "v1:" _ literals.0;
    rule = literals.3;
    title = is_blank-append "调度任务失败: " _ literals.4;
    event = n;
    time = z;
  }

  soe_decision-Openable :
      (s : Selected) (e : IncomingEvent F)
      → is_blank s.1 ≡ false
      → is_blank e.tenant_id ≡ false
      → is_zero e.occurred_at ≡ false
      → is_blank e.cu_code ≡ false
      → Openable (soe_decision x s e)
  unfolding soe_decision fingerprint_soe soe_event_id parses_source
  soe_decision-Openable (rule, rule_id, verb) e r t z c = record {
    tenant = t;
    source = refl;
    fingerprint = is_blank-append "v2:" _ literals.1;
    rule = r;
    title = is_blank-append e.cu_code _ c;
    event = is_blank-append "soe:v2:" _ literals.2;
    time = z;
  }

  select_rule-named :
      (kind : String) (s : Selected) → select_rule rules kind ≡ some s → is_blank s.1 ≡ false
  unfolding select_rule
  select_rule-named kind s e =
      let named = λ (t : Selected) (b : is_blank t.1 ≡ false) (same : t ≡ s).
        subst (λ (y : Selected). is_blank y.1 ≡ false) same b in
      elim (Bool-cases (str_eq kind "discrete_change")) [
        | inl h ↦ named _ rule_ids.0 (some_inj.0 (rw (h, select_rule) at e))
        | inr h₁ ↦ elim (Bool-cases (str_eq kind "quality_bad")) [
          | inl h ↦ named _ rule_ids.1 (some_inj.0 (rw (h₁, h, select_rule) at e))
          | inr h₂ ↦ elim (Bool-cases (str_eq kind "quality_uncertain")) [
            | inl h ↦ named _ rule_ids.2 (some_inj.0 (rw (h₁, h₂, h, select_rule) at e))
            | inr h₃ ↦ elim (Bool-cases (str_eq kind "stale")) [
              | inl h ↦ named _ rule_ids.3 (some_inj.0 (rw (h₁, h₂, h₃, h, select_rule) at e))
              | inr h₄ ↦ elim (Bool-cases (str_eq kind "recovery")) [
                | inl h ↦ named _ rule_ids.4 (some_inj.0 (rw (h₁, h₂, h₃, h₄, h, select_rule) at e))
                | inr h₅ ↦ absurd (some_ne_none (sym (rw (h₁, h₂, h₃, h₄, h₅, select_rule) at e)))
              ]
            ]
          ]
        ]
      ]

  evaluate_soe-Openable :
      (e : IncomingEvent F)
      → is_blank e.tenant_id ≡ false
      → is_zero e.occurred_at ≡ false
      → is_blank e.cu_code ≡ false
      → ((or_dropped (evaluate_soe x rules e)).drop ≡ true)
        ⊎ Openable (or_dropped (evaluate_soe x rules e))
  unfolding evaluate_soe
  evaluate_soe-Openable e t z c = elim (Option-cases (select_rule rules e.kind)) [
    | inl unknown_kind ↦ rw (unknown_kind, evaluate_soe) (inl refl)
    | inr (s, selected) ↦ elim (Bool-cases (s.0.enabled && allows s.0 e.metric_id)) [
      | inl on ↦
          rw (selected, on, evaluate_soe)
            (inr (soe_decision-Openable s e (select_rule-named e.kind s selected) t z c))
      | inr off ↦ rw (selected, off, evaluate_soe) (inl refl)
    ]
  ]

  evaluate_dispatch-Openable :
      (e : IncomingEvent F)
      → is_blank e.tenant_id ≡ false
      → is_zero e.occurred_at ≡ false
      → is_blank e.event_id ≡ false
      → ((or_dropped (evaluate_dispatch x rules e)).drop ≡ true)
        ⊎ Openable (or_dropped (evaluate_dispatch x rules e))
  unfolding evaluate_dispatch
  evaluate_dispatch-Openable e t z n =
      elim (Bool-cases (str_eq e.event_type "task.failed" && rules.dispatch_task_failed.enabled)) [
        | inl on ↦ rw (on, evaluate_dispatch) (inr (dispatch_decision-Openable e t z n))
        | inr off ↦ rw (off, evaluate_dispatch) (inl refl)
      ]

  -- What the switch over the source makes sure of.
  abbrev Checked : Source → IncomingEvent F → Type 0
  Checked Source.dispatch e = is_blank e.event_id ≡ false
  Checked Source.soe e = is_blank e.cu_code ≡ false
  Checked (Source.other s) e = ⊥

  check_source-Checked : (s : Source) (e : IncomingEvent F) → check_source s e ≡ ok tt → Checked s e
  check_source-Checked Source.dispatch e h =
      let (event, _) =
        >>-ok (guard (not (is_blank e.event_id)) IncomingError.missing_event_id) _ h in
      let named = guard-ok (not (is_blank e.event_id)) IncomingError.missing_event_id event in
      ground (arith, named)
  check_source-Checked Source.soe e h =
      let (checked, _) =
        >>-ok
          (guard (not (is_blank e.cu_code)) IncomingError.missing_cu_code
            >> guard (not (is_blank e.metric_id)) IncomingError.missing_metric_id
            >> guard (is_soe_kind e.kind) IncomingError.invalid_kind)
          _ h in
      let (checked', _) =
        >>-ok
          (guard (not (is_blank e.cu_code)) IncomingError.missing_cu_code
            >> guard (not (is_blank e.metric_id)) IncomingError.missing_metric_id)
          _ checked in
      let (unit, _) =
        >>-ok (guard (not (is_blank e.cu_code)) IncomingError.missing_cu_code) _ checked' in
      let named = guard-ok (not (is_blank e.cu_code)) IncomingError.missing_cu_code unit in
      ground (arith, named)
  check_source-Checked (Source.other s) e h = err_ne_ok h

  evaluate_source-Openable :
      (s : Source) (e : IncomingEvent F)
      → is_blank e.tenant_id ≡ false
      → is_zero e.occurred_at ≡ false
      → Checked s e
      → ((evaluate_source x rules s e).drop ≡ true) ⊎ Openable (evaluate_source x rules s e)
  evaluate_source-Openable Source.dispatch e t z c = evaluate_dispatch-Openable e t z c
  evaluate_source-Openable Source.soe e t z c = evaluate_soe-Openable e t z c
  evaluate_source-Openable (Source.other s) e t z c = inl refl

  pub evaluate-Openable :
      (e : IncomingEvent F) (d : Decision (Option (Attributes F)))
      → evaluate x rules e ≡ ok d
      → (d.drop ≡ true) ⊎ Openable d
  unfolding evaluate validate_incoming
  evaluate-Openable e d h =
      let (valid, done) = >>-ok (validate_incoming e) _ h in
      let (checked, source) =
        >>-ok
          (guard (not (is_blank e.tenant_id)) IncomingError.missing_tenant_id
            >> guard (not (is_zero e.occurred_at)) IncomingError.missing_occurred_at)
          _ valid in
      let (tenant, time) =
        >>-ok (guard (not (is_blank e.tenant_id)) IncomingError.missing_tenant_id) _ checked in
      let tenant' = guard-ok (not (is_blank e.tenant_id)) IncomingError.missing_tenant_id tenant in
      let time' = guard-ok (not (is_zero e.occurred_at)) IncomingError.missing_occurred_at time in
      subst (λ (y : Decision (Option (Attributes F))). (y.drop ≡ true) ⊎ Openable y) (ok_inj done)
        (evaluate_source-Openable e.source e (ground (arith, tenant')) (ground (arith, time'))
          (check_source-Checked e.source e source))
