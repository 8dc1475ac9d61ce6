-- ===== src/Alarm/Ingest/Announced.antt =====
-- A ticket is announced when, and as, it was opened.
use vpp_backend.Prelude.{
  ◌≡◌, refl, sym, subst, ap, ◌∙◌, String, str_eq, str_eq_iff, is_blank, Bool, true, false,
  Bool-cases, Option, Option-cases, none, some, inl, inr, ◌⊎◌, List, [], ◌∷◌, length, suc,
  if◌then◌else◌, Result-cases, ok, ok_inj, err_ne_ok, arith,
}
use vpp_backend.Prelude.Rows.{update_where, take_where, take_where-counted, take_where-none}
use mathlib.Core.Bool.{true≢false}
use vpp_backend.Alarm.{Source, Decision, Alarm, parses_source, opened, new_open_alarm}
use vpp_backend.Alarm.Store.{
  AlarmTables, IngestResult, is_dispatch, is_open_key, inserted, merged, insert_alarm, upsert_alarm,
  ins_alarm, with_event, ingest,
}
use vpp_backend.Alarm.Store.Invariant.{ingest-cases, written_by}
use vpp_backend.Alarm.Evaluate.{Rules, evaluate}
use vpp_backend.Alarm.Incoming.{IncomingEvent, Attributes, Texts}
use vpp_backend.Alarm.Evaluate.Openable.{Openable, Openable-valid, evaluate-Openable}
use vpp_backend.Alarm.Ingest.{
  Handled, is_dedup_conflict, opened_new, announce, record_ingest, store_decision, handle_ingest,
}

stored_source :
    (s : Source)
    → parses_source s ≡ true
    → (if is_dispatch s then Source.dispatch else Source.soe) ≡ s
unfolding parses_source
stored_source Source.dispatch h = refl
stored_source Source.soe h = refl
stored_source (Source.other s) h = cc

length-update_where {ℓ} :
    {A : Type ℓ} (test : A → Bool) (f : A → A) (xs : List A)
    → length (update_where test f xs) ≡ length xs
unfolding update_where
length-update_where test f [] = refl
length-update_where test f (x ∷ xs) = ap suc (length-update_where test f xs)

module _ {P : Type 0} where
  inserted-opened :
      (id : String) (d : Decision P) → parses_source d.source ≡ true → inserted id d ≡ opened id d
  unfolding inserted opened
  inserted-opened id d h = ap (λ s. record (opened id d) { source = s }) (stored_source d.source h)

  -- An id that no row has.
  abbrev pub Fresh : String → AlarmTables P → Type 0
  Fresh id t = take_where (λ (a : Alarm P). str_eq a.id id) t.alarms ≡ none

  -- A new row with the id, or a row of another id that was there.
  abbrev NewOrOld : String → Decision P → List (Alarm P) → String × List (Alarm P) → Type 0
  NewOrOld id d alarms w =
      (w ≡ (id, inserted id d ∷ alarms)) ⊎ ((str_eq w.0 id ≡ false) × (length w.1 ≡ length alarms))

  insert_alarm-fresh :
      (id : String) (d : Decision P) (alarms : List (Alarm P))
      → take_where (λ (a : Alarm P). str_eq a.id id) alarms ≡ none
      → insert_alarm id d alarms ≡ ok (inserted id d ∷ alarms)
  unfolding insert_alarm
  insert_alarm-fresh id d alarms fresh = rw (fresh, insert_alarm) refl

  other_id :
      (id : String) (alarms : List (Alarm P)) (a : Alarm P) (test : Alarm P → Bool)
      → take_where test alarms ≡ some a
      → take_where (λ (b : Alarm P). str_eq b.id id) alarms ≡ none
      → str_eq a.id id ≡ false
  other_id id alarms a test found fresh = elim (Bool-cases (str_eq a.id id)) [
    | inl same ↦
        let there = take_where-counted (λ (b : Alarm P). str_eq b.id id) test alarms found same in
        let nowhere = take_where-none (λ (b : Alarm P). str_eq b.id id) alarms fresh in
        absurd (omega arith)
    | inr other ↦ other
  ]

  upsert_alarm-NewOrOld :
      (id : String) (d : Decision P) (alarms : List (Alarm P)) {w : String × List (Alarm P)}
      → take_where (λ (a : Alarm P). str_eq a.id id) alarms ≡ none
      → upsert_alarm id d alarms ≡ ok w
      → NewOrOld id d alarms w
  unfolding upsert_alarm
  upsert_alarm-NewOrOld id d alarms {w} fresh e =
      elim (Option-cases (take_where (is_open_key d.tenant_id d.fingerprint) alarms)) [
        | inl none_open ↦
            inl (
              sym
                (ok_inj (rw (none_open, insert_alarm-fresh id d alarms fresh, upsert_alarm) at e)))
        | inr (a, found) ↦
            let done = ok_inj (rw (found, upsert_alarm) at e) in
            inr (
              subst
                (λ (y : String × List (Alarm P)).
                  (str_eq y.0 id ≡ false) × (length y.1 ≡ length alarms))
                done
                (
                  other_id id alarms a (is_open_key d.tenant_id d.fingerprint) found fresh,
                  length-update_where (is_open_key d.tenant_id d.fingerprint) (merged d) alarms,
                ))
      ]

  ins_alarm-NewOrOld :
      (id : String) (d : Decision P) (alarms : List (Alarm P)) {w : String × List (Alarm P)}
      → take_where (λ (a : Alarm P). str_eq a.id id) alarms ≡ none
      → ins_alarm id d alarms ≡ ok w
      → NewOrOld id d alarms w
  unfolding ins_alarm
  ins_alarm-NewOrOld id d alarms {w} fresh e =
      let e₁ = rw (insert_alarm-fresh id d alarms fresh, ins_alarm) at e in
      elim (Option-cases (take_where (is_open_key d.tenant_id d.fingerprint) alarms)) [
        | inl none_open ↦ inl (sym (ok_inj (rw none_open at e₁)))
        | inr (a, found) ↦ absurd (err_ne_ok (rw found at e₁))
      ]

  written_by-NewOrOld :
      (id : String) (d : Decision P) (alarms : List (Alarm P)) {w : String × List (Alarm P)}
      → take_where (λ (a : Alarm P). str_eq a.id id) alarms ≡ none
      → written_by id d alarms ≡ ok w
      → NewOrOld id d alarms w
  written_by-NewOrOld id d alarms fresh e = elim (Bool-cases (is_dispatch d.source)) [
    | inl h ↦ ins_alarm-NewOrOld id d alarms fresh (rw h at e)
    | inr h ↦ upsert_alarm-NewOrOld id d alarms fresh (rw h at e)
  ]

  -- No row was added and nothing is announced, or the row that was added is.
  abbrev pub Announced : AlarmTables P → Handled P → Type 0
  Announced t h =
      ((h.result.opened ≡ false) × (h.announced ≡ []) × (length h.tables.alarms ≡ length t.alarms))
      ⊎ ((h.result.opened ≡ true)
          × ((a : Alarm P) × (h.announced ≡ a ∷ []) × (h.tables.alarms ≡ a ∷ t.alarms)))

  announce-ok :
      (id : String) (d : Decision P) {a : Alarm P}
      → new_open_alarm id d ≡ ok a
      → announce id d ≡ a ∷ []
  announce-ok id d e = rw (e, announce) refl

  record_ingest-Announced :
      (marshals : P → Bool) (id : String) (d : Decision P) (t : AlarmTables P)
      (r : IngestResult × AlarmTables P)
      → is_blank id ≡ false
      → Fresh id t
      → Openable d
      → ingest marshals id d t ≡ ok r
      → Announced t (record_ingest id d r)
  unfolding record_ingest opened_new
  record_ingest-Announced marshals id d t r named fresh o e =
      elim (ingest-cases marshals id d t e) [
        | inl (_, _, same) ↦
            subst (λ y. Announced t (record_ingest id d y)) (sym same) (inl (refl, refl, refl))
        | inr (w, made, severe, done) ↦
            subst (λ y. Announced t (record_ingest id d y)) done
              (elim (written_by-NewOrOld id d t.alarms fresh made) [
                | inl new ↦
                    let own : str_eq id id ≡ true = (str_eq_iff id id).1 refl in
                    subst (λ y. Announced t (record_ingest id d (with_event id d t y))) (sym new)
                      (rw own (
                        inr (
                          refl,
                          (
                            opened id d,
                            announce-ok id d (Openable-valid id d named severe o),
                            ap (λ a. a ∷ t.alarms) (inserted-opened id d o.source),
                          ),
                        )))
                | inr (other, kept) ↦ rw other (inl (refl, refl, kept))
              ])
      ]

  store_decision-Announced :
      (marshals : P → Bool) (id : String) (d : Decision P) (t : AlarmTables P) {h : Handled P}
      → is_blank id ≡ false
      → Fresh id t
      → ((d.drop ≡ true) ⊎ Openable d)
      → store_decision marshals id d t ≡ ok h
      → Announced t h
  unfolding store_decision
  store_decision-Announced marshals id d t {h} named fresh o e = elim (Bool-cases d.drop) [
    | inl drop ↦
        subst (Announced t) (ok_inj (rw (drop, store_decision) at e)) (inl (refl, refl, refl))
    | inr keep ↦ elim (Result-cases (ingest marshals id d t)) [
      | inl (r, stored) ↦
          let openable : Openable d = elim o [
            | inl drop ↦ absurd (true≢false (sym drop ∙ keep))
            | inr openable ↦ openable
          ] in
          subst (Announced t) (ok_inj (rw (keep, stored, store_decision) at e))
            (record_ingest-Announced marshals id d t r named fresh openable stored)
      | inr (x, failed) ↦ elim (Bool-cases (is_dedup_conflict x)) [
        | inl duplicate ↦
            subst (Announced t) (ok_inj (rw (keep, failed, duplicate, store_decision) at e))
              (inl (refl, refl, refl))
        | inr other ↦ absurd (err_ne_ok (rw (keep, failed, other, store_decision) at e))
      ]
    ]
  ]

-- An event that is handled under a fresh id, which is not blank, announces a ticket exactly when it opens
-- one, and then the ticket announced is the row that was added; otherwise no row is added.
pub handle_ingest-Announced :
    {F : Type 0} (x : Texts F) (rules : Rules) (marshals : Option (Attributes F) → Bool)
    (id : String) (e : IncomingEvent F) (t : AlarmTables (Option (Attributes F)))
    (h : Handled (Option (Attributes F)))
    → is_blank id ≡ false
    → Fresh id t
    → handle_ingest x rules marshals id e t ≡ ok h
    → Announced t h
unfolding handle_ingest
handle_ingest-Announced x rules marshals id e t h named fresh done =
    elim (Result-cases (evaluate x rules e)) [
      | inl (d, decided) ↦
          store_decision-Announced marshals id d t named fresh
            (evaluate-Openable x rules e d decided) (rw (decided, handle_ingest) at done)
      | inr (bad, refused) ↦ absurd (err_ne_ok (rw (refused, handle_ingest) at done))
    ]
