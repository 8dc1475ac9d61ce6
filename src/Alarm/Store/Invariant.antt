-- ===== src/Alarm/Store/Invariant.antt =====
-- What each statement keeps of the two tables.
use vpp_backend.Prelude.{
  suc, ◌≤◌, ℤ, pos_part, ◌≡◌, refl, sym, subst, ap, ◌∙◌, String, str_eq, str_eq_iff, is_blank, Bool,
  true, false, Bool-cases, Option-cases, none, some, inl, inr, ◌⊎◌, List, ◌∷◌, All, count, length,
  if◌then◌else◌, Result, ok, >>-ok, >>=-ok, guard, guard-ok, ok_inj, err_ne_ok, arith,
}
use vpp_backend.Prelude.Rows.{
  update_where, take_where, take_where-none, take_where-counted, take_where_sound,
  All-update_where-when,
}
use vpp_backend.Alarm.{Time, Decision, Alarm, parses_severity, opened}
use vpp_backend.Alarm.Store.{
  AlarmTables, StoreError, IngestResult, DedupRow, is_dispatch, is_event, is_open_key, inserted,
  merged, insert_alarm, upsert_alarm, ins_alarm, with_event, ingest, mutate, find_by_id,
  acknowledge_alarm, close_alarm, to_acknowledge, to_close, acknowledged_row, closed_row,
}
use vpp_backend.Alarm.Store.Counts.{
  RowInv, open_unclosed, events, inserted-RowInv, merged-RowInv, acknowledged_row-RowInv,
  closed_row-RowInv, events-update_where, events-merged, count-update_where-le,
}

module _ {P : Type 0} where
  abbrev Single : List (Alarm P) → Type 0
  Single rows =
      (tenant_id fingerprint : String) → count (is_open_key tenant_id fingerprint) rows ≤ 1

  -- Every row is lawful, the rows count each event that was taken once, and a key has at most one row
  -- that is not closed.
  pub record StoreInv (t : AlarmTables P) : Type 0 where
    pub rows : All RowInv t.alarms
    pub counted : events t.alarms ≡ length t.dedup
    pub single : Single t.alarms

  -- One more event is counted.
  record Written (before after : List (Alarm P)) : Type 0 where
    rows : All RowInv after
    counted : events after ≡ suc (events before)
    single : Single after

  insert_alarm-inserted :
      (id : String) (d : Decision P) (alarms rows : List (Alarm P))
      → insert_alarm id d alarms ≡ ok rows
      → inserted id d ∷ alarms ≡ rows
  unfolding insert_alarm
  insert_alarm-inserted id d alarms rows e =
      elim (Option-cases (take_where (λ (a : Alarm P). str_eq a.id id) alarms)) [
        | inl fresh ↦ ok_inj (rw (fresh, insert_alarm) at e)
        | inr (a, known) ↦ absurd (err_ne_ok (rw (known, insert_alarm) at e))
      ]

  inserted-Single :
      (id : String) (d : Decision P) (alarms : List (Alarm P))
      → count (is_open_key d.tenant_id d.fingerprint) alarms ≡ 0
      → Single alarms
      → Single (inserted id d ∷ alarms)
  unfolding is_open_key inserted opened
  inserted-Single id d alarms none_open h tenant_id fingerprint =
      elim (Bool-cases (is_open_key tenant_id fingerprint (inserted id d))) [
        | inl own ↦
            let tenant = (str_eq_iff d.tenant_id tenant_id).0 (ground (arith, own)) in
            let key = (str_eq_iff d.fingerprint fingerprint).0 (ground (arith, own)) in
            let nothing =
              subst (λ f. count (is_open_key tenant_id f) alarms ≡ 0) key
                (subst (λ t. count (is_open_key t d.fingerprint) alarms ≡ 0) tenant none_open) in
            ground (arith, nothing)
        | inr other ↦ let before = h tenant_id fingerprint in ground (arith, before)
      ]

  inserted-Written :
      (id : String) (d : Decision P) (alarms : List (Alarm P))
      → count (is_open_key d.tenant_id d.fingerprint) alarms ≡ 0
      → All RowInv alarms
      → Single alarms
      → Written alarms (inserted id d ∷ alarms)
  unfolding inserted opened
  inserted-Written id d alarms none_open rows single = record {
    rows = (inserted-RowInv id d, rows);
    counted = omega arith;
    single = inserted-Single id d alarms none_open single;
  }

  merged-Written :
      (d : Decision P) (alarms : List (Alarm P)) {a : Alarm P}
      → take_where (is_open_key d.tenant_id d.fingerprint) alarms ≡ some a
      → All RowInv alarms
      → Single alarms
      → Written alarms (update_where (is_open_key d.tenant_id d.fingerprint) (merged d) alarms)
  unfolding is_open_key merged
  merged-Written d alarms {a} found rows single =
      let test = is_open_key d.tenant_id d.fingerprint in
      let one = single d.tenant_id d.fingerprint in
      let some_row =
        take_where-counted test test alarms found (take_where_sound test alarms found) in
      let counted = events-merged test d alarms rows in
      record {
        rows =
            All-update_where-when RowInv test (merged d) (λ x _ h. merged-RowInv d x h) alarms rows;
        counted = omega arith;
        single = λ tenant_id fingerprint.
            let before = single tenant_id fingerprint in
            let kept =
              count-update_where-le (is_open_key tenant_id fingerprint) test (merged d) alarms
                (λ x _ h. h) in
            omega arith;
      }

  upsert_alarm-Written :
      (id : String) (d : Decision P) (alarms : List (Alarm P)) {w : String × List (Alarm P)}
      → All RowInv alarms
      → Single alarms
      → upsert_alarm id d alarms ≡ ok w
      → Written alarms w.1
  unfolding upsert_alarm
  upsert_alarm-Written id d alarms {w} rows single e =
      elim (Option-cases (take_where (is_open_key d.tenant_id d.fingerprint) alarms)) [
        | inl fresh ↦
            let (made, i, done) =
              >>=-ok (insert_alarm id d alarms) _ (rw (fresh, upsert_alarm) at e) in
            subst (λ (x : String × List (Alarm P)). Written alarms x.1) (ok_inj done)
              (subst (Written alarms) (insert_alarm-inserted id d alarms made i)
                (inserted-Written id d alarms (take_where-none _ alarms fresh) rows single))
        | inr (a, found) ↦
            subst (λ (x : String × List (Alarm P)). Written alarms x.1)
              (ok_inj (rw (found, upsert_alarm) at e)) (merged-Written d alarms found rows single)
      ]

  ins_alarm-Written :
      (id : String) (d : Decision P) (alarms : List (Alarm P)) {w : String × List (Alarm P)}
      → All RowInv alarms
      → Single alarms
      → ins_alarm id d alarms ≡ ok w
      → Written alarms w.1
  unfolding ins_alarm
  ins_alarm-Written id d alarms {w} rows single e =
      let (made, i, done) = >>=-ok (insert_alarm id d alarms) _ e in
      elim (Option-cases (take_where (is_open_key d.tenant_id d.fingerprint) alarms)) [
        | inl fresh ↦
            subst (λ (x : String × List (Alarm P)). Written alarms x.1) (ok_inj (rw fresh at done))
              (subst (Written alarms) (insert_alarm-inserted id d alarms made i)
                (inserted-Written id d alarms (take_where-none _ alarms fresh) rows single))
        | inr (a, found) ↦ absurd (err_ne_ok (rw found at done))
      ]

  -- The branch that is taken when the event is new.
  abbrev pub written_by :
      String → Decision P → List (Alarm P) → Result StoreError (String × List (Alarm P))
  written_by id d alarms =
      if is_dispatch d.source then ins_alarm id d alarms else upsert_alarm id d alarms

  written_by-Written :
      (id : String) (d : Decision P) (alarms : List (Alarm P)) {w : String × List (Alarm P)}
      → All RowInv alarms
      → Single alarms
      → written_by id d alarms ≡ ok w
      → Written alarms w.1
  written_by-Written id d alarms rows single e = elim (Bool-cases (is_dispatch d.source)) [
    | inl h ↦ ins_alarm-Written id d alarms rows single (rw h at e)
    | inr h ↦ upsert_alarm-Written id d alarms rows single (rw h at e)
  ]

  -- An accepted ingest found the event, or is new and has written.
  pub ingest-cases :
      (marshals : P → Bool) (id : String) (d : Decision P) (t : AlarmTables P)
      {r : IngestResult × AlarmTables P}
      → ingest marshals id d t ≡ ok r
      → ((row : DedupRow) × (take_where (is_event d.tenant_id d.event_id) t.dedup ≡ some row)
          × (r ≡ (record { dedup_inserted = false; alarm_id = none }, t)))
        ⊎ ((w : String × List (Alarm P)) × (written_by id d t.alarms ≡ ok w)
            × (parses_severity d.severity ≡ true)
            × (with_event id d t w ≡ r))
  unfolding ingest
  ingest-cases marshals id d t {r} e =
      let (_, e₁) = >>-ok (guard (marshals d.attributes) StoreError.poison_store) _ e in
      elim (Option-cases (take_where (is_event d.tenant_id d.event_id) t.dedup)) [
        | inl new ↦
            let (severe, e₂) =
              >>-ok (guard (parses_severity d.severity) StoreError.poison_store) _ (rw new at e₁) in
            let (w, made, done) = >>=-ok (written_by id d t.alarms) _ e₂ in
            inr (
              w,
              made,
              guard-ok (parses_severity d.severity) StoreError.poison_store severe,
              ok_inj done,
            )
        | inr (row, known) ↦ inl (row, known, sym (ok_inj (rw known at e₁)))
      ]

  pub ingest-StoreInv :
      (marshals : P → Bool) (id : String) (d : Decision P) (t : AlarmTables P)
      {r : IngestResult × AlarmTables P}
      → StoreInv t
      → ingest marshals id d t ≡ ok r
      → StoreInv r.1
  ingest-StoreInv marshals id d t {r} inv e = elim (ingest-cases marshals id d t e) [
    | inl (_, _, same) ↦ subst (λ (x : IngestResult × AlarmTables P). StoreInv x.1) (sym same) inv
    | inr (w, made, _, done) ↦
        let written = written_by-Written id d t.alarms inv.rows inv.single made in
        subst (λ (x : IngestResult × AlarmTables P). StoreInv x.1) done
          (record {
            rows = written.rows;
            counted = written.counted ∙ ap suc inv.counted;
            single = written.single;
          })
  ]

  mutate-StoreInv :
      (test : Alarm P → Bool) (f : Alarm P → Alarm P) (on_zero : Alarm P → StoreError)
      (tenant_id id : String) (later t : AlarmTables P) {r : Alarm P × AlarmTables P}
      → ((a : Alarm P) → test a ≡ true → RowInv a → RowInv (f a))
      → ((a : Alarm P) → pos_part (f a).count ≡ pos_part a.count)
      → ((tenant_id fingerprint : String) (a : Alarm P)
          → test a ≡ true
          → is_open_key tenant_id fingerprint (f a) ≡ true
          → is_open_key tenant_id fingerprint a ≡ true)
      → StoreInv t
      → mutate test f on_zero tenant_id id later t ≡ ok r
      → StoreInv r.1
  unfolding mutate
  mutate-StoreInv test f on_zero tenant_id id later t {r} lawful counts opens inv e =
      elim (Option-cases (take_where test t.alarms)) [
        | inl missed ↦
            let (cur, _, refused) =
              >>=-ok (find_by_id tenant_id id later) _ (rw (missed, mutate) at e) in
            absurd (err_ne_ok refused)
        | inr (a, found) ↦
            subst (λ (x : Alarm P × AlarmTables P). StoreInv x.1) (ok_inj (rw (found, mutate) at e))
              (record {
                rows = All-update_where-when RowInv test f lawful t.alarms inv.rows;
                counted = events-update_where test f t.alarms counts ∙ inv.counted;
                single = λ tenant_id fingerprint.
                    let before = inv.single tenant_id fingerprint in
                    let kept =
                      count-update_where-le (is_open_key tenant_id fingerprint) test f t.alarms
                        (opens tenant_id fingerprint) in
                    omega arith;
              })
      ]

  pub mutate-dedup :
      (test : Alarm P → Bool) (f : Alarm P → Alarm P) (on_zero : Alarm P → StoreError)
      (tenant_id id : String) (later t : AlarmTables P) {r : Alarm P × AlarmTables P}
      → mutate test f on_zero tenant_id id later t ≡ ok r
      → r.1.dedup ≡ t.dedup
  unfolding mutate
  mutate-dedup test f on_zero tenant_id id later t {r} e =
      elim (Option-cases (take_where test t.alarms)) [
        | inl missed ↦
            let (cur, _, refused) =
              >>=-ok (find_by_id tenant_id id later) _ (rw (missed, mutate) at e) in
            absurd (err_ne_ok refused)
        | inr (a, found) ↦
            ap (λ (x : Alarm P × AlarmTables P). x.1.dedup) (sym (ok_inj (rw (found, mutate) at e)))
      ]

  pub acknowledge_alarm-StoreInv :
      (tenant_id id : String) (version : ℤ) (actor : String) (at : Time) (later t : AlarmTables P)
      {r : Alarm P × AlarmTables P}
      → is_blank actor ≡ false
      → StoreInv t
      → acknowledge_alarm tenant_id id version actor at later t ≡ ok r
      → StoreInv r.1
  unfolding acknowledge_alarm is_open_key
  acknowledge_alarm-StoreInv tenant_id id version actor at later t named =
      mutate-StoreInv (to_acknowledge tenant_id id version) (acknowledged_row actor at) _ tenant_id
        id later t (λ a h r. acknowledged_row-RowInv actor at a named (ground (arith, h)) r)
        (λ a. refl)
        (λ tenant fingerprint a k h.
          let unclosed = open_unclosed a.status (ground (arith, k)) in ground (arith, h, unclosed))

  pub close_alarm-StoreInv :
      (tenant_id id : String) (version : ℤ) (actor : String) (at : Time) (later t : AlarmTables P)
      {r : Alarm P × AlarmTables P}
      → is_blank actor ≡ false
      → StoreInv t
      → close_alarm tenant_id id version actor at later t ≡ ok r
      → StoreInv r.1
  unfolding close_alarm is_open_key
  close_alarm-StoreInv tenant_id id version actor at later t named =
      mutate-StoreInv (to_close tenant_id id version) (closed_row actor at) _ tenant_id id later t
        (λ a h r. closed_row-RowInv actor at a named (ground (arith, h)) r) (λ a. refl)
        (λ tenant fingerprint a k h. ground (arith, h))
