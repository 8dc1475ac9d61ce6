-- ===== src/Alarm/Store.antt =====
-- internal/alarm/adapter/outbound/postgres: alarm_repository.go, sql.go and errors.go. A statement is a
-- function of the two tables that keeps them on an error. The UPDATE of `backfill` runs on the snapshot
-- from before the statement, so it does not see the row that `ins_dedup` adds, and changes nothing. Ids
-- are not checked to be UUIDs, counts and versions do not overflow, and a failing connection is not
-- modelled.
pub mod Counts
pub mod Invariant
pub mod Replay
use vpp_backend.Prelude.{
  ℤ, pos, ◌+ℤ◌, ltb_ℤ, eqb_ℤ, String, str_eq, Bool, true, false, not, ◌&&◌, Option, none, some,
  List, ◌∷◌, if◌then◌else◌, Result, ok, err, guard, ◌>>◌, ◌>>=◌,
}
use vpp_backend.Prelude.Rows.{update_where, take_where}
use vpp_backend.Alarm.{
  Time, Status, status_open, status_acknowledged, status_closed, status_other, Source, Decision,
  Alarm, parses_severity, opened,
}

pub record DedupRow : Type 0 where
  pub tenant_id : String
  pub event_id : String
  pub alarm_id : String

pub record AlarmTables (P : Type 0) : Type 0 where
  pub alarms : List (Alarm P)
  pub dedup : List DedupRow

pub data StoreError : Type 0 where
  not_found conflict already_closed already_acknowledged invalid_transition : StoreError
  fingerprint_collision unique_violation poison_store dedup_conflict transient : StoreError

-- `dedup_inserted` as a Boolean.
pub record IngestResult : Type 0 where
  pub dedup_inserted : Bool
  pub alarm_id : Option String

abbrev pub is_closed : Status → Bool
is_closed status_closed = true
is_closed _ = false

abbrev pub is_open : Status → Bool
is_open status_open = true
is_open _ = false

abbrev pub is_unclosed : Status → Bool
is_unclosed status_open = true
is_unclosed status_acknowledged = true
is_unclosed _ = false

abbrev pub is_dispatch : Source → Bool
is_dispatch Source.dispatch = true
is_dispatch _ = false

abbrev pub is_event : String → String → DedupRow → Bool
is_event tenant_id event_id r = str_eq r.tenant_id tenant_id && str_eq r.event_id event_id

module _ {P : Type 0} where
  -- The key of `alarms_open_fingerprint_uidx`.
  unfoldable pub is_open_key : String → String → Alarm P → Bool
  is_open_key tenant_id fingerprint a =
      str_eq a.tenant_id tenant_id && str_eq a.fingerprint fingerprint && not (is_closed a.status)

  -- The row that the statement inserts; the source is a literal in it.
  unfoldable pub inserted : String → Decision P → Alarm P
  unfolding opened
  inserted id d = record (opened id d) {
    source = if is_dispatch d.source then Source.dispatch else Source.soe;
  }

  -- `DO UPDATE SET`.
  unfoldable pub merged : Decision P → Alarm P → Alarm P
  merged d a =
      let later = not (ltb_ℤ d.occurred_at a.last_occurred_at) in
      record a {
        count = a.count +ℤ pos 1;
        last_event_id = d.event_id;
        title = d.title;
        summary = d.summary;
        attributes = if later then d.attributes else a.attributes;
        last_occurred_at = if later then d.occurred_at else a.last_occurred_at;
        version = a.version +ℤ pos 1;
      }

  -- The primary key and the insert.
  unfoldable pub insert_alarm :
      String → Decision P → List (Alarm P) → Result StoreError (List (Alarm P))
  unfolding inserted
  insert_alarm id d alarms = elim (take_where (λ (a : Alarm P). str_eq a.id id) alarms) [
    | some a ↦ err StoreError.unique_violation
    | none ↦ ok (inserted id d ∷ alarms)
  ]

  -- `upsert_alarm`, with the id of the row that it wrote.
  unfoldable pub upsert_alarm :
      String → Decision P → List (Alarm P) → Result StoreError (String × List (Alarm P))
  unfolding is_open_key merged insert_alarm take_where update_where
  upsert_alarm id d alarms = elim (take_where (is_open_key d.tenant_id d.fingerprint) alarms) [
    | some a ↦ ok (a.id, update_where (is_open_key d.tenant_id d.fingerprint) (merged d) alarms)
    | none ↦ insert_alarm id d alarms >>= λ rows. ok (id, rows)
  ]

  -- `ins_alarm` of a dispatch event: the unique index is not an arbiter here.
  unfoldable pub ins_alarm :
      String → Decision P → List (Alarm P) → Result StoreError (String × List (Alarm P))
  unfolding is_open_key insert_alarm take_where
  ins_alarm id d alarms = insert_alarm id d alarms >>= λ rows.
      elim (take_where (is_open_key d.tenant_id d.fingerprint) alarms) [
        | some a ↦ err StoreError.fingerprint_collision
        | none ↦ ok (id, rows)
      ]

  abbrev pub with_event :
      String → Decision P → AlarmTables P → String × List (Alarm P) → IngestResult × AlarmTables P
  with_event candidate_id d t (id, rows) = (
    record { dedup_inserted = true; alarm_id = some id },
    record {
      alarms = rows;
      dedup =
          record { tenant_id = d.tenant_id; event_id = d.event_id; alarm_id = candidate_id }
          ∷ t.dedup;
    },
  )

  -- `Ingest`. `marshals` says whether the attributes have a JSON text; the check on the severity comes
  -- before the keys.
  unfoldable pub ingest :
      (P → Bool)
      → String
      → Decision P
      → AlarmTables P
      → Result StoreError (IngestResult × AlarmTables P)
  unfolding upsert_alarm ins_alarm parses_severity take_where
  ingest marshals candidate_id d t =
      guard (marshals d.attributes) StoreError.poison_store
      >> elim (take_where (is_event d.tenant_id d.event_id) t.dedup) [
        | some r ↦ ok (record { dedup_inserted = false; alarm_id = none }, t)
        | none ↦
            guard (parses_severity d.severity) StoreError.poison_store
            >> ((if is_dispatch d.source
                  then ins_alarm candidate_id d t.alarms
                  else upsert_alarm candidate_id d t.alarms)
                >>= λ written. ok (with_event candidate_id d t written))
      ]

  abbrev pub is_version : String → String → ℤ → Alarm P → Bool
  is_version tenant_id id version a =
      str_eq a.id id && str_eq a.tenant_id tenant_id && eqb_ℤ a.version version

  unfoldable pub find_by_id : String → String → AlarmTables P → Result StoreError (Alarm P)
  unfolding take_where
  find_by_id tenant_id id t =
      elim (take_where (λ (a : Alarm P). str_eq a.tenant_id tenant_id && str_eq a.id id) t.alarms) [
        | some a ↦ ok a
        | none ↦ err StoreError.not_found
      ]

  -- What `onZero` makes of the row that is read when no row was updated.
  abbrev refused_acknowledge : ℤ → Status → Alarm P → StoreError
  refused_acknowledge version status_acknowledged cur = StoreError.already_acknowledged
  refused_acknowledge version status_closed cur = StoreError.already_closed
  refused_acknowledge version status_open cur =
      if eqb_ℤ cur.version version then StoreError.invalid_transition else StoreError.conflict
  refused_acknowledge version (status_other s) cur =
      if eqb_ℤ cur.version version then StoreError.invalid_transition else StoreError.conflict

  abbrev refused_close : ℤ → Status → Alarm P → StoreError
  refused_close version status_closed cur = StoreError.already_closed
  refused_close version _ cur =
      if eqb_ℤ cur.version version then StoreError.invalid_transition else StoreError.conflict

  -- `mutate`: the update, and the row as it is afterwards; `later` is what the second read sees.
  unfoldable pub mutate :
      (Alarm P → Bool)
      → (Alarm P → Alarm P)
      → (Alarm P → StoreError)
      → String
      → String
      → AlarmTables P
      → AlarmTables P
      → Result StoreError (Alarm P × AlarmTables P)
  unfolding find_by_id take_where update_where
  mutate test f on_zero tenant_id id later t = elim (take_where test t.alarms) [
    | some a ↦ ok (f a, record t { alarms = update_where test f t.alarms })
    | none ↦ find_by_id tenant_id id later >>= λ cur. err (on_zero cur)
  ]

  abbrev pub acknowledged_row : String → Time → Alarm P → Alarm P
  acknowledged_row actor at a = record a {
    status = status_acknowledged;
    acknowledged_by = actor;
    acknowledged_at = some at;
    version = a.version +ℤ pos 1;
  }

  abbrev pub closed_row : String → Time → Alarm P → Alarm P
  closed_row actor at a = record a {
    status = status_closed;
    closed_by = actor;
    closed_at = some at;
    version = a.version +ℤ pos 1;
  }

  abbrev pub to_acknowledge : String → String → ℤ → Alarm P → Bool
  to_acknowledge tenant_id id version a = is_version tenant_id id version a && is_open a.status

  abbrev pub to_close : String → String → ℤ → Alarm P → Bool
  to_close tenant_id id version a = is_version tenant_id id version a && is_unclosed a.status

  unfoldable pub acknowledge_alarm :
      String
      → String
      → ℤ
      → String
      → Time
      → AlarmTables P
      → AlarmTables P
      → Result StoreError (Alarm P × AlarmTables P)
  unfolding mutate
  acknowledge_alarm tenant_id id version actor at =
      mutate (to_acknowledge tenant_id id version) (acknowledged_row actor at)
        (λ (cur : Alarm P). refused_acknowledge version cur.status cur) tenant_id id

  unfoldable pub close_alarm :
      String
      → String
      → ℤ
      → String
      → Time
      → AlarmTables P
      → AlarmTables P
      → Result StoreError (Alarm P × AlarmTables P)
  unfolding mutate
  close_alarm tenant_id id version actor at =
      mutate (to_close tenant_id id version) (closed_row actor at)
        (λ (cur : Alarm P). refused_close version cur.status cur) tenant_id id
