-- ===== src/Alarm/Ingest.antt =====
-- internal/alarm/application/command/ingest_event.go, and adapter/inbound/kafka/classify.go: one event
-- from the broker, evaluated, stored and announced. The id that the handler draws is an argument; what
-- the notifier answers is ignored, as in the code.
pub mod Announced
mod Tests
use vpp_backend.Prelude.{
  String, str_eq, Bool, true, false, ◌&&◌, Option, none, some, List, [], ◌∷◌, if◌then◌else◌, Result,
  ok, err,
}
use vpp_backend.Alarm.{Decision, Alarm, new_open_alarm}
use vpp_backend.Alarm.Store.{AlarmTables, StoreError, IngestResult, ingest}
use vpp_backend.Alarm.Evaluate.{Rules, evaluate}
use vpp_backend.Alarm.Incoming.{IncomingEvent, IncomingError, Attributes, Texts}

pub data Outcome : Type 0 where
  done dedup_hit dropped : Outcome

pub record IngestEventResult : Type 0 where
  pub outcome : Outcome
  pub alarm_id : String
  pub opened : Bool

pub data HandleError : Type 0 where
  incoming : IncomingError → HandleError
  store : StoreError → HandleError

abbrev pub is_dedup_conflict : StoreError → Bool
is_dedup_conflict StoreError.dedup_conflict = true
is_dedup_conflict _ = false

abbrev or_empty : Option String → String
or_empty none = ""
or_empty (some s) = s

-- `OpenedNew`.
unfoldable pub opened_new : String → IngestResult → Bool
opened_new candidate_id r = r.dedup_inserted && str_eq (or_empty r.alarm_id) candidate_id

abbrev pub ended : Outcome → IngestEventResult
ended outcome = record { outcome = outcome; alarm_id = ""; opened = false }

-- What becomes of an event: the result, the tables, and the tickets announced.
pub record Handled (P : Type 0) : Type 0 where
  pub result : IngestEventResult
  pub tables : AlarmTables P
  pub announced : List (Alarm P)

abbrev pub announce : {P : Type 0} → String → Decision P → List (Alarm P)
announce id d = elim (new_open_alarm id d) [ ok a ↦ a ∷ [] | err e ↦ [] ]

module _ {P : Type 0} where
  -- After an answer of the repository.
  unfoldable pub record_ingest : String → Decision P → IngestResult × AlarmTables P → Handled P
  unfolding opened_new new_open_alarm
  record_ingest candidate_id d (r, t) =
      let opened = opened_new candidate_id r in
      if r.dedup_inserted
      then record {
        result = record { outcome = Outcome.done; alarm_id = or_empty r.alarm_id; opened = opened };
        tables = t;
        announced = if opened then announce candidate_id d else [];
      }
      else record { result = ended Outcome.dedup_hit; tables = t; announced = [] }

  unfoldable pub store_decision :
      (P → Bool) → String → Decision P → AlarmTables P → Result HandleError (Handled P)
  unfolding ingest record_ingest
  store_decision marshals candidate_id d t =
      if d.drop
      then ok (record { result = ended Outcome.dropped; tables = t; announced = [] })
      else elim (ingest marshals candidate_id d t) [
        | ok r ↦ ok (record_ingest candidate_id d r)
        | err e ↦
            if is_dedup_conflict e
            then ok (record { result = ended Outcome.dedup_hit; tables = t; announced = [] })
            else err (HandleError.store e)
      ]

-- `Handle`.
unfoldable pub handle_ingest :
    {F : Type 0}
    → Texts F
    → Rules
    → (Option (Attributes F) → Bool)
    → String
    → IncomingEvent F
    → AlarmTables (Option (Attributes F))
    → Result HandleError (Handled (Option (Attributes F)))
unfolding evaluate store_decision
handle_ingest x rules marshals candidate_id e t = elim (evaluate x rules e) [
  | err bad ↦ err (HandleError.incoming bad)
  | ok d ↦ store_decision marshals candidate_id d t
]

-- Whether the consumer commits the offset after this outcome (`Classify`).
unfoldable commits : {A : Type 0} → Result HandleError A → Bool
commits (ok a) = true
commits (err (HandleError.store StoreError.transient)) = false
commits (err e) = true
