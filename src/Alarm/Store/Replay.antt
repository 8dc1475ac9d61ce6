-- ===== src/Alarm/Store/Replay.antt =====
-- The two tables over time: events that come in, again too, and requests to acknowledge and to close.
use vpp_backend.Prelude.{
  ◌≡◌, refl, sym, subst, String, str_eq_iff, Bool, true, false, Bool-cases, none, some, inl, inr,
  List, [], ◌∷◌, Result, ok, err, arith,
}
use vpp_backend.Prelude.Rows.{take_where}
use vpp_backend.Alarm.{Time, Decision, Alarm}
use vpp_backend.Alarm.Store.{AlarmTables, IngestResult, DedupRow, is_event, with_event, ingest}
use vpp_backend.Alarm.Store.Invariant.{StoreInv, ingest-cases, ingest-StoreInv}
use vpp_backend.Alarm.Commands.{
  AlarmCommand, handle_acknowledge, handle_close, handle_acknowledge-StoreInv,
  handle_close-StoreInv, handle_acknowledge-dedup, handle_close-dedup,
}

-- The tables after a statement; an error keeps them.
abbrev tables_after {ℓ} :
    {E : Type 0} {P : Type 0} {A : Type ℓ}
    → Result E (A × AlarmTables P)
    → AlarmTables P
    → AlarmTables P
tables_after (ok r) t = r.1
tables_after (err e) t = t

abbrev pub no_alarms : {P : Type 0} → AlarmTables P
no_alarms = record { alarms = []; dedup = [] }

abbrev pub duplicate : IngestResult
duplicate = record { dedup_inserted = false; alarm_id = none }

module _ {P : Type 0} (marshals : P → Bool) where
  -- A request that reads tables of any other time on its way.
  pub data Call : Type 0 where
    ingests : String → Decision P → Call
    acknowledges closes : AlarmCommand → Time → AlarmTables P → AlarmTables P → Call

  unfoldable pub perform : Call → AlarmTables P → AlarmTables P
  unfolding ingest handle_acknowledge handle_close
  perform (Call.ingests id d) t = tables_after (ingest marshals id d t) t
  perform (Call.acknowledges cmd at seen later) t =
      tables_after (handle_acknowledge cmd at seen later t) t
  perform (Call.closes cmd at seen later) t = tables_after (handle_close cmd at seen later t) t

  unfoldable pub run : List Call → AlarmTables P → AlarmTables P
  unfolding perform
  run [] t = t
  run (c ∷ cs) t = run cs (perform c t)

  -- What holds of the tables, and of what each accepted statement makes of them, holds afterwards.
  tables_after-keeps {ℓ} :
      {E : Type 0} {A : Type ℓ} (Q : AlarmTables P → Type 0) (r : Result E (A × AlarmTables P))
      (t : AlarmTables P)
      → ((b : A × AlarmTables P) → r ≡ ok b → Q b.1)
      → Q t
      → Q (tables_after r t)
  tables_after-keeps Q (ok b) t h q = h b refl
  tables_after-keeps Q (err e) t h q = q

  perform-StoreInv : (c : Call) (t : AlarmTables P) → StoreInv t → StoreInv (perform c t)
  unfolding perform
  perform-StoreInv (Call.ingests id d) t inv =
      tables_after-keeps StoreInv (ingest marshals id d t) t
        (λ b e. ingest-StoreInv marshals id d t inv e) inv
  perform-StoreInv (Call.acknowledges cmd at seen later) t inv =
      tables_after-keeps StoreInv (handle_acknowledge cmd at seen later t) t
        (λ b e. handle_acknowledge-StoreInv cmd at seen later t inv e) inv
  perform-StoreInv (Call.closes cmd at seen later) t inv =
      tables_after-keeps StoreInv (handle_close cmd at seen later t) t
        (λ b e. handle_close-StoreInv cmd at seen later t inv e) inv

  run-StoreInv : (cs : List Call) (t : AlarmTables P) → StoreInv t → StoreInv (run cs t)
  unfolding run
  run-StoreInv [] t inv = inv
  run-StoreInv (c ∷ cs) t inv = run-StoreInv cs (perform c t) (perform-StoreInv c t inv)

  -- From empty tables, whatever events come in and whatever is acknowledged and closed: the counts of the
  -- rows add up to the number of events that were taken, a tenant and a fingerprint have at most one row
  -- that is not closed, and in every row the version counts the events and at most two steps of the
  -- status, whose marks are there.
  pub run-Counted : (cs : List Call) → StoreInv (run cs no_alarms)
  run-Counted cs =
      run-StoreInv cs no_alarms (record { rows = tt; counted = refl; single = λ t f. omega arith })

  -- The event has been taken.
  abbrev Known : String → String → AlarmTables P → Type 0
  Known tenant_id event_id t =
      (r : DedupRow) × (take_where (is_event tenant_id event_id) t.dedup ≡ some r)

  with_event-Known :
      (tenant_id event_id id : String) (d : Decision P) (t : AlarmTables P)
      (w : String × List (Alarm P))
      → Known tenant_id event_id t
      → Known tenant_id event_id (with_event id d t w).1
  unfolding take_where
  with_event-Known tenant_id event_id id d t w (r, known) =
      let row : DedupRow = record {
        tenant_id = d.tenant_id;
        event_id = d.event_id;
        alarm_id = id;
      } in
      elim (Bool-cases (is_event tenant_id event_id row)) [
        | inl h ↦ (row, rw h refl)
        | inr h ↦ (r, rw h known)
      ]

  ingest-Known :
      (tenant_id event_id id : String) (d : Decision P) (t : AlarmTables P)
      {r : IngestResult × AlarmTables P}
      → Known tenant_id event_id t
      → ingest marshals id d t ≡ ok r
      → Known tenant_id event_id r.1
  ingest-Known tenant_id event_id id d t known e = elim (ingest-cases marshals id d t e) [
    | inl (_, _, same) ↦
        subst (λ (x : IngestResult × AlarmTables P). Known tenant_id event_id x.1) (sym same) known
    | inr (w, _, _, done) ↦
        subst (λ (x : IngestResult × AlarmTables P). Known tenant_id event_id x.1) done
          (with_event-Known tenant_id event_id id d t w known)
  ]

  perform-Known :
      (tenant_id event_id : String) (c : Call) (t : AlarmTables P)
      → Known tenant_id event_id t
      → Known tenant_id event_id (perform c t)
  unfolding perform
  perform-Known tenant_id event_id (Call.ingests id d) t known =
      tables_after-keeps (Known tenant_id event_id) (ingest marshals id d t) t
        (λ b e. ingest-Known tenant_id event_id id d t known e) known
  perform-Known tenant_id event_id (Call.acknowledges cmd at seen later) t known =
      tables_after-keeps (Known tenant_id event_id) (handle_acknowledge cmd at seen later t) t
        (λ b e.
          subst (λ rows. (r : DedupRow) × (take_where (is_event tenant_id event_id) rows ≡ some r))
            (sym (handle_acknowledge-dedup cmd at seen later t e)) known)
        known
  perform-Known tenant_id event_id (Call.closes cmd at seen later) t known =
      tables_after-keeps (Known tenant_id event_id) (handle_close cmd at seen later t) t
        (λ b e.
          subst (λ rows. (r : DedupRow) × (take_where (is_event tenant_id event_id) rows ≡ some r))
            (sym (handle_close-dedup cmd at seen later t e)) known)
        known

  run-Known :
      (tenant_id event_id : String) (cs : List Call) (t : AlarmTables P)
      → Known tenant_id event_id t
      → Known tenant_id event_id (run cs t)
  unfolding run
  run-Known tenant_id event_id [] t known = known
  run-Known tenant_id event_id (c ∷ cs) t known =
      run-Known tenant_id event_id cs (perform c t) (perform-Known tenant_id event_id c t known)

  -- The event of an accepted ingest is known afterwards.
  ingest-taken :
      (id : String) (d : Decision P) (t : AlarmTables P) {r : IngestResult × AlarmTables P}
      → ingest marshals id d t ≡ ok r
      → Known d.tenant_id d.event_id r.1
  unfolding take_where
  ingest-taken id d t {r} e = elim (ingest-cases marshals id d t e) [
    | inl (row, known, same) ↦
        subst (λ (x : IngestResult × AlarmTables P). Known d.tenant_id d.event_id x.1) (sym same)
          (row, known)
    | inr (w, _, _, done) ↦
        let row : DedupRow = record {
          tenant_id = d.tenant_id;
          event_id = d.event_id;
          alarm_id = id;
        } in
        let own : is_event d.tenant_id d.event_id row ≡ true = ground (
          arith,
          (str_eq_iff d.tenant_id d.tenant_id).1 refl,
          (str_eq_iff d.event_id d.event_id).1 refl,
        ) in
        subst (λ (x : IngestResult × AlarmTables P). Known d.tenant_id d.event_id x.1) done
          (row, rw own refl)
  ]

  -- Once an event was taken, any later ingest of an event with its tenant and id, whatever came between,
  -- reports a duplicate and changes nothing, provided its attributes can be marshalled.
  pub ingest-replayed :
      (id id' : String) (d d' : Decision P) (t : AlarmTables P) (r : IngestResult × AlarmTables P)
      (cs : List Call)
      → ingest marshals id d t ≡ ok r
      → d.tenant_id ≡ d'.tenant_id
      → d.event_id ≡ d'.event_id
      → marshals d'.attributes ≡ true
      → ingest marshals id' d' (run cs r.1) ≡ ok (duplicate, run cs r.1)
  unfolding ingest
  ingest-replayed id id' d d' t r cs e tenant event m =
      let known =
        subst (λ x. Known d'.tenant_id x (run cs r.1)) event
          (subst (λ x. Known x d.event_id (run cs r.1)) tenant
            (run-Known d.tenant_id d.event_id cs r.1 (ingest-taken id d t e))) in
      rw (m, known.1, ingest) refl
