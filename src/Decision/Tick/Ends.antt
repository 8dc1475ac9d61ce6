-- ===== src/Decision/Tick/Ends.antt =====
-- A pass ends, and where it is drained nothing is left to claim.
use vpp_backend.Prelude.{
  ℕ, zero, suc, ◌<◌, ◌≡◌, ◌≢◌, sym, ◌∙◌, String, Bool, Bool-cases, inl, inr, [], count, ltb, err,
  Result-cases, arith, some_ne_none,
}
use vpp_backend.Decision.Tables.{Tables, PlanError}
use vpp_backend.Decision.Claim.{is_due, claimable_rows, found, claim_due}
use vpp_backend.Decision.Claim.Due.{first_due-finds}
use vpp_backend.Decision.Execute.{Ports, execute}
use vpp_backend.Decision.Tick.{TickEnd, Pass, claim_end, after, alone, tick}
use vpp_backend.Decision.Tick.Rounds.{is_open, count-claimable_rows, claim_once-fewer}
use vpp_backend.Decision.Tick.Claims.{claim_due-once, claim_due-none_due}
use vpp_backend.Decision.Tick.Outcomes.{execute-no_more}

module _ {V : Type 0} (id_less : String → String → Bool) (ports : Ports V)
    (new_id : ℕ → String) where
  module _ (worker : String) (lease retry_after now : ℕ) where
    -- The pass came to its end, and a drained one leaves no row that is due.
    abbrev pub Ended : Pass V → Type 0
    Ended p =
        (p.end ≢ TickEnd.out_of_fuel)
        × (p.end ≡ TickEnd.drained → count (is_open now) p.tables.outbox ≡ 0)

    none_due-nothing :
        (i : ℕ) (t : Tables V)
        → claim_due id_less
            (alone id_less ports new_id worker lease retry_after now i t)
            worker
            now
            lease
          ≡ err PlanError.none_due
        → count (is_open now) t.outbox ≡ 0
    none_due-nothing i t e =
        let nothing =
          claim_due-none_due id_less (t, claimable_rows id_less t.outbox, new_id i) worker now lease
            e in
        let rows = count-claimable_rows id_less (is_due now) t.outbox in
        elim (Bool-cases (ltb 0 (count (is_due now) (claimable_rows id_less t.outbox)))) [
          | inl some_due ↦
              let (row, found) = first_due-finds _ now (ground arith) in
              absurd (some_ne_none (sym found ∙ nothing))
          | inr none_left ↦ ground arith
        ]

    stopped-Ended :
        (i : ℕ) (t : Tables V) (x : PlanError)
        → claim_due id_less
            (alone id_less ports new_id worker lease retry_after now i t)
            worker
            now
            lease
          ≡ err x
        → Ended (record { end = claim_end x; tables = t; tasks = [] })
    stopped-Ended i t PlanError.none_due e = (λ h. cc, λ h. none_due-nothing i t e)
    stopped-Ended i t PlanError.lease_lost e = (λ h. cc, λ h. cc)
    stopped-Ended i t PlanError.contended e = (λ h. cc, λ h. cc)
    stopped-Ended i t PlanError.missing_row e = (λ h. cc, λ h. cc)
    stopped-Ended i t PlanError.bad_argument e = (λ h. cc, λ h. cc)

    -- A pass with more fuel than there are rows that are due comes to an end: it is stopped by an error of
    -- a claim, or it is drained, and then no row is due. The lease and the retry delay are positive.
    pub tick-Ended :
        (fuel i : ℕ) (t : Tables V)
        → 0 < lease
        → 0 < retry_after
        → count (is_open now) t.outbox < fuel
        → Ended (tick id_less ports new_id worker lease retry_after now fuel i t)
    unfolding tick
    tick-Ended zero i t h k enough = absurd (omega arith)
    tick-Ended (suc fuel) i t h k enough =
        elim (Result-cases (
          claim_due id_less (alone id_less ports new_id worker lease retry_after now i t) worker now
            lease)) [
              | inl (r, e) ↦
                  let once =
                    claim_due-once id_less (t, claimable_rows id_less t.outbox, new_id i) worker now
                      lease e in
                  let fewer = claim_once-fewer id_less t (new_id i) worker now lease h once in
                  let kept = execute-no_more ports retry_after now r.0 r.1 k in
                  rw (e, tick)
                    (tick-Ended fuel (suc i) (after (execute ports retry_after now r.0 r.1).1 r.1) h
                      k (omega arith))
              | inr (x, e) ↦ rw (e, tick) (stopped-Ended i t x e)
            ]
