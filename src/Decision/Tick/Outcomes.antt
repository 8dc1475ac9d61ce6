-- ===== src/Decision/Tick/Outcomes.antt =====
-- What an execution leaves in the outbox.
use vpp_backend.Prelude.{
  ℕ, ◌+◌, ◌≤◌, ◌<◌, String, is_empty_text, Bool, true, false, Bool-cases, inl, inr, count, Result,
  ok, err, Result-cases, arith, if◌then◌else◌,
}
use vpp_backend.Prelude.Bytes.{Bytes, codes}
use vpp_backend.Decision.Tables.{Tables}
use vpp_backend.Decision.Claim.{Claim}
use vpp_backend.Decision.Execute.{
  Ports, DispatchError, uncertain_dispatch, catalog_matches, task_from_claim, soc_scope_query_for,
  record_answer, submit, execute_resolved, execute,
}
use vpp_backend.Decision.Tick.{after}
use vpp_backend.Decision.Tick.Rounds.{is_open, Recorded, Recorded-no_more}

if-cases {ℓ κ} :
    {A : Type ℓ} (P : A → Type κ) (test : Bool) {x y : A} → P x → P y → P (if test then x else y)
if-cases P true p q = p
if-cases P false p q = q

-- What `execute` leaves in the outbox is one of the four marks.
module _ {V : Type 0} (ports : Ports V) (retry_after now : ℕ) (claim : Claim V) (t : Tables V) where
  record_answer-Recorded :
      (answer : Result (DispatchError × Bytes) String)
      → Recorded claim now
          (now + retry_after)
          t
          (record_answer ports retry_after now claim answer t)
  unfolding record_answer
  record_answer-Recorded (err (e, text)) = elim (Bool-cases (uncertain_dispatch e)) [
    | inl h ↦ rw h (Recorded.uncertain text)
    | inr h ↦ rw h (Recorded.failed text)
  ]
  record_answer-Recorded (ok task_id) =
      if-cases (Recorded claim now (now + retry_after) t) (is_empty_text task_id)
        (Recorded.uncertain (codes "dispatch returned an empty task id"))
        (Recorded.submitted task_id)

  submit-Recorded :
      Recorded claim now (now + retry_after) t (submit ports retry_after now claim t).1
  unfolding submit
  submit-Recorded = elim (Result-cases (task_from_claim claim)) [
    | inl (task, e) ↦ rw (e, submit) (record_answer-Recorded (ports.submit_task task))
    | inr (text, e) ↦ rw (e, submit) (Recorded.failed text)
  ]

  execute-Recorded :
      Recorded claim now (now + retry_after) t (execute ports retry_after now claim t).1
  unfolding execute execute_resolved
  execute-Recorded = elim (Result-cases (soc_scope_query_for ports claim)) [
    | inr (text, e) ↦ rw (e, execute) (Recorded.failed text)
    | inl (query, e) ↦ elim (Result-cases (ports.resolve_scope query)) [
      | inr (text, f) ↦ rw (e, f, execute) (Recorded.uncertain text)
      | inl (resolved, f) ↦ elim (Bool-cases (catalog_matches claim resolved)) [
        | inr g ↦
            rw (e, f, g, execute, execute_resolved)
              (Recorded.stale (codes "resource revision or binding changed"))
        | inl g ↦ rw (e, f, g, execute, execute_resolved) submit-Recorded
      ]
    ]
  ]

  -- After an execution no more rows are due than before.
  pub execute-no_more :
      0 < retry_after
      → count (is_open now) (after (execute ports retry_after now claim t).1 t).outbox
        ≤ count (is_open now) t.outbox
  execute-no_more h = elim (Result-cases (execute ports retry_after now claim t).1) [
    | inl (t', e) ↦ rw e (Recorded-no_more (omega arith) execute-Recorded e)
    | inr (x, e) ↦ rw e (omega arith)
  ]
