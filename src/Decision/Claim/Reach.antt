-- ===== src/Decision/Claim/Reach.antt =====
-- The outbox over time: workers claim and mark in any order, and every attempt keeps the key.
use vpp_backend.Prelude.{
  ℕ, ◌+◌, ◌≡◌, sym, subst, String, str_eq, Bool, not, Option-cases, inl, inr, List, [], All, count,
  ◌==◌, ok, >>-ok, >>=-ok, guard, ok_inj, err_ne_ok,
}
use vpp_backend.Decision.Tables.{
  StepRow, PlanRow, ObjectiveRow, ExecutionRow, OutboxRow, Tables, PlanError, take_where,
}
use vpp_backend.Decision.Claim.{
  Claim, step_idempotency_key, claim_key, expire_claimed, load_claim, claim_once, first_due, found,
  unchanged, is_open_execution, expired_execution,
}
use vpp_backend.Decision.Marks.Rows.{Marked}
use vpp_backend.Decision.Claim.Keys.{
  HasStepKey, Keyed, Marked-Keyed, claim_key-step, All-update_where-kept,
}

expire_claimed-HasStepKey :
    (step_id : String) (es : List ExecutionRow)
    → All HasStepKey es
    → All HasStepKey (expire_claimed step_id es)
unfolding expire_claimed
expire_claimed-HasStepKey step_id es h =
    All-update_where-kept HasStepKey (is_open_execution step_id) expired_execution (λ x k. k) es h

module _ {V : Type 0} (id_less : String → String → Bool) where
  -- The claim has the key of its step, and so has every attempt.
  abbrev ClaimKeyed : Claim V × Tables V → Type 0
  ClaimKeyed (c, t) = (c.idempotency_key ≡ step_idempotency_key c.step_id) × Keyed t

  load_claim-ClaimKeyed :
      (t : Tables V) (execution_id : String) (out : OutboxRow) (worker : String) (token : ℕ)
      {r : Claim V × Tables V}
      → Keyed t
      → load_claim id_less t execution_id out worker token ≡ ok r
      → ClaimKeyed r
  unfolding load_claim
  load_claim-ClaimKeyed t execution_id out worker token {r} keyed e =
      let (step, _, e₁) =
        >>=-ok (found (take_where (λ (s : StepRow). str_eq s.id out.step_id) t.steps)) _ e in
      let (plan, _, e₂) =
        >>=-ok (found (take_where (λ (p : PlanRow). str_eq p.id out.plan_id) t.plans)) _ e₁ in
      let (objective, _, e₃) =
        >>=-ok
          (found (take_where (λ (o : ObjectiveRow). str_eq o.id plan.objective_id) t.objectives)) _
          e₂ in
      let (key, chosen, done) =
        >>=-ok (claim_key step.id (expire_claimed step.id t.executions)) _ e₃ in
      let expired = expire_claimed-HasStepKey step.id t.executions keyed in
      let right = claim_key-step step.id _ expired chosen in
      subst ClaimKeyed (ok_inj done) (right, (right, expired))

  claim_once-ClaimKeyed :
      (t : Tables V) (rows : List OutboxRow) (execution_id worker : String) (now lease : ℕ)
      {r : Claim V × Tables V}
      → Keyed t
      → claim_once id_less t rows execution_id worker now lease ≡ ok r
      → ClaimKeyed r
  unfolding claim_once
  claim_once-ClaimKeyed t rows execution_id worker now lease {r} keyed e =
      elim (Option-cases (first_due rows now)) [
        | inl none_due ↦ absurd (err_ne_ok (rw (none_due, claim_once) at e))
        | inr (row, due) ↦
            let e₁ = rw (due, claim_once) at e in
            let loaded =
              (>>-ok (guard (not (count (unchanged row) t.outbox == 0)) PlanError.contended) _
                e₁).1 in
            load_claim-ClaimKeyed _ execution_id row worker (row.lease_token + 1) keyed loaded
      ]

  -- Tables that the workers can reach: claims of any worker, of rows it read at any time, and marks
  -- of any claim, in any order.
  pub data Reach (start : Tables V) : Tables V → Type 0 where
    here : Reach start start
    claimed :
        {t t' : Tables V} (rows : List OutboxRow) (execution_id worker : String) (now lease : ℕ)
        (c : Claim V)
        → Reach start t
        → claim_once id_less t rows execution_id worker now lease ≡ ok (c, t')
        → Reach start t'
    marked :
        {t t' : Tables V} (c : Claim V) (now : ℕ)
        → Reach start t
        → Marked c now t t'
        → Reach start t'

  Reach-Keyed : {start t : Tables V} → Keyed start → Reach start t → Keyed t
  Reach-Keyed keyed Reach.here = keyed
  Reach-Keyed keyed (Reach.claimed rows id worker now lease c before e) =
      (claim_once-ClaimKeyed _ rows id worker now lease (Reach-Keyed keyed before) e).1
  Reach-Keyed keyed (Reach.marked c now before m) = Marked-Keyed m (Reach-Keyed keyed before)

  -- From tables without an attempt, however workers claim, crash, lose their lease and record outcomes,
  -- every claim of a step that is handed out carries the one key that is made of the id of the step.
  pub claim_once-same_key :
      (start t t' : Tables V) (rows : List OutboxRow) (execution_id worker : String) (now lease : ℕ)
      (c : Claim V)
      → start.executions ≡ []
      → Reach start t
      → claim_once id_less t rows execution_id worker now lease ≡ ok (c, t')
      → c.idempotency_key ≡ step_idempotency_key c.step_id
  claim_once-same_key start t t' rows execution_id worker now lease c fresh reach e =
      (claim_once-ClaimKeyed t rows execution_id worker now lease
        (Reach-Keyed (subst (All HasStepKey) (sym fresh) tt) reach) e).0
