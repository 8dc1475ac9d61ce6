-- ===== src/Decision/Claim/Fresh.antt =====
-- A step without an attempt, and the worker that finds its row due.
use vpp_backend.Prelude.{
  ℕ, ◌+◌, ◌≡◌, refl, ap, String, str_eq, str_eq_iff, Bool, Bool-cases, true, not, none, some, inl,
  inr, List, [], ◌∷◌, map, count, ◌==◌, ok, arith,
}
use mathlib.Core.List.Permᴰ
use mathlib.Core.List.{Permᴰ}
use vpp_backend.Prelude.Sort.{sort-Permᴰ}
use vpp_backend.Prelude.Rows.{Among, Among-count, update_where, take_where, select_where}
use vpp_backend.Decision.Tables.{
  OutboxRow, PlanRow, StepRow, ObjectiveRow, CommandRow, ExecutionRow, Tables, is_claimable,
}
use vpp_backend.Decision.Claim.{
  Claim, step_idempotency_key, first_due, unchanged, max_attempt, claim_key, expire_claimed,
  claimed_row, planned_command, made_claim, load_claim, claim_once, step_commands, command_less,
}

-- No attempt of the step.
abbrev pub Untried : String → List ExecutionRow → Type 0
Untried step_id es = count (λ (e : ExecutionRow). str_eq e.step_id step_id) es ≡ 0

expire_claimed-Untried :
    (step_id : String) (es : List ExecutionRow)
    → Untried step_id es
    → expire_claimed step_id es ≡ es
unfolding expire_claimed update_where
expire_claimed-Untried step_id [] h = refl
expire_claimed-Untried step_id (e ∷ es) h = elim (Bool-cases (str_eq e.step_id step_id)) [
  | inl own ↦ absurd (ground (arith, own))
  | inr other ↦
      rw (other, update_where)
        (ap (λ (r : List ExecutionRow). e ∷ r)
          (expire_claimed-Untried step_id es (ground (arith, other))))
]

max_attempt-Untried :
    (step_id : String) (es : List ExecutionRow) → Untried step_id es → max_attempt step_id es ≡ 0
unfolding max_attempt
max_attempt-Untried step_id [] h = refl
max_attempt-Untried step_id (e ∷ es) h =
    let rest = max_attempt-Untried step_id es (ground arith) in ground (arith, rest)

claim_key-Untried :
    (step_id : String) (es : List ExecutionRow)
    → Untried step_id es
    → claim_key step_id es ≡ ok (step_idempotency_key step_id)
unfolding claim_key
claim_key-Untried step_id es h = rw (max_attempt-Untried step_id es h, claim_key) refl

module _ {V : Type 0} (id_less : String → String → Bool) (t : Tables V) (r : OutboxRow)
    (step : StepRow) (plan : PlanRow) (objective : ObjectiveRow) where
  -- The claim of a first attempt, made of the rows.
  pub record HandedOut (c : Claim V) : Type 0 where
    pub outbox_id : c.outbox_id ≡ r.id
    pub lease_token : c.lease_token ≡ r.lease_token + 1
    pub attempt : c.attempt ≡ 1
    pub key : c.idempotency_key ≡ step_idempotency_key step.id
    pub tenant_id : c.tenant_id ≡ r.tenant_id
    pub plan_id : c.plan_id ≡ r.plan_id
    pub step_id : c.step_id ≡ step.id
    pub step_version : c.step_version ≡ step.version
    pub policy_id : c.policy_id ≡ (elim plan.policy_id [ none ↦ "" | some p ↦ p ])
    pub scope_type : c.scope_type ≡ objective.scope_type
    pub scope_id : c.scope_id ≡ objective.scope_id
    pub resource_revision : c.resource_revision ≡ plan.resource_revision
    pub commands : Permᴰ c.commands (
        map planned_command
          (select_where (λ (x : CommandRow V). str_eq x.step_id step.id) t.commands))

  unchanged_self : is_claimable r.status ≡ true → unchanged r r ≡ true
  unfolding unchanged
  unchanged_self h = ground (arith, (str_eq_iff r.id r.id).1 refl, h)

  pub claim_once-HandedOut :
      (rows : List OutboxRow) (execution_id worker : String) (now lease : ℕ)
      → first_due rows now ≡ some r
      → Among r t.outbox
      → is_claimable r.status ≡ true
      → take_where (λ (s : StepRow). str_eq s.id r.step_id) t.steps ≡ some step
      → take_where (λ (p : PlanRow). str_eq p.id r.plan_id) t.plans ≡ some plan
      → take_where (λ (o : ObjectiveRow). str_eq o.id plan.objective_id) t.objectives
        ≡ some objective
      → Untried step.id t.executions
      → (c : Claim V) × (t' : Tables V) × (claim_once id_less t rows execution_id worker now lease
          ≡ ok (c, t'))
        × HandedOut c
  unfolding claim_once load_claim step_commands
  claim_once-HandedOut rows execution_id worker now lease due among claimable s p o untried =
      let token = r.lease_token + 1 in
      let there = Among-count (unchanged r) r t.outbox among (unchanged_self claimable) in
      let enough : not (count (unchanged r) t.outbox == 0) ≡ true = ground (arith, there) in
      let t₁ = record t {
        outbox = update_where (unchanged r) (claimed_row worker (now + lease) token) t.outbox;
      } in
      let same = expire_claimed-Untried step.id t.executions untried in
      let made =
        made_claim id_less t₁ execution_id r worker token step plan objective
          (step_idempotency_key step.id) in
      (
        made.0,
        made.1,
        rw (due, claim_once)
            (rw (enough, claim_once)
              (rw s (
                rw p (rw o (rw same (rw (claim_key-Untried step.id t.executions untried) refl)))))),
        record {
          outbox_id = refl;
          lease_token = refl;
          attempt = rw (same, max_attempt-Untried step.id t.executions untried) refl;
          key = refl;
          tenant_id = refl;
          plan_id = refl;
          step_id = refl;
          step_version = refl;
          policy_id = refl;
          scope_type = refl;
          scope_id = refl;
          resource_revision = refl;
          commands = Permᴰ.map planned_command (sort-Permᴰ (command_less id_less) _);
        },
      )
