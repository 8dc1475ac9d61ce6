-- ===== src/Decision/Marks/Plans.antt =====
-- A mark of a step moves its whole plan out of ready.
use vpp_backend.Prelude.{
  ℕ, ◌≡◌, refl, sym, subst, String, is_empty_text, false, not, none, List, [], All, All-count-zero,
  Result, ok, >>-ok, >>=-ok, guard, guard-ok, ok_inj, arith, ap, ◌∙◌, Option,
}
use vpp_backend.Prelude.Bytes.{Bytes}
use vpp_backend.Prelude.Rows.{All-update_where}
use vpp_backend.Decision.Tables.{
  OutboxStatus, PlanStatus, ExecutionStatus, PlanRow, Tables, PlanError, one_row,
}
use vpp_backend.Decision.Claim.{Claim}
use vpp_backend.Decision.Marks.{
  update_execution, update_plan_status, update_step, release_outbox, check_lease, finish, name_task,
  mark_submitted, is_ready_plan,
}

-- No row of the plan is ready.
abbrev NoneReady : String → List PlanRow → Type 0
NoneReady plan_id = All (λ (p : PlanRow). is_ready_plan plan_id p ≡ false)

submitted_not_ready :
    (plan_id : String) (p : PlanRow)
    → is_ready_plan plan_id (record p { status = PlanStatus.submitted }) ≡ false
submitted_not_ready plan_id p = ground arith

module _ {V : Type 0} where
  abbrev KeepsPlans : (Tables V → Result PlanError (Tables V)) → Type 0
  KeepsPlans step = (t t' : Tables V) → step t ≡ ok t' → t'.plans ≡ t.plans

  update_execution-KeepsPlans :
      (claim : Claim V) (status : ExecutionStatus) (task_id : String) (cause : Bytes)
      → KeepsPlans (update_execution claim status task_id cause)
  unfolding update_execution
  update_execution-KeepsPlans claim status task_id cause t t' e =
      ap (λ (x : Tables V). x.plans) (sym (ok_inj (>>-ok (one_row _ t.executions) _ e).1))

  update_step-KeepsPlans :
      (claim : Claim V) (status : PlanStatus) (task_id : String)
      → KeepsPlans (update_step claim status task_id)
  unfolding update_step
  update_step-KeepsPlans claim status task_id t t' e =
      ap (λ (x : Tables V). x.plans) (sym (ok_inj (>>-ok (one_row _ t.steps) _ e).1))

  release_outbox-KeepsPlans :
      (claim : Claim V) (status : OutboxStatus) (available_at : Option ℕ)
      → KeepsPlans (release_outbox claim status available_at)
  unfolding release_outbox
  release_outbox-KeepsPlans claim status available_at t t' e =
      ap (λ (x : Tables V). x.plans) (sym (ok_inj (>>-ok (one_row _ t.outbox) _ e).1))

  name_task-plans :
      (claim : Claim V) (task_id : String) (t : Tables V)
      → (name_task claim task_id t).plans ≡ t.plans
  unfolding name_task
  name_task-plans claim task_id t = refl

  update_plan_status-NoneReady :
      (plan_id : String) (t t' : Tables V)
      → update_plan_status plan_id PlanStatus.submitted t ≡ ok t'
      → NoneReady plan_id t'.plans
  unfolding update_plan_status
  update_plan_status-NoneReady plan_id t t' e =
      subst (λ (x : Tables V). NoneReady plan_id x.plans)
        (ok_inj (>>-ok (one_row (is_ready_plan plan_id) t.plans) _ e).1)
        (All-update_where (λ (p : PlanRow). is_ready_plan plan_id p ≡ false) (is_ready_plan plan_id)
          _ (λ p _. submitted_not_ready plan_id p) (λ p other. other) t.plans)

  mark_submitted-NoneReady :
      (claim : Claim V) (task_id : String) (now : ℕ) (t t' : Tables V)
      → mark_submitted claim task_id now t ≡ ok t'
      → NoneReady claim.plan_id t'.plans
  unfolding mark_submitted finish
  mark_submitted-NoneReady claim task_id now t t' e =
      let e₁ = (>>-ok (guard (not (is_empty_text task_id)) PlanError.bad_argument) _ e).1 in
      let e₂ = (>>-ok (check_lease claim now t) _ e₁).1 in
      let (t₁, _, e₃) =
        >>=-ok (update_execution claim ExecutionStatus.submitted task_id [] t) _ e₂ in
      let (t₂, b, e₄) = >>=-ok (update_plan_status claim.plan_id PlanStatus.submitted t₁) _ e₃ in
      let (t₃, c, e₅) = >>=-ok (update_step claim PlanStatus.submitted task_id t₂) _ e₄ in
      subst (NoneReady claim.plan_id)
        (sym (
          release_outbox-KeepsPlans claim OutboxStatus.done none (name_task claim task_id t₃) t' e₅
          ∙ name_task-plans claim task_id t₃
          ∙ update_step-KeepsPlans claim _ _ t₂ t₃ c))
        (update_plan_status-NoneReady claim.plan_id t₁ t₂ b)

  NoneReady-refuses :
      (claim : Claim V) (task_id : String) (now : ℕ) (t t' : Tables V)
      → NoneReady claim.plan_id t.plans
      → mark_submitted claim task_id now t ≡ ok t'
      → ⊥
  unfolding mark_submitted finish update_plan_status
  NoneReady-refuses claim task_id now t t' h e =
      let e₁ = (>>-ok (guard (not (is_empty_text task_id)) PlanError.bad_argument) _ e).1 in
      let e₂ = (>>-ok (check_lease claim now t) _ e₁).1 in
      let (t₁, a, e₃) =
        >>=-ok (update_execution claim ExecutionStatus.submitted task_id [] t) _ e₂ in
      let (t₂, b, _) = >>=-ok (update_plan_status claim.plan_id PlanStatus.submitted t₁) _ e₃ in
      let one =
        guard-ok _ PlanError.lease_lost
          (>>-ok (one_row (is_ready_plan claim.plan_id) t₁.plans) _ b).0 in
      let none_left = All-count-zero (is_ready_plan claim.plan_id) t₁.plans (
        subst (NoneReady claim.plan_id) (sym (update_execution-KeepsPlans claim _ _ _ t t₁ a)) h) in
      absurd (ground arith)

  -- After one step of a plan is recorded as submitted, no step of the same plan can be, whatever its
  -- claim, its task and the time.
  pub mark_submitted-once_per_plan :
      (claim claim' : Claim V) (task_id task_id' : String) (now now' : ℕ) (t t' t'' : Tables V)
      → claim.plan_id ≡ claim'.plan_id
      → mark_submitted claim task_id now t ≡ ok t'
      → ¬ (mark_submitted claim' task_id' now' t' ≡ ok t'')
  mark_submitted-once_per_plan claim claim' task_id task_id' now now' t t' t'' same h k =
      NoneReady-refuses claim' task_id' now' t' t''
        (subst (λ p. NoneReady p t'.plans) same (mark_submitted-NoneReady claim task_id now t t' h))
        k
