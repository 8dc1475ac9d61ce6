-- ===== src/Decision/Marks/Rows.antt =====
-- What an update of rows leaves behind, and what a mark that returns has done.
use vpp_backend.Prelude.{
  ℕ, ◌≡◌, refl, sym, String, is_empty_text, false, not, Option, none, some, [], ◌==◌, Result, ok,
  >>-ok, >>=-ok, guard, ok_inj, ap, ◌∙◌,
}
use vpp_backend.Prelude.Bytes.{Bytes}
use vpp_backend.Decision.Tables.{
  is_claimed, OutboxStatus, PlanStatus, ExecutionStatus, Tables, PlanError, one_row,
}
use vpp_backend.Decision.Claim.{Claim}
use vpp_backend.Decision.Marks.{
  clip, update_execution, update_plan_status, update_step, release_outbox, check_lease, finish,
  name_task, mark_submitted, mark_uncertain, mark_stale, mark_failed,
}

module _ {V : Type 0} where
  -- A transaction that keeps the outbox.
  abbrev KeepsOutbox : (Tables V → Result PlanError (Tables V)) → Type 0
  KeepsOutbox step = (t t' : Tables V) → step t ≡ ok t' → t'.outbox ≡ t.outbox

  update_execution-KeepsOutbox :
      (claim : Claim V) (status : ExecutionStatus) (task_id : String) (cause : Bytes)
      → KeepsOutbox (update_execution claim status task_id cause)
  unfolding update_execution
  update_execution-KeepsOutbox claim status task_id cause t t' e =
      ap (λ (x : Tables V). x.outbox) (sym (ok_inj (>>-ok (one_row _ t.executions) _ e).1))

  update_plan_status-KeepsOutbox :
      (plan_id : String) (to : PlanStatus) → KeepsOutbox (update_plan_status plan_id to)
  unfolding update_plan_status
  update_plan_status-KeepsOutbox plan_id to t t' e =
      ap (λ (x : Tables V). x.outbox) (sym (ok_inj (>>-ok (one_row _ t.plans) _ e).1))

  update_step-KeepsOutbox :
      (claim : Claim V) (status : PlanStatus) (task_id : String)
      → KeepsOutbox (update_step claim status task_id)
  unfolding update_step
  update_step-KeepsOutbox claim status task_id t t' e =
      ap (λ (x : Tables V). x.outbox) (sym (ok_inj (>>-ok (one_row _ t.steps) _ e).1))

  name_task-outbox :
      (claim : Claim V) (task_id : String) (t : Tables V)
      → (name_task claim task_id t).outbox ≡ t.outbox
  unfolding name_task
  name_task-outbox claim task_id t = refl

  -- A mark of the claim at `now`, one of the four, that took the tables from `t` to `t'`.
  pub data Marked (claim : Claim V) (now : ℕ) (t : Tables V) : Tables V → Type 0 where
    submitted :
        {t' : Tables V} (task_id : String)
        → mark_submitted claim task_id now t ≡ ok t'
        → Marked claim now t t'
    uncertain :
        {t' : Tables V} (cause : Bytes) (retry_at : ℕ)
        → mark_uncertain claim cause now retry_at t ≡ ok t'
        → Marked claim now t t'
    stale :
        {t' : Tables V} (cause : Bytes)
        → mark_stale claim cause now t ≡ ok t'
        → Marked claim now t t'
    failed :
        {t' : Tables V} (cause : Bytes)
        → mark_failed claim cause now t ≡ ok t'
        → Marked claim now t t'

  -- The lease was held, and the row was released in tables whose outbox was that of `t`.
  pub record Released (claim : Claim V) (now : ℕ) (t t' : Tables V) (status : OutboxStatus)
      (available_at : Option ℕ) : Type 0 where
    pub held : check_lease claim now t ≡ ok tt
    pub before : Tables V
    pub same : before.outbox ≡ t.outbox
    pub done : release_outbox claim status available_at before ≡ ok t'

  pub submitted-Released :
      (claim : Claim V) (task_id : String) (now : ℕ) (t t' : Tables V)
      → mark_submitted claim task_id now t ≡ ok t'
      → Released claim now t t' OutboxStatus.done none
  unfolding mark_submitted finish
  submitted-Released claim task_id now t t' e =
      let e₁ = (>>-ok (guard (not (is_empty_text task_id)) PlanError.bad_argument) _ e).1 in
      let (held, e₂) = >>-ok (check_lease claim now t) _ e₁ in
      let (t₁, a, e₃) =
        >>=-ok (update_execution claim ExecutionStatus.submitted task_id [] t) _ e₂ in
      let (t₂, b, e₄) = >>=-ok (update_plan_status claim.plan_id PlanStatus.submitted t₁) _ e₃ in
      let (t₃, c, e₅) = >>=-ok (update_step claim PlanStatus.submitted task_id t₂) _ e₄ in
      record {
        held = held;
        before = name_task claim task_id t₃;
        same =
            name_task-outbox claim task_id t₃
            ∙ update_step-KeepsOutbox claim _ _ t₂ t₃ c
            ∙ update_plan_status-KeepsOutbox _ _ t₁ t₂ b
            ∙ update_execution-KeepsOutbox claim _ _ _ t t₁ a;
        done = e₅;
      }

  pub uncertain-Released :
      (claim : Claim V) (cause : Bytes) (now retry_at : ℕ) (t t' : Tables V)
      → mark_uncertain claim cause now retry_at t ≡ ok t'
      → Released claim now t t' OutboxStatus.pending (some retry_at)
  unfolding mark_uncertain finish
  uncertain-Released claim cause now retry_at t t' e =
      let e₁ = (>>-ok (guard (not (retry_at == 0)) PlanError.bad_argument) _ e).1 in
      let (held, e₂) = >>-ok (check_lease claim now t) _ e₁ in
      let (t₁, a, e₃) =
        >>=-ok (update_execution claim ExecutionStatus.uncertain "" (clip cause) t) _ e₂ in
      record {
        held = held;
        before = t₁;
        same = update_execution-KeepsOutbox claim _ _ _ t t₁ a;
        done = e₃;
      }

  pub stale-Released :
      (claim : Claim V) (cause : Bytes) (now : ℕ) (t t' : Tables V)
      → mark_stale claim cause now t ≡ ok t'
      → Released claim now t t' OutboxStatus.stale none
  unfolding mark_stale finish
  stale-Released claim cause now t t' e =
      let (held, e₂) = >>-ok (check_lease claim now t) _ e in
      let (t₁, a, e₃) =
        >>=-ok (update_execution claim ExecutionStatus.stale "" (clip cause) t) _ e₂ in
      let (t₂, b, e₄) = >>=-ok (update_plan_status claim.plan_id PlanStatus.stale t₁) _ e₃ in
      let (t₃, c, e₅) = >>=-ok (update_step claim PlanStatus.stale "" t₂) _ e₄ in
      record {
        held = held;
        before = t₃;
        same =
            update_step-KeepsOutbox claim _ _ t₂ t₃ c
            ∙ update_plan_status-KeepsOutbox _ _ t₁ t₂ b
            ∙ update_execution-KeepsOutbox claim _ _ _ t t₁ a;
        done = e₅;
      }

  pub failed-Released :
      (claim : Claim V) (cause : Bytes) (now : ℕ) (t t' : Tables V)
      → mark_failed claim cause now t ≡ ok t'
      → Released claim now t t' OutboxStatus.failed none
  unfolding mark_failed finish
  failed-Released claim cause now t t' e =
      let (held, e₂) = >>-ok (check_lease claim now t) _ e in
      let (t₁, a, e₃) =
        >>=-ok (update_execution claim ExecutionStatus.failed "" (clip cause) t) _ e₂ in
      record {
        held = held;
        before = t₁;
        same = update_execution-KeepsOutbox claim _ _ _ t t₁ a;
        done = e₃;
      }

  pub Marked-Released :
      {claim : Claim V} {now : ℕ} {t t' : Tables V}
      → Marked claim now t t'
      → (status : OutboxStatus) × (available_at : Option ℕ) × (is_claimed status ≡ false)
        × Released claim now t t' status available_at
  Marked-Released (Marked.submitted task_id e) =
      (OutboxStatus.done, none, refl, submitted-Released _ task_id _ _ _ e)
  Marked-Released (Marked.uncertain cause retry_at e) =
      (OutboxStatus.pending, some retry_at, refl, uncertain-Released _ cause _ retry_at _ _ e)
  Marked-Released (Marked.stale cause e) =
      (OutboxStatus.stale, none, refl, stale-Released _ cause _ _ _ e)
  Marked-Released (Marked.failed cause e) =
      (OutboxStatus.failed, none, refl, failed-Released _ cause _ _ _ e)
