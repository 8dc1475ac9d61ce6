-- ===== src/Decision/Claim/Keys.antt =====
-- Every attempt of a step carries the key of the step.
use vpp_backend.Prelude.{
  ℕ, ◌≡◌, sym, subst, String, str_eq, str_eq_iff, is_empty_text, Bool, not, ◌&&◌, Bool-cases,
  Option, none, some, inl, inr, List, [], ◌∷◌, All, ltb, ◌==◌, Result, ok, ◌>>=◌, >>-ok, >>=-ok,
  guard, ok_inj, arith, ap, ◌∙◌,
}
use vpp_backend.Prelude.Rows.{take_where_sound, take_where-All}
use vpp_backend.Decision.Tables.{
  OutboxStatus, PlanStatus, ExecutionStatus, one_row, ExecutionRow, Tables, PlanError, update_where,
  take_where,
}
use vpp_backend.Decision.Claim.{Claim, step_idempotency_key, max_attempt, claim_key, found}
use vpp_backend.Prelude.Bytes.{Bytes}
use vpp_backend.Decision.Marks.{
  clip, update_execution, update_plan_status, update_step, release_outbox, is_execution,
  check_lease, finish, name_task, mark_submitted, mark_uncertain, mark_stale, mark_failed,
}
use vpp_backend.Decision.Marks.Rows.{Marked}

-- The execution carries the key of its step.
abbrev pub HasStepKey : ExecutionRow → Type 0
HasStepKey e = e.idempotency_key ≡ step_idempotency_key e.step_id

found-ok {ℓ} : {A : Type ℓ} (o : Option A) {a : A} → found o ≡ ok a → o ≡ some a
found-ok none e = cc
found-ok (some x) e = ap some (ok_inj e)

pub claim_key-step :
    (step_id : String) (es : List ExecutionRow) {key : String}
    → All HasStepKey es
    → claim_key step_id es ≡ ok key
    → key ≡ step_idempotency_key step_id
unfolding claim_key
claim_key-step step_id es h e = elim (Bool-cases (ltb 0 (max_attempt step_id es))) [
  | inr fresh ↦ sym (ok_inj (rw (fresh, claim_key) at e))
  | inl again ↦
      let test = λ (x : ExecutionRow). str_eq x.step_id step_id && x.attempt == 1 in
      let (first, at, chosen) =
        >>=-ok (found (take_where test es)) _ (rw (again, claim_key) at e) in
      let taken = found-ok (take_where test es) at in
      let own = take_where-All HasStepKey test es h taken in
      let same =
        (str_eq_iff first.step_id step_id).0 (ground (arith, take_where_sound test es taken)) in
      elim (Bool-cases (is_empty_text first.idempotency_key)) [
        | inl blank ↦ sym (ok_inj (rw blank at chosen))
        | inr named ↦ sym (ok_inj (rw named at chosen)) ∙ own ∙ ap step_idempotency_key same
      ]
]

pub All-update_where-kept {ℓ κ} :
    {A : Type ℓ} (P : A → Type κ) (test : A → Bool) (f : A → A)
    → ((x : A) → P x → P (f x))
    → (xs : List A) → All P xs
    → All P (update_where test f xs)
unfolding update_where
All-update_where-kept P test f h [] k = tt
All-update_where-kept P test f h (x ∷ xs) k = elim (Bool-cases (test x)) [
  | inl e ↦ (rw e (h x k.0), All-update_where-kept P test f h xs k.1)
  | inr e ↦ (rw e k.0, All-update_where-kept P test f h xs k.1)
]

module _ {V : Type 0} where
  abbrev pub Keyed : Tables V → Type 0
  Keyed t = All HasStepKey t.executions

  abbrev KeepsKeyed : (Tables V → Result PlanError (Tables V)) → Type 0
  KeepsKeyed step = (t t' : Tables V) → step t ≡ ok t' → Keyed t → Keyed t'

  KeepsKeyed-bind :
      (a b : Tables V → Result PlanError (Tables V))
      → KeepsKeyed a
      → KeepsKeyed b
      → KeepsKeyed (λ t. a t >>= b)
  KeepsKeyed-bind a b h k t t' e keyed =
      let (t₁, first, second) = >>=-ok (a t) b e in k t₁ t' second (h t t₁ first keyed)

  -- A step that leaves the executions alone.
  KeepsKeyed-of_same :
      (step : Tables V → Result PlanError (Tables V))
      → ((t t' : Tables V) → step t ≡ ok t' → t'.executions ≡ t.executions)
      → KeepsKeyed step
  KeepsKeyed-of_same step h t t' e keyed = subst (All HasStepKey) (sym (h t t' e)) keyed

  KeepsKeyed-finish :
      (claim : Claim V) (now : ℕ) (apply : Tables V → Result PlanError (Tables V))
      → KeepsKeyed apply
      → KeepsKeyed (finish claim now apply)
  unfolding finish
  KeepsKeyed-finish claim now apply h t t' e = h t t' (>>-ok (check_lease claim now t) _ e).1

  update_execution-KeepsKeyed :
      (claim : Claim V) (status : ExecutionStatus) (task_id : String) (cause : Bytes)
      → KeepsKeyed (update_execution claim status task_id cause)
  unfolding update_execution
  update_execution-KeepsKeyed claim status task_id cause t t' e keyed =
      subst (λ (x : Tables V). Keyed x)
        (ok_inj (>>-ok (one_row (is_execution claim) t.executions) _ e).1)
        (All-update_where-kept HasStepKey (is_execution claim) _ (λ x h. h) t.executions keyed)

  update_plan_status-KeepsKeyed :
      (plan_id : String) (to : PlanStatus) → KeepsKeyed (update_plan_status plan_id to)
  unfolding update_plan_status
  update_plan_status-KeepsKeyed plan_id to =
      KeepsKeyed-of_same _ λ t t' e.
        ap (λ (x : Tables V). x.executions) (sym (ok_inj (>>-ok (one_row _ t.plans) _ e).1))

  update_step-KeepsKeyed :
      (claim : Claim V) (status : PlanStatus) (task_id : String)
      → KeepsKeyed (update_step claim status task_id)
  unfolding update_step
  update_step-KeepsKeyed claim status task_id =
      KeepsKeyed-of_same _ λ t t' e.
        ap (λ (x : Tables V). x.executions) (sym (ok_inj (>>-ok (one_row _ t.steps) _ e).1))

  release_outbox-KeepsKeyed :
      (claim : Claim V) (status : OutboxStatus) (available_at : Option ℕ)
      → KeepsKeyed (release_outbox claim status available_at)
  unfolding release_outbox
  release_outbox-KeepsKeyed claim status available_at = KeepsKeyed-of_same _ λ t t' e.
      ap (λ (x : Tables V). x.executions) (sym (ok_inj (>>-ok (one_row _ t.outbox) _ e).1))

  named_release-KeepsKeyed :
      (claim : Claim V) (task_id : String)
      → KeepsKeyed (λ t. release_outbox claim OutboxStatus.done none (name_task claim task_id t))
  unfolding name_task
  named_release-KeepsKeyed claim task_id t t' e keyed =
      release_outbox-KeepsKeyed claim OutboxStatus.done none (name_task claim task_id t) t' e keyed

  pub Marked-Keyed :
      {claim : Claim V} {now : ℕ} {t t' : Tables V} → Marked claim now t t' → Keyed t → Keyed t'
  unfolding mark_submitted mark_uncertain mark_stale mark_failed
  Marked-Keyed {claim} {now} {t} {t'} (Marked.submitted task_id e) =
      KeepsKeyed-finish claim now _
        (KeepsKeyed-bind (update_execution claim ExecutionStatus.submitted task_id []) _
          (update_execution-KeepsKeyed claim _ _ _)
          (KeepsKeyed-bind (update_plan_status claim.plan_id PlanStatus.submitted) _
            (update_plan_status-KeepsKeyed _ _)
            (KeepsKeyed-bind (update_step claim PlanStatus.submitted task_id) _
              (update_step-KeepsKeyed claim _ _) (named_release-KeepsKeyed claim task_id))))
        t t' (>>-ok (guard (not (is_empty_text task_id)) PlanError.bad_argument) _ e).1
  Marked-Keyed {claim} {now} {t} {t'} (Marked.uncertain cause retry_at e) =
      KeepsKeyed-finish claim now _
        (KeepsKeyed-bind (update_execution claim ExecutionStatus.uncertain "" (clip cause)) _
          (update_execution-KeepsKeyed claim _ _ _)
          (release_outbox-KeepsKeyed claim OutboxStatus.pending (some retry_at)))
        t t' (>>-ok (guard (not (retry_at == 0)) PlanError.bad_argument) _ e).1
  Marked-Keyed {claim} {now} {t} {t'} (Marked.stale cause e) =
      KeepsKeyed-finish claim now _
        (KeepsKeyed-bind (update_execution claim ExecutionStatus.stale "" (clip cause)) _
          (update_execution-KeepsKeyed claim _ _ _)
          (KeepsKeyed-bind (update_plan_status claim.plan_id PlanStatus.stale) _
            (update_plan_status-KeepsKeyed _ _)
            (KeepsKeyed-bind (update_step claim PlanStatus.stale "") _
              (update_step-KeepsKeyed claim _ _)
              (release_outbox-KeepsKeyed claim OutboxStatus.stale none))))
        t t' e
  Marked-Keyed {claim} {now} {t} {t'} (Marked.failed cause e) =
      KeepsKeyed-finish claim now _
        (KeepsKeyed-bind (update_execution claim ExecutionStatus.failed "" (clip cause)) _
          (update_execution-KeepsKeyed claim _ _ _)
          (release_outbox-KeepsKeyed claim OutboxStatus.failed none))
        t t' e
