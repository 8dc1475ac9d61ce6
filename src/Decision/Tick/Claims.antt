-- ===== src/Decision/Tick/Claims.antt =====
-- What a claim of a worker that is alone says about the rows.
use vpp_backend.Prelude.{
  ℕ, zero, suc, ◌+◌, ◌≡◌, refl, sym, ◌∙◌, String, str_eq, is_empty_text, Bool, not, ◌&&◌, ◌||◌,
  Bool-cases, Option, Option-cases, none, some, inl, inr, ◌⊎◌, List, count, ltb, ◌==◌, Result, ok,
  err, Result-cases, >>-ok, guard, err_ne_ok, >>=-never,
}
use vpp_backend.Decision.Tables.{
  OutboxRow, ExecutionRow, StepRow, PlanRow, ObjectiveRow, Tables, PlanError, take_where,
}
use vpp_backend.Decision.Claim.{
  Claim, View, first_due, unchanged, max_attempt, claim_key, expire_claimed, found, load_claim,
  claim_once, claim_tries, claim_due,
}

found-not_none_due {ℓ} : {A : Type ℓ} (o : Option A) → found o ≡ err PlanError.none_due → ⊥
found-not_none_due none h = cc
found-not_none_due (some a) h = cc

claim_key-not_none_due :
    (step_id : String) (es : List ExecutionRow) → claim_key step_id es ≡ err PlanError.none_due → ⊥
unfolding claim_key
claim_key-not_none_due step_id es h = elim (Bool-cases (ltb 0 (max_attempt step_id es))) [
  | inr e ↦ cc
  | inl e ↦
      let test = λ (x : ExecutionRow). str_eq x.step_id step_id && x.attempt == 1 in
      >>=-never (found (take_where test es)) _ (found-not_none_due _) (λ a g. cc)
        (rw (e, claim_key) at h)
]

contended_ne_none_due {ℓ} :
    {A : Type ℓ}
    → ◌≡◌ {A = Result PlanError A} (err PlanError.contended) (err PlanError.none_due)
    → ⊥
contended_ne_none_due h = cc

module _ {V : Type 0} (id_less : String → String → Bool) where
  load_claim-not_none_due :
      (t : Tables V) (execution_id : String) (out : OutboxRow) (worker : String) (token : ℕ)
      → load_claim id_less t execution_id out worker token ≡ err PlanError.none_due
      → ⊥
  unfolding load_claim
  load_claim-not_none_due t execution_id out worker token h =
      >>=-never (found (take_where (λ (s : StepRow). str_eq s.id out.step_id) t.steps)) _
        (found-not_none_due _)
        (λ step h₁.
          >>=-never (found (take_where (λ (p : PlanRow). str_eq p.id out.plan_id) t.plans)) _
            (found-not_none_due _)
            (λ plan h₂.
              >>=-never
                (found
                  (take_where (λ (o : ObjectiveRow). str_eq o.id plan.objective_id) t.objectives))
                _ (found-not_none_due _)
                (λ objective h₃.
                  >>=-never (claim_key step.id (expire_claimed step.id t.executions)) _
                    (claim_key-not_none_due step.id _) (λ key g. cc) h₃)
                h₂)
            h₁)
        h

  -- `none_due` means that no row was due.
  claim_once-none_due :
      (t : Tables V) (rows : List OutboxRow) (execution_id worker : String) (now lease : ℕ)
      → claim_once id_less t rows execution_id worker now lease ≡ err PlanError.none_due
      → first_due rows now ≡ none
  unfolding claim_once
  claim_once-none_due t rows execution_id worker now lease e =
      elim (Option-cases (first_due rows now)) [
        | inl nothing ↦ nothing
        | inr (row, due) ↦ elim (Bool-cases (count (unchanged row) t.outbox == 0)) [
          | inl gone ↦ cc
          | inr there ↦ absurd (
              load_claim-not_none_due _ execution_id row worker (row.lease_token + 1)
                (rw (due, there, claim_once) at e))
        ]
      ]

  -- A worker that sees the same thing in every try gets what one try gives, or is told of contention.
  claim_tries-once :
      (n k : ℕ) (view : View V) (worker : String) (now lease : ℕ)
      → (claim_tries id_less n k (λ _. view) worker now lease
          ≡ claim_once id_less view.0 view.1 view.2 worker now lease)
        ⊎ (claim_tries id_less n k (λ _. view) worker now lease ≡ err PlanError.contended)
  unfolding claim_tries
  claim_tries-once zero k view worker now lease = inr refl
  claim_tries-once (suc n) k (t, rows, id) worker now lease =
      elim (Result-cases (claim_once id_less t rows id worker now lease)) [
        | inl (r, e) ↦ inl (rw (e, claim_tries) refl)
        | inr (x, e) ↦ tried x e (claim_tries-once n (k + 1) (t, rows, id) worker now lease)
      ]
    where
      tried :
          (x : PlanError)
          → claim_once id_less t rows id worker now lease ≡ err x
          → (claim_tries id_less n (k + 1) (λ _. (t, rows, id)) worker now lease
              ≡ claim_once id_less t rows id worker now lease)
            ⊎ (claim_tries id_less n (k + 1) (λ _. (t, rows, id)) worker now lease
                ≡ err PlanError.contended)
          → (claim_tries id_less (suc n) k (λ _. (t, rows, id)) worker now lease
              ≡ claim_once id_less t rows id worker now lease)
            ⊎ (claim_tries id_less (suc n) k (λ _. (t, rows, id)) worker now lease
                ≡ err PlanError.contended)
      tried PlanError.contended e again =
          inr (rw (e, claim_tries) (elim again [ inl h ↦ h ∙ e | inr h ↦ h ]))
      tried PlanError.none_due e again = inl (rw (e, claim_tries) refl)
      tried PlanError.lease_lost e again = inl (rw (e, claim_tries) refl)
      tried PlanError.missing_row e again = inl (rw (e, claim_tries) refl)
      tried PlanError.bad_argument e again = inl (rw (e, claim_tries) refl)

  -- The arguments of a claim are good, so it gives what one try gives, or is told of contention.
  pub claim_due-once :
      (view : View V) (worker : String) (now lease : ℕ) {r : Claim V × Tables V}
      → claim_due id_less (λ _. view) worker now lease ≡ ok r
      → claim_once id_less view.0 view.1 view.2 worker now lease ≡ ok r
  unfolding claim_due
  claim_due-once view worker now lease e =
      let tried =
        (>>-ok (guard (not (is_empty_text worker || lease == 0 || now == 0)) PlanError.bad_argument)
          _ e).1 in
      elim (claim_tries-once 5 0 view worker now lease) [
        | inl h ↦ sym h ∙ tried
        | inr h ↦ absurd (err_ne_ok (sym h ∙ tried))
      ]

  pub claim_due-none_due :
      (view : View V) (worker : String) (now lease : ℕ)
      → claim_due id_less (λ _. view) worker now lease ≡ err PlanError.none_due
      → first_due view.1 now ≡ none
  unfolding claim_due
  claim_due-none_due (t, rows, id) worker now lease e =
      elim (Bool-cases (not (is_empty_text worker || lease == 0 || now == 0))) [
        | inr bad ↦ cc
        | inl good ↦
            let tried : claim_tries id_less 5 0 (λ _. (t, rows, id)) worker now lease
                ≡ err PlanError.none_due =
              rw (good, claim_due) at e in
            elim (claim_tries-once 5 0 (t, rows, id) worker now lease) [
              | inl h ↦ claim_once-none_due t rows id worker now lease (sym h ∙ tried)
              | inr h ↦ absurd (contended_ne_none_due (sym h ∙ tried))
            ]
      ]
