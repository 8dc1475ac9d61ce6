-- ===== src/Decision/Save/Parts.antt =====
-- A successful save, taken apart.
use vpp_backend.Prelude.{
  ℕ, ◌<◌, ◌≡◌, refl, sym, subst, ap, ◌∙◌, String, str_eq, str_eq_iff, eqb_ℤ, Bool, Bool-cases, true,
  false, not, ◌&&◌, Option, none, some, inl, inr, ◌⊎◌, List, [], ◌++◌, length, count, All, All-zip,
  ◌==◌, Result, ok, err, guard, guard-ok, ok_inj, err_ne_ok, >>-ok, ◌>>◌, >>=-ok, arith,
}
use vpp_backend.Prelude.Rows.{Among, Among-append, All-Among}
use vpp_backend.Gateway.Floats.{Floats}
use vpp_backend.Decision.Tables.{OutboxRow, Tables}
use vpp_backend.Decision.Cooldown.{CooldownError, CooldownRow, CooldownView, write_cooldown}
use vpp_backend.Decision.Cooldown.Tries.{WroteBy, write_cooldown-WroteBy}
use vpp_backend.Decision.Objective.{PlanInvalid, PowerObjective, validate_objective}
use vpp_backend.Decision.Plan.{CommandValue, PlanStep, Plan, is_rejected, validate_plan}
use vpp_backend.Decision.Save.{
  SaveInput, SaveError, or_invalid, or_cooldown, given, step_key, step_row, outbox_row, create_plan,
  queue_steps, take_window, cooldown_key, check_link, check_trigger, validate_save, trigger, save,
}
use vpp_backend.Decision.Save.Created.{
  HasRow, RowFor, HasOutboxRow, is_ready_step, queue_steps-rows,
}
use vpp_backend.Decision.Save.Steps.{HasCommands}
use vpp_backend.Decision.Save.Queued.{
  CreatedPlan, Claimable, create_plan-CreatedPlan, row-Claimable,
}

or_invalid-ok : (r : Result PlanInvalid (Unit {0})) → or_invalid r ≡ ok tt → r ≡ ok tt
or_invalid-ok (ok tt) e = refl
or_invalid-ok (err x) e = absurd (err_ne_ok e)

or_cooldown-ok {ℓ} :
    {A : Type ℓ} (r : Result CooldownError A) {a : A} → or_cooldown r ≡ ok a → r ≡ ok a
or_cooldown-ok (ok a) e = ap ok (ok_inj e)
or_cooldown-ok (err x) e = absurd (err_ne_ok e)

given-ok {ℓ} : {A : Type ℓ} (o : Option A) {a : A} → given o ≡ ok a → o ≡ some a
given-ok none e = absurd (err_ne_ok e)
given-ok (some x) e = ap some (ok_inj e)

check_link-id :
    {F : Type 0} (o : PowerObjective F) (p : Plan F)
    → check_link o p ≡ ok tt
    → o.id ≡ p.objective_id
unfolding check_link
check_link-id o p e =
    let same = str_eq o.id p.objective_id && str_eq o.tenant_id p.tenant_id in
    let policy = str_eq o.policy_id p.policy_id && eqb_ℤ o.policy_version p.policy_version in
    let first =
      (>>-ok (guard same SaveError.identity_differs >> guard policy SaveError.policy_differs) _
        e).0 in
    let both =
      guard-ok same SaveError.identity_differs
        (>>-ok (guard same SaveError.identity_differs) _ first).0 in
    (str_eq_iff o.id p.objective_id).0 (ground (arith, both))

module _ {F : Type 0} (views : ℕ → CooldownView) (input : SaveInput F) where
  -- A rejected plan takes no window and no row of the outbox. Any other takes the window, and has one new
  -- row for each ready step.
  abbrev pub Fate : PowerObjective F → Plan F → List OutboxRow → Option CooldownRow → Type 0
  Fate o p new window =
      ((is_rejected p.status ≡ true) × (new ≡ []) × (window ≡ none))
      ⊎ ((is_rejected p.status ≡ false)
          × (length new ≡ count is_ready_step p.steps)
          × All (HasOutboxRow p new) p.steps
          × ((row : CooldownRow) × (window ≡ some row)
              × (input.now < input.cooldown_until)
              × WroteBy input.now input.cooldown_until o.id p.id true views 3 row))

module _ {F : Type 0} (f : Floats F) (ids : ℕ → String) (views : ℕ → CooldownView)
    (input : SaveInput F) where
  -- What was saved: a valid plan for a valid objective, its new rows of the outbox, which can be claimed,
  -- and the attempts as before.
  pub record SavedParts (t t' : Tables (CommandValue F)) (window : Option CooldownRow)
      : Type 0 where
    pub objective : PowerObjective F
    pub plan : Plan F
    pub given_objective : input.objective ≡ some objective
    pub given_plan : input.plan ≡ some plan
    pub valid_objective : validate_objective f objective ≡ ok tt
    pub valid_plan : validate_plan f plan ≡ ok tt
    pub new : List OutboxRow
    pub outbox : t'.outbox ≡ new ++ t.outbox
    pub executions : t'.executions ≡ t.executions
    pub claimable : All (Claimable objective plan t t') new
    pub fate : Fate views input objective plan new window

  abbrev Accepted : PowerObjective F × Plan F → Type 0
  Accepted (o, p) =
      (input.objective ≡ some o)
      × (input.plan ≡ some p)
      × (validate_objective f o ≡ ok tt)
      × (validate_plan f p ≡ ok tt)
      × (o.id ≡ p.objective_id)

  validate_save-ok :
      (o : PowerObjective F) (p : Plan F) → validate_save f input ≡ ok (o, p) → Accepted (o, p)
  unfolding validate_save
  validate_save-ok o p e =
      let (o', go, e₁) = >>=-ok (given input.objective) _ e in
      let (p', gp, e₂) = >>=-ok (given input.plan) _ e₁ in
      let valid = or_invalid (validate_objective f o') >> or_invalid (validate_plan f p') in
      let timed = valid >> guard (not (input.now == 0)) SaveError.missing_now in
      let (checked, done) = >>-ok (timed >> check_link o' p' >> check_trigger input p') _ e₂ in
      let (linked, _) = >>-ok (timed >> check_link o' p') _ checked in
      let (before, link) = >>-ok timed _ linked in
      let (both, _) = >>-ok valid _ before in
      let (vo, vp) = >>-ok (or_invalid (validate_objective f o')) _ both in
      subst Accepted (ok_inj done) (
        given-ok input.objective go,
        given-ok input.plan gp,
        or_invalid-ok (validate_objective f o') vo,
        or_invalid-ok (validate_plan f p') vp,
        check_link-id o' p' link,
      )

  -- What is known of each step.
  abbrev Step : Plan F → Tables (CommandValue F) → Tables (CommandValue F) → PlanStep F → Type 0
  Step p t saved s =
      Among s p.steps
      × HasRow step_key s.id (step_row p.id s) saved.steps
      × HasCommands t.commands saved.commands s

  each_step :
      (o : PowerObjective F) (p : Plan F) (t saved : Tables (CommandValue F))
      → CreatedPlan o p t saved
      → All (Step p t saved) p.steps
  each_step o p t saved made =
      All-zip (λ s. Among s p.steps)
        (λ s.
          HasRow step_key s.id (step_row p.id s) saved.steps
          × HasCommands t.commands saved.commands s)
        (Step p t saved) (λ s m h. (m, h.0, h.1)) p.steps (All-Among p.steps)
        (All-zip (λ s. HasRow step_key s.id (step_row p.id s) saved.steps)
          (HasCommands t.commands saved.commands)
          (λ s.
            HasRow step_key s.id (step_row p.id s) saved.steps
            × HasCommands t.commands saved.commands s)
          (λ s h k. (h, k)) p.steps made.stored made.commands)

  queued :
      (o : PowerObjective F) (p : Plan F) (t saved t' : Tables (CommandValue F))
      (outbox : List OutboxRow)
      → CreatedPlan o p t saved
      → o.id ≡ p.objective_id
      → t' ≡ record saved { outbox = outbox }
      → queue_steps ids 0 p p.steps saved.outbox ≡ ok outbox
      → (new : List OutboxRow) × (outbox ≡ new ++ saved.outbox)
        × All (Claimable o p t t') new
        × (length new ≡ count is_ready_step p.steps)
        × All (HasOutboxRow p new) p.steps
  queued o p t saved t' outbox made link eq e =
      let (new, rows, all, len, each) =
        queue_steps-rows (Step p t saved) ids 0 p p.steps saved.outbox outbox
          (each_step o p t saved made) e in
      let claim = λ (r : OutboxRow) (h : RowFor (Step p t saved) p r) (m : Among r new).
        subst (Claimable o p t t') (sym h.3) (
          row-Claimable o p t saved t' r.id h.0 made outbox eq link h.1.0 h.2 h.1.1 h.1.2 (
            subst (λ x. Among (outbox_row r.id p h.0) x) (sym rows)
              (Among-append (outbox_row r.id p h.0) new saved.outbox
                (subst (λ x. Among x new) h.3 m)))) in
      (
        new,
        rows,
        All-zip (RowFor (Step p t saved) p) (λ r. Among r new) (Claimable o p t t') claim new all
            (All-Among new),
        len,
        each,
      )

  triggered :
      (o : PowerObjective F) (p : Plan F) (t saved t' : Tables (CommandValue F))
      (window : Option CooldownRow)
      → CreatedPlan o p t saved
      → o.id ≡ p.objective_id
      → is_rejected p.status ≡ false
      → (w : Option CooldownRow)
      → write_cooldown
          (cooldown_key p input.direction)
          input.now
          input.cooldown_until
          o.id
          p.id
          true
          views
        ≡ ok w
      → take_window ids p saved w ≡ ok (t', window)
      → (new : List OutboxRow) × (t'.outbox ≡ new ++ t.outbox)
        × (t'.executions ≡ t.executions)
        × All (Claimable o p t t') new
        × Fate views input o p new window
  unfolding take_window
  triggered o p t saved t' window made link other none wrote e = absurd (err_ne_ok e)
  triggered o p t saved t' window made link other (some row) wrote e =
      let (outbox, rows, done) = >>=-ok (queue_steps ids 0 p p.steps saved.outbox) _ e in
      let eq = ok_inj done in
      let (_, _, after_now, by) =
        write_cooldown-WroteBy input.now input.cooldown_until o.id p.id true views
          (cooldown_key p input.direction) row wrote in
      let (new, split, claimable, len, each) =
        queued o p t saved t' outbox made link
          (ap (λ (x : Tables (CommandValue F) × Option CooldownRow). x.0) (sym eq)) rows in
      (
        new,
        ap (λ (x : Tables (CommandValue F) × Option CooldownRow). x.0.outbox) (sym eq)
            ∙ split
            ∙ ap (λ (x : List OutboxRow). new ++ x) made.outbox,
        ap (λ (x : Tables (CommandValue F) × Option CooldownRow). x.0.executions) (sym eq)
            ∙ made.executions,
        claimable,
        inr (
          other,
          len,
          each,
          (
            row,
            ap (λ (x : Tables (CommandValue F) × Option CooldownRow). x.1) (sym eq),
            after_now refl,
            by,
          ),
        ),
      )

  trigger-Fate :
      (o : PowerObjective F) (p : Plan F) (t saved t' : Tables (CommandValue F))
      (window : Option CooldownRow)
      → CreatedPlan o p t saved
      → o.id ≡ p.objective_id
      → trigger ids views input o p saved ≡ ok (t', window)
      → (new : List OutboxRow) × (t'.outbox ≡ new ++ t.outbox)
        × (t'.executions ≡ t.executions)
        × All (Claimable o p t t') new
        × Fate views input o p new window
  unfolding trigger
  trigger-Fate o p t saved t' window made link e = elim (Bool-cases (is_rejected p.status)) [
    | inl rejected ↦
        let eq = ok_inj (rw (rejected, trigger) at e) in
        (
          [],
          ap (λ (x : Tables (CommandValue F) × Option CooldownRow). x.0.outbox) (sym eq)
              ∙ made.outbox,
          ap (λ (x : Tables (CommandValue F) × Option CooldownRow). x.0.executions) (sym eq)
              ∙ made.executions,
          tt,
          inl (
            rejected,
            refl,
            ap (λ (x : Tables (CommandValue F) × Option CooldownRow). x.1) (sym eq),
          ),
        )
    | inr other ↦
        let (w, wrote, e₁) =
          >>=-ok
            (or_cooldown (
              write_cooldown (cooldown_key p input.direction) input.now input.cooldown_until o.id
                p.id true views))
            _ (rw (other, trigger) at e) in
        triggered o p t saved t' window made link other w (or_cooldown-ok _ wrote) e₁
  ]

  pub save-SavedParts :
      (accepts : Bool) (t t' : Tables (CommandValue F)) (window : Option CooldownRow)
      → save f accepts ids views input t ≡ ok (t', window)
      → SavedParts t t' window
  unfolding save
  save-SavedParts accepts t t' window e =
      let ((o, p), checked, e₁) = >>=-ok (validate_save f input) _ e in
      let (saved, created, e₂) = >>=-ok (create_plan o p t) _ e₁ in
      let e₃ = (>>-ok (guard accepts SaveError.database) _ e₂).1 in
      let (go, gp, vo, vp, link) = validate_save-ok o p checked in
      let (new, outbox, executions, claimable, fate) =
        trigger-Fate o p t saved t' window (create_plan-CreatedPlan o p t saved created) link e₃ in
      record {
        objective = o;
        plan = p;
        given_objective = go;
        given_plan = gp;
        valid_objective = vo;
        valid_plan = vp;
        new = new;
        outbox = outbox;
        executions = executions;
        claimable = claimable;
        fate = fate;
      }
