-- ===== src/Decision/Save/Steps.antt =====
-- The steps and commands that `Save` inserts.
use vpp_backend.Prelude.{
  ◌≡◌, refl, sym, subst, ap, ◌∙◌, String, str_eq, str_eq_iff, Bool-cases, false, inl, inr, List, [],
  ◌∷◌, ◌++◌, map, All, All-zip, ok, ok_inj, >>-ok, >>=-ok,
}
use mathlib.Core.List.Permᴰ
use mathlib.Core.List.{Permᴰ}
use vpp_backend.Prelude.Rows.{select_where}
use vpp_backend.Decision.Tables.{StepRow, CommandRow, Tables}
use vpp_backend.Decision.Plan.{CommandValue, PlannedCommand, PlanStep, validate_command_value}
use vpp_backend.Decision.Save.{
  or_invalid, create, step_key, command_key, step_row, command_row, create_commands, create_steps,
}
use vpp_backend.Decision.Save.Created.{HasRow, create-ok, create-HasRow, create-other, create-keeps}

str_eq_flip : (s t : String) → str_eq s t ≡ false → str_eq t s ≡ false
str_eq_flip s t h = elim (Bool-cases (str_eq t s)) [
  | inr other ↦ other
  | inl same ↦ same ∙ sym ((str_eq_iff s t).1 (sym ((str_eq_iff t s).0 same))) ∙ h
]

module _ {F : Type 0} where
  -- The rows of the commands of one step.
  abbrev pub rows_of :
      String → List (CommandRow (CommandValue F)) → List (CommandRow (CommandValue F))
  rows_of id = select_where (λ (c : CommandRow (CommandValue F)). str_eq c.step_id id)

  create_commands-own :
      (id : String) (cs : List (PlannedCommand F)) (rows rows' : List (CommandRow (CommandValue F)))
      → create_commands id cs rows ≡ ok rows'
      → Permᴰ (rows_of id rows') (map (command_row id) cs ++ rows_of id rows)
  unfolding create_commands select_where
  create_commands-own id [] rows rows' e =
      subst (λ r. Permᴰ (rows_of id r) (rows_of id rows)) (ok_inj e) (Permᴰ.refl (rows_of id rows))
  create_commands-own id (c ∷ cs) rows rows' e =
      let e₁ = (>>-ok (or_invalid (validate_command_value c.value)) _ e).1 in
      let (rows₁, created, e₂) = >>=-ok (create command_key (command_row id c) rows) _ e₁ in
      let made = (create-ok command_key (command_row id c) rows created).1 in
      let rest = create_commands-own id cs rows₁ rows' e₂ in
      let here : rows_of id (command_row id c ∷ rows) ≡ command_row id c ∷ rows_of id rows =
        rw ((str_eq_iff id id).1 refl, select_where) refl in
      let taken = sym (ap (rows_of id) made) ∙ here in
      Permᴰ.trans (subst (λ r. Permᴰ (rows_of id rows') (map (command_row id) cs ++ r)) taken rest)
        (Permᴰ.middle (command_row id c) (map (command_row id) cs) (rows_of id rows))

  create_commands-other :
      (id other : String) (cs : List (PlannedCommand F))
      (rows rows' : List (CommandRow (CommandValue F)))
      → str_eq id other ≡ false
      → create_commands id cs rows ≡ ok rows'
      → rows_of other rows' ≡ rows_of other rows
  unfolding create_commands select_where
  create_commands-other id other [] rows rows' h e = ap (rows_of other) (sym (ok_inj e))
  create_commands-other id other (c ∷ cs) rows rows' h e =
      let e₁ = (>>-ok (or_invalid (validate_command_value c.value)) _ e).1 in
      let (rows₁, created, e₂) = >>=-ok (create command_key (command_row id c) rows) _ e₁ in
      let made = (create-ok command_key (command_row id c) rows created).1 in
      let passed : rows_of other (command_row id c ∷ rows) ≡ rows_of other rows =
        rw (h, select_where) refl in
      create_commands-other id other cs rows₁ rows' h e₂ ∙ sym (ap (rows_of other) made) ∙ passed

  -- The commands of a step are the planned ones, if there were none of it before.
  abbrev pub HasCommands :
      List (CommandRow (CommandValue F)) → List (CommandRow (CommandValue F)) → PlanStep F → Type 0
  HasCommands before after s =
      rows_of s.id before ≡ [] → Permᴰ (rows_of s.id after) (map (command_row s.id) s.commands)

  -- The steps are there with their commands, and nothing else changed.
  pub record CreatedSteps (plan_id : String) (steps : List (PlanStep F))
      (t t' : Tables (CommandValue F)) : Type 0 where
    pub outbox : t'.outbox ≡ t.outbox
    pub plans : t'.plans ≡ t.plans
    pub objectives : t'.objectives ≡ t.objectives
    pub executions : t'.executions ≡ t.executions
    pub kept :
        (id : String) (x : StepRow) → HasRow step_key id x t.steps → HasRow step_key id x t'.steps
    pub apart :
        (id : String) (x : StepRow)
        → HasRow step_key id x t.steps
        → All (λ (s : PlanStep F). str_eq s.id id ≡ false) steps
    pub passed :
        (id : String)
        → All (λ (s : PlanStep F). str_eq s.id id ≡ false) steps
        → rows_of id t'.commands ≡ rows_of id t.commands
    pub stored : All (λ (s : PlanStep F). HasRow step_key s.id (step_row plan_id s) t'.steps) steps
    pub commands : All (HasCommands t.commands t'.commands) steps

  pub create_steps-CreatedSteps :
      (plan_id : String) (steps : List (PlanStep F)) (t t' : Tables (CommandValue F))
      → create_steps plan_id steps t ≡ ok t'
      → CreatedSteps plan_id steps t t'
  unfolding create_steps
  create_steps-CreatedSteps plan_id [] t t' e =
      subst (CreatedSteps plan_id [] t) (ok_inj e) (record {
        outbox = refl;
        plans = refl;
        objectives = refl;
        executions = refl;
        kept = λ id x h. h;
        apart = λ id x h. tt;
        passed = λ id h. refl;
        stored = tt;
        commands = tt;
      })
  create_steps-CreatedSteps plan_id (s ∷ ss) t t' e =
      let row = step_row plan_id s in
      let (steps, created, e₁) = >>=-ok (create step_key row t.steps) _ e in
      let (commands, wrote, e₂) = >>=-ok (create_commands s.id s.commands t.commands) _ e₁ in
      let rest =
        create_steps-CreatedSteps plan_id ss (record t { steps = steps; commands = commands }) t'
          e₂ in
      let here = create-HasRow step_key row t.steps created in
      let others = rest.apart s.id row here in
      record {
        outbox = rest.outbox;
        plans = rest.plans;
        objectives = rest.objectives;
        executions = rest.executions;
        kept = λ id x h. rest.kept id x (create-keeps step_key row t.steps created id x h);
        apart = λ id x h. (
          create-other step_key row t.steps created id x h,
          rest.apart id x (create-keeps step_key row t.steps created id x h),
        );
        passed = λ id h.
            rest.passed id h.1
            ∙ create_commands-other s.id id s.commands t.commands commands h.0 wrote;
        stored = (rest.kept s.id row here, rest.stored);
        commands = (
          λ none_before.
              subst (λ r. Permᴰ r (map (command_row s.id) s.commands))
                (sym (rest.passed s.id others))
                (Permᴰ.trans (create_commands-own s.id s.commands t.commands commands wrote) (
                  subst
                    (λ r.
                      Permᴰ (map (command_row s.id) s.commands ++ r)
                        (map (command_row s.id) s.commands))
                    (sym none_before) (Permᴰ.append-nil (map (command_row s.id) s.commands)))),
          All-zip (λ (x : PlanStep F). str_eq x.id s.id ≡ false) (HasCommands commands t'.commands)
              (HasCommands t.commands t'.commands)
              (λ x other has none_before. has (
                create_commands-other s.id x.id s.commands t.commands commands
                  (str_eq_flip x.id s.id other) wrote
                ∙ none_before))
              ss others rest.commands,
        );
      }
