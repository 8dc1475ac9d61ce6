-- ===== src/Decision/Save/Saved.antt =====
-- What a plan leaves behind that was saved, and what its workers get.
use vpp_backend.Prelude.{
  ℕ, ◌≡◌, subst, String, Bool, Option, some, inl, inr, List, [], ◌∷◌, ◌++◌, All, All-map, ok,
}
use vpp_backend.Prelude.Rows.{Among, Among-All}
use vpp_backend.Gateway.Floats.{Floats}
use vpp_backend.Decision.Tables.{OutboxRow, Tables}
use vpp_backend.Decision.Claim.{Claim, first_due, claim_once}
use vpp_backend.Decision.Claim.Fresh.{Untried}
use vpp_backend.Decision.Cooldown.{CooldownRow, CooldownView}
use vpp_backend.Decision.Objective.{PowerObjective, validate_objective}
use vpp_backend.Decision.Plan.{CommandValue, PlanStep, Plan, validate_plan}
use vpp_backend.Decision.Save.{SaveInput, save, outbox_row}
use vpp_backend.Decision.Save.Created.{RowFor}
use vpp_backend.Decision.Save.Steps.{rows_of}
use vpp_backend.Decision.Save.Queued.{HandsOut, Claimable}
use vpp_backend.Decision.Save.Parts.{Fate, save-SavedParts}

-- An entry of two lists that is not in the second.
Among-first :
    {A : Type 0} (x : A) (xs ys : List A) → Among x (xs ++ ys) → (Among x ys → ⊥) → Among x xs
Among-first x [] ys m other = absurd (other m)
Among-first x (y ∷ xs) ys (inl e) other = inl e
Among-first x (y ∷ xs) ys (inr m) other = inr (Among-first x xs ys m other)

module _ {F : Type 0} where
  -- No attempt and no row of a command names the step.
  abbrev pub Unreferenced : Tables (CommandValue F) → PlanStep F → Type 0
  Unreferenced t s = Untried s.id t.executions × (rows_of s.id t.commands ≡ [])

module _ {F : Type 0} (f : Floats F) (views : ℕ → CooldownView) (input : SaveInput F) where
  -- What was saved: a valid plan for a valid objective with its new rows of the outbox.
  pub record Saved (t t' : Tables (CommandValue F)) (window : Option CooldownRow) : Type 0 where
    pub objective : PowerObjective F
    pub plan : Plan F
    pub given_objective : input.objective ≡ some objective
    pub given_plan : input.plan ≡ some plan
    pub valid_objective : validate_objective f objective ≡ ok tt
    pub valid_plan : validate_plan f plan ≡ ok tt
    pub new : List OutboxRow
    pub outbox : t'.outbox ≡ new ++ t.outbox
    pub executions : t'.executions ≡ t.executions
    pub rows : All (RowFor (λ (s : PlanStep F). Among s plan.steps) plan) new
    pub fate : Fate views input objective plan new window

module _ {F : Type 0} (input : SaveInput F) where
  -- The claim of a row: what was planned for its step, by the parts that were given.
  pub record Handed (t' : Tables (CommandValue F)) (id_less : String → String → Bool)
      (rows : List OutboxRow) (execution_id worker : String) (now lease : ℕ) (r : OutboxRow)
      : Type 0 where
    pub objective : PowerObjective F
    pub plan : Plan F
    pub given_objective : input.objective ≡ some objective
    pub given_plan : input.plan ≡ some plan
    pub step : PlanStep F
    pub planned : Among step plan.steps
    pub row : r ≡ outbox_row r.id plan step
    pub claim : Claim (CommandValue F)
    pub after : Tables (CommandValue F)
    pub claimed : claim_once id_less t' rows execution_id worker now lease ≡ ok (claim, after)
    pub hands_out : HandsOut objective plan step claim

module _ {F : Type 0} (f : Floats F) (ids : ℕ → String) (views : ℕ → CooldownView)
    (input : SaveInput F) where
  module _ (accepts : Bool) (t t' : Tables (CommandValue F)) (window : Option CooldownRow)
      (done : save f accepts ids views input t ≡ ok (t', window)) where
    -- A save that succeeds had a valid plan for a valid objective. It keeps the attempts, and adds rows to
    -- the outbox, pending and each for a ready step of the plan. A rejected plan adds no row and takes no
    -- window. For any other each ready step has a new row, there are as many new rows as ready steps, and
    -- the window of the cooldown was written, which ends after now, in one of three tries.
    pub save-Saved : Saved f views input t t' window
    save-Saved =
        let parts = save-SavedParts f ids views input accepts t t' window done in
        record {
          objective = parts.objective;
          plan = parts.plan;
          given_objective = parts.given_objective;
          given_plan = parts.given_plan;
          valid_objective = parts.valid_objective;
          valid_plan = parts.valid_plan;
          new = parts.new;
          outbox = parts.outbox;
          executions = parts.executions;
          rows =
              All-map (Claimable parts.objective parts.plan t t')
                (RowFor (λ (s : PlanStep F). Among s parts.plan.steps) parts.plan)
                (λ r h. (h.0, h.1, h.2, h.3)) parts.new parts.claimable;
          fate = parts.fate;
        }

    -- After a save that succeeds, a worker that finds a new row of the outbox due gets the claim of it: the
    -- first attempt of a step of the plan, with the key made of the step's id, the plan's revision and
    -- policy, the objective's scope and the step's commands in some order. Before the save no attempt and
    -- no row of a command may have named a step of the plan.
    pub save-Handed :
        (id_less : String → String → Bool) (rows : List OutboxRow) (execution_id worker : String)
        (now lease : ℕ) (r : OutboxRow)
        → ((p : Plan F) → input.plan ≡ some p → All (Unreferenced t) p.steps)
        → Among r t'.outbox
        → (Among r t.outbox → ⊥)
        → first_due rows now ≡ some r
        → Handed input t' id_less rows execution_id worker now lease r
    save-Handed id_less rows execution_id worker now lease r unreferenced there other due =
        let parts = save-SavedParts f ids views input accepts t t' window done in
        let new = Among-first r parts.new t.outbox (subst (Among r) parts.outbox there) other in
        let (s, planned, _, row, claim) =
          Among-All (Claimable parts.objective parts.plan t t') r parts.new parts.claimable new in
        let (untried, bare) =
          Among-All (Unreferenced t) s parts.plan.steps (unreferenced parts.plan parts.given_plan)
            planned in
        let (c, after, claimed, out) =
          claim id_less rows execution_id worker now lease due untried bare in
        record {
          objective = parts.objective;
          plan = parts.plan;
          given_objective = parts.given_objective;
          given_plan = parts.given_plan;
          step = s;
          planned = planned;
          row = row;
          claim = c;
          after = after;
          claimed = claimed;
          hands_out = out;
        }
