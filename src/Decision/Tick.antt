-- ===== src/Decision/Tick.antt =====
-- internal/decision/application/command/plan_execution_loop.go: `Tick`, the pass of a worker over
-- everything that is due. The pass works alone here; its fuel bounds the rounds, and one more than
-- the rows that are due is enough (Tick/Ends). A time of zero is refused by `claim_due`, as by the test
-- at the head of `Tick`. The cancellation of the context is left out.
pub mod Rounds
pub mod Claims
pub mod Outcomes
pub mod Ends
use vpp_backend.Prelude.{ℕ, zero, suc, ◌+◌, String, Bool, List, [], ◌++◌, Result, ok, err}
use vpp_backend.Decision.Tables.{Tables, PlanError}
use vpp_backend.Decision.Claim.{View, claimable_rows, claim_due}
use vpp_backend.Decision.Execute.{Task, Ports, execute}

-- How a pass ends: nothing is due, or the claim failed.
pub data TickEnd : Type 0 where
  drained out_of_fuel : TickEnd
  stopped : PlanError → TickEnd

pub record Pass (V : Type 0) : Type 0 where
  pub end : TickEnd
  pub tables : Tables V
  pub tasks : List (Task V)

abbrev pub claim_end : PlanError → TickEnd
claim_end PlanError.none_due = TickEnd.drained
claim_end e = TickEnd.stopped e

-- An outcome that cannot be recorded is logged, and the tables stay as they were.
abbrev pub after {ℓ} : {A : Type ℓ} → Result PlanError A → A → A
after (ok t) before = t
after (err e) before = before

abbrev add_tasks : {V : Type 0} → List (Task V) → Pass V → Pass V
add_tasks tasks p = record p { tasks = tasks ++ p.tasks }

module _ {V : Type 0} (id_less : String → String → Bool) (ports : Ports V)
    (new_id : ℕ → String) where
  module _ (worker : String) (lease retry_after now : ℕ) where
    -- What every try of a claim sees: the tables as they are, and a new id.
    abbrev pub alone : ℕ → Tables V → ℕ → View V
    alone i t try = (t, claimable_rows id_less t.outbox, new_id i)

    unfoldable pub tick : ℕ → ℕ → Tables V → Pass V
    unfolding claim_due claimable_rows execute
    tick zero i t = record { end = TickEnd.out_of_fuel; tables = t; tasks = [] }
    tick (suc fuel) i t = elim (claim_due id_less (alone i t) worker now lease) [
      | err e ↦ record { end = claim_end e; tables = t; tasks = [] }
      | ok r ↦
          let (tasks, recorded) = execute ports retry_after now r.0 r.1 in
          add_tasks tasks (tick fuel (suc i) (after recorded r.1))
    ]
