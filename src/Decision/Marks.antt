-- ===== src/Decision/Marks.antt =====
-- internal/decision/adapter/outbound/postgres/plan_repository.go: `finish` and the four marks that
-- record the outcome of a claim.
pub mod Rows
pub mod Fencing
pub mod Plans
use vpp_backend.Prelude.{
  ℕ, zero, suc, ◌+◌, String, str_eq, is_empty_text, Bool, not, ◌&&◌, ◌||◌, Option, none, some, [],
  ◌∷◌, ◌==◌, Result, ok, err, ◌>>=◌, ◌>>◌, guard,
}
use vpp_backend.Prelude.Bytes.{Bytes}
use vpp_backend.Decision.Tables.{
  OutboxStatus, PlanStatus, ExecutionStatus, OutboxRow, PlanRow, StepRow, CommandRow, ExecutionRow,
  Tables, PlanError, is_claimed, is_ready, is_claimed_execution, update_where, take_where, one_row,
}
use vpp_backend.Decision.Claim.{Claim, is_leased}

-- `clip`: at most 1024 bytes.
unfoldable clip_to : ℕ → Bytes → Bytes
clip_to zero s = []
clip_to (suc n) [] = []
clip_to (suc n) (c ∷ s) = c ∷ clip_to n s

unfoldable pub clip : Bytes → Bytes
unfolding clip_to
clip s = clip_to 1024 s

abbrev pub is_ready_plan : String → PlanRow → Bool
is_ready_plan plan_id p = str_eq p.id plan_id && is_ready p.status

abbrev pub released_row : OutboxStatus → Option ℕ → OutboxRow → OutboxRow
released_row status available_at r = record r {
  status = status;
  claimed_by = "";
  lease_until = none;
  available_at = elim available_at [ none ↦ r.available_at | some a ↦ a ];
}

module _ {V : Type 0} where
  abbrev pub is_execution : Claim V → ExecutionRow → Bool
  is_execution claim e =
      str_eq e.id claim.execution_id
      && str_eq e.step_id claim.step_id
      && is_claimed_execution e.status

  unfoldable pub update_execution :
      Claim V → ExecutionStatus → String → Bytes → Tables V → Result PlanError (Tables V)
  unfolding update_where
  update_execution claim status task_id cause t =
      one_row (is_execution claim) t.executions
      >> ok (record t {
        executions =
            update_where (is_execution claim)
              (λ (e : ExecutionRow). record e {
                status = status;
                dispatch_task_id = task_id;
                error = cause;
              })
              t.executions;
      })

  -- `updatePlanStatus`, from ready.
  unfoldable pub update_plan_status : String → PlanStatus → Tables V → Result PlanError (Tables V)
  unfolding update_where
  update_plan_status plan_id to t =
      one_row (is_ready_plan plan_id) t.plans
      >> ok (record t {
        plans =
            update_where (is_ready_plan plan_id) (λ (p : PlanRow). record p { status = to })
              t.plans;
      })

  abbrev is_step : Claim V → StepRow → Bool
  is_step claim s = str_eq s.id claim.step_id && s.version == claim.step_version

  unfoldable pub update_step :
      Claim V → PlanStatus → String → Tables V → Result PlanError (Tables V)
  unfolding update_where
  update_step claim status task_id t =
      one_row (is_step claim) t.steps
      >> ok (record t {
        steps =
            update_where (is_step claim)
              (λ (s : StepRow). record s {
                status = status;
                version = claim.step_version + 1;
                dispatch_task_id = task_id;
              })
              t.steps;
      })

  abbrev pub is_own : Claim V → OutboxRow → Bool
  is_own claim r =
      str_eq r.id claim.outbox_id
      && r.lease_token == claim.lease_token
      && str_eq r.claimed_by claim.worker_id

  unfoldable pub release_outbox :
      Claim V → OutboxStatus → Option ℕ → Tables V → Result PlanError (Tables V)
  unfolding update_where
  release_outbox claim status available_at t =
      one_row (is_own claim) t.outbox
      >> ok (record t {
        outbox = update_where (is_own claim) (released_row status available_at) t.outbox;
      })

  -- The claim holds the row's lease at `now`.
  unfoldable pub holds_lease : Claim V → ℕ → OutboxRow → Bool
  unfolding is_leased
  holds_lease claim now row =
      row.lease_token == claim.lease_token
      && str_eq row.claimed_by claim.worker_id
      && is_claimed row.status
      && is_leased row.lease_until now

  -- What `finish` tests before it applies a mark. Time 0 is the zero time.
  unfoldable pub check_lease : Claim V → ℕ → Tables V → Result PlanError (Unit {0})
  unfolding take_where holds_lease
  check_lease claim now t =
      guard
        (not (
          is_empty_text claim.outbox_id
          || is_empty_text claim.worker_id
          || claim.lease_token == 0
          || now == 0))
        PlanError.lease_lost
      >> elim (take_where (λ (r : OutboxRow). str_eq r.id claim.outbox_id) t.outbox) [
        | none ↦ err PlanError.lease_lost
        | some row ↦ guard (holds_lease claim now row) PlanError.lease_lost
      ]

  unfoldable pub finish :
      Claim V
      → ℕ
      → (Tables V → Result PlanError (Tables V))
      → Tables V
      → Result PlanError (Tables V)
  unfolding check_lease
  finish claim now apply t = check_lease claim now t >> apply t

  unfoldable pub name_task : Claim V → String → Tables V → Tables V
  unfolding update_where
  name_task claim task_id t = record t {
    commands =
        update_where (λ (c : CommandRow V). str_eq c.step_id claim.step_id)
          (λ (c : CommandRow V). record c { dispatch_task_id = task_id }) t.commands;
  }

  unfoldable pub mark_submitted : Claim V → String → ℕ → Tables V → Result PlanError (Tables V)
  unfolding finish update_execution update_plan_status update_step name_task release_outbox
  mark_submitted claim task_id now t =
      guard (not (is_empty_text task_id)) PlanError.bad_argument
      >> finish claim now
          (λ t. update_execution claim ExecutionStatus.submitted task_id [] t >>= λ t.
            update_plan_status claim.plan_id PlanStatus.submitted t >>= λ t.
            update_step claim PlanStatus.submitted task_id t >>= λ t.
            release_outbox claim OutboxStatus.done none (name_task claim task_id t))
          t

  unfoldable pub mark_uncertain : Claim V → Bytes → ℕ → ℕ → Tables V → Result PlanError (Tables V)
  unfolding finish update_execution release_outbox clip
  mark_uncertain claim cause now retry_at t =
      guard (not (retry_at == 0)) PlanError.bad_argument
      >> finish claim now
          (λ t. update_execution claim ExecutionStatus.uncertain "" (clip cause) t >>= λ t.
            release_outbox claim OutboxStatus.pending (some retry_at) t)
          t

  unfoldable pub mark_stale : Claim V → Bytes → ℕ → Tables V → Result PlanError (Tables V)
  unfolding finish update_execution update_plan_status update_step release_outbox clip
  mark_stale claim cause now = finish claim now λ t.
      update_execution claim ExecutionStatus.stale "" (clip cause) t >>= λ t.
      update_plan_status claim.plan_id PlanStatus.stale t >>= λ t.
      update_step claim PlanStatus.stale "" t >>= λ t.
      release_outbox claim OutboxStatus.stale none t

  unfoldable pub mark_failed : Claim V → Bytes → ℕ → Tables V → Result PlanError (Tables V)
  unfolding finish update_execution release_outbox clip
  mark_failed claim cause now = finish claim now λ t.
      update_execution claim ExecutionStatus.failed "" (clip cause) t >>= λ t.
      release_outbox claim OutboxStatus.failed none t
