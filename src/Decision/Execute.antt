-- ===== src/Decision/Execute.antt =====
-- internal/decision/application/command/plan_execution_loop.go: one claimed step, from the live
-- catalog to Dispatch and back into the outbox. The catalog and Dispatch are parameters: what each
-- call answers.
pub mod Authorized
use vpp_backend.Prelude.{
  ℕ, ◌+◌, String, str_eq, trim_space, is_empty_text, is_blank, Bool, true, false, not, ◌||◌, Option,
  none, some, List, [], ◌∷◌, ◌++◌, map, is_empty, ◌==◌, if◌then◌else◌, Result, ok, err, ◌>>◌, guard,
}
use vpp_backend.Prelude.Bytes.{Bytes, codes}
use vpp_backend.Decision.Tables.{Tables, PlanError}
use vpp_backend.Decision.Claim.{Claim, PlannedCommand}
use vpp_backend.Decision.Marks.{mark_submitted, mark_uncertain, mark_stale, mark_failed}

-- `BindingAccess`.
pub data BindingAccess : Type 0 where
  unspecified read write read_write : BindingAccess

pub record ResolvedBinding : Type 0 where
  pub metric_id : String
  pub access_mode : BindingAccess
  pub enabled : Bool
  pub revision : ℕ

pub record ResolvedCu : Type 0 where
  pub cu_id : String
  pub bindings : List ResolvedBinding

pub record Resolution : Type 0 where
  pub resource_revision : String
  pub precheck_ok : Bool
  pub members : List ResolvedCu

pub record ScopeQuery : Type 0 where
  pub tenant_id : String
  pub scope_type : String
  pub scope_id : String

-- The error of a Dispatch call: the context's, a gRPC status code, or neither.
pub data GrpcCode : Type 0 where
  invalid_argument not_found already_exists permission_denied failed_precondition : GrpcCode
  unimplemented unauthenticated other : GrpcCode

pub data DispatchError : Type 0 where
  deadline_exceeded canceled plain : DispatchError
  status : GrpcCode → DispatchError

pub record TaskCommand (V : Type 0) : Type 0 where
  pub cu_code : String
  pub metric_id : String
  pub value : V

pub record Task (V : Type 0) : Type 0 where
  pub tenant_id : String
  pub name : String
  pub idempotency_key : String
  pub commands : List (TaskCommand V)

abbrev allows_write : BindingAccess → Bool
allows_write BindingAccess.write = true
allows_write BindingAccess.read_write = true
allows_write _ = false

-- The map of members: a later one replaces an earlier one.
unfoldable pub member_of : String → List ResolvedCu → Option ResolvedCu
member_of id [] = none
member_of id (m ∷ ms) = elim (member_of id ms) [
  | some x ↦ some x
  | none ↦ if str_eq m.cu_id id then some m else none
]

-- What the calls of the catalog and of Dispatch answer, an error with its text, and `%q`.
pub record Ports (V : Type 0) : Type 0 where
  pub resolve_scope : ScopeQuery → Result Bytes Resolution
  pub submit_task : Task V → Result (DispatchError × Bytes) String
  pub quote : String → Bytes

module _ {V : Type 0} where
  -- The first binding of the command's metric decides.
  unfoldable pub binding_matches_in : PlannedCommand V → List ResolvedBinding → Bool
  binding_matches_in cmd [] = false
  binding_matches_in cmd (b ∷ bs) =
      let rest = binding_matches_in cmd bs in
      if not (str_eq b.metric_id cmd.metric_id)
      then rest
      else if not b.enabled || not (b.revision == cmd.binding_revision)
      then false
      else allows_write b.access_mode

  unfoldable pub command_matches : List ResolvedCu → PlannedCommand V → Bool
  unfolding binding_matches_in member_of
  command_matches members cmd = elim (member_of cmd.cu_code members) [
    | none ↦ false
    | some m ↦ binding_matches_in cmd m.bindings
  ]

  unfoldable pub commands_match : List ResolvedCu → List (PlannedCommand V) → Bool
  unfolding command_matches
  commands_match members [] = true
  commands_match members (cmd ∷ cmds) =
      let rest = commands_match members cmds in
      if not (command_matches members cmd) then false else rest

  unfoldable pub catalog_matches : Claim V → Resolution → Bool
  unfolding commands_match trim_space
  catalog_matches claim resolved =
      if not resolved.precheck_ok
        || not (str_eq (trim_space resolved.resource_revision) claim.resource_revision)
      then false
      else commands_match resolved.members claim.commands

  unfoldable pub task_from_claim : Claim V → Result Bytes (Task V)
  task_from_claim claim =
      guard (not (is_empty_text claim.idempotency_key || is_empty claim.commands)) (
        codes "plan execution: step "
        ++ (codes claim.step_id ++ codes " is missing its key or commands"))
      >> ok (record {
        tenant_id = claim.tenant_id;
        name = claim.idempotency_key;
        idempotency_key = claim.idempotency_key;
        commands =
            map
              (λ (c : PlannedCommand V). record {
                cu_code = c.cu_code;
                metric_id = c.metric_id;
                value = c.value;
              })
              claim.commands;
      })

-- The caller cannot tell whether Dispatch accepted the task.
unfoldable pub uncertain_dispatch : DispatchError → Bool
uncertain_dispatch (DispatchError.status GrpcCode.other) = true
uncertain_dispatch (DispatchError.status _) = false
uncertain_dispatch _ = true

module _ {V : Type 0} (ports : Ports V) where
  -- `SOCScopeQueryFor`, whose capabilities and metrics are fixed, after `TargetScope.Validate`.
  unfoldable pub soc_scope_query_for : Claim V → Result Bytes ScopeQuery
  unfolding is_blank trim_space
  soc_scope_query_for claim =
      guard
        (str_eq claim.scope_type "site"
          || str_eq claim.scope_type "asset"
          || str_eq claim.scope_type "cu")
        (codes "policy: scope type "
          ++ (ports.quote claim.scope_type ++ codes " is not site, asset, or cu"))
      >> guard (not (is_blank claim.scope_id)) (codes "policy: scope id is required")
      >> guard (not (is_blank claim.tenant_id)) (codes "policy: tenant_id is required")
      >> ok (record {
        tenant_id = trim_space claim.tenant_id;
        scope_type = claim.scope_type;
        scope_id = claim.scope_id;
      })

  module _ (retry_after now : ℕ) (claim : Claim V) where
    -- After Dispatch has answered.
    unfoldable pub record_answer :
        Result (DispatchError × Bytes) String → Tables V → Result PlanError (Tables V)
    unfolding mark_submitted mark_uncertain mark_failed uncertain_dispatch
    record_answer (err (e, text)) t =
        if uncertain_dispatch e
        then mark_uncertain claim text now (now + retry_after) t
        else mark_failed claim text now t
    record_answer (ok task_id) t =
        if is_empty_text task_id
        then mark_uncertain claim (codes "dispatch returned an empty task id") now
            (now + retry_after) t
        else mark_submitted claim task_id now t

    -- The tasks that are submitted, and the outbox afterwards.
    abbrev pub Outcome : Type 0
    Outcome = List (Task V) × Result PlanError (Tables V)

    unfoldable pub submit : Tables V → Outcome
    unfolding task_from_claim record_answer mark_failed
    submit t = elim (task_from_claim claim) [
      | err text ↦ ([], mark_failed claim text now t)
      | ok task ↦ (task ∷ [], record_answer (ports.submit_task task) t)
    ]

    unfoldable pub execute_resolved : Resolution → Tables V → Outcome
    unfolding catalog_matches mark_stale submit
    execute_resolved resolved t =
        if not (catalog_matches claim resolved)
        then ([], mark_stale claim (codes "resource revision or binding changed") now t)
        else submit t

    unfoldable pub execute : Tables V → Outcome
    unfolding soc_scope_query_for execute_resolved mark_failed mark_uncertain
    execute t = elim (soc_scope_query_for claim) [
      | err text ↦ ([], mark_failed claim text now t)
      | ok query ↦ elim (ports.resolve_scope query) [
        | err text ↦ ([], mark_uncertain claim text now (now + retry_after) t)
        | ok resolved ↦ execute_resolved resolved t
      ]
    ]
