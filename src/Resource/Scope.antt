-- ===== src/Resource/Scope.antt =====
-- internal/resource/domain/model/scope.go: which control units of a scope are controlled.
-- A Go string is the list of its bytes.
pub mod Classify
mod Tests
use vpp_backend.Prelude.{ℤ, String, Bool, true, false, List}
use vpp_backend.Prelude.Bytes.{Bytes, codes, bytes_eq}
use vpp_backend.Contracts.Revision.{RevisionNode, RevisionError, resource_revision}

pub data ScopeType : Type 0 where
  site asset control_unit : ScopeType

abbrev pub scope_type_name : ScopeType → Bytes
scope_type_name ScopeType.site = codes "site"
scope_type_name ScopeType.asset = codes "asset"
scope_type_name ScopeType.control_unit = codes "cu"

unfoldable pub scope_type_eq : ScopeType → ScopeType → Bool
unfolding bytes_eq
scope_type_eq a b = bytes_eq (scope_type_name a) (scope_type_name b)

pub data NodeLifecycle : Type 0 where
  draft active disabled archived deleted : NodeLifecycle

abbrev pub lifecycle_name : NodeLifecycle → Bytes
lifecycle_name NodeLifecycle.draft = codes "draft"
lifecycle_name NodeLifecycle.active = codes "active"
lifecycle_name NodeLifecycle.disabled = codes "disabled"
lifecycle_name NodeLifecycle.archived = codes "archived"
lifecycle_name NodeLifecycle.deleted = codes "deleted"

unfoldable pub is_active : NodeLifecycle → Bool
is_active NodeLifecycle.active = true
is_active _ = false

pub data MetricAccessNeed : Type 0 where
  read write : MetricAccessNeed

abbrev pub need_name : MetricAccessNeed → Bytes
need_name MetricAccessNeed.read = codes "read"
need_name MetricAccessNeed.write = codes "write"

pub data ExclusionReason : Type 0 where
  not_active missing_capability capability_disabled : ExclusionReason

pub data PrecheckFailureReason : Type 0 where
  invalid_capability_spec missing_metric_binding : PrecheckFailureReason

abbrev pub reason_name : PrecheckFailureReason → Bytes
reason_name PrecheckFailureReason.invalid_capability_spec = codes "invalid_capability_spec"
reason_name PrecheckFailureReason.missing_metric_binding = codes "missing_metric_binding"

pub record MetricRequirement : Type 0 where
  pub metric_id : Bytes
  pub access : MetricAccessNeed

pub record ScopeCapability : Type 0 where
  pub capability_id : Bytes
  pub schema_version : ℤ
  pub spec : String
  pub enabled : Bool
  pub version : ℤ

pub record ScopeBinding : Type 0 where
  pub metric_id : Bytes
  pub access_mode : Bytes
  pub enabled : Bool
  pub revision : ℤ

pub record ScopeCu : Type 0 where
  pub cu_id : Bytes
  pub asset_id : Bytes
  pub lifecycle : NodeLifecycle
  pub node_version : ℤ
  pub capabilities : List ScopeCapability
  pub bindings : List ScopeBinding

pub record ScopeSnapshot : Type 0 where
  pub tenant_id : Bytes
  pub scope_id : Bytes
  pub root_type : ScopeType
  pub nodes : List RevisionNode
  pub cus : List ScopeCu

pub record ScopeExclusion : Type 0 where
  pub cu_id : Bytes
  pub asset_id : Bytes
  pub reason : ExclusionReason
  pub detail : Bytes

pub record ScopePrecheckFailure : Type 0 where
  pub cu_id : Bytes
  pub asset_id : Bytes
  pub reason : PrecheckFailureReason
  pub detail : Bytes

pub record ResolvedScope : Type 0 where
  pub scope_type : ScopeType
  pub scope_id : Bytes
  pub resource_revision : Bytes
  pub precheck_ok : Bool
  pub members : List ScopeCu
  pub exclusions : List ScopeExclusion
  pub precheck_failures : List ScopePrecheckFailure

pub data ScopeError : Type 0 where
  wrong_scope_type : ScopeError
  no_revision : RevisionError → ScopeError
