-- ===== src/Resource/Scope/Classify.antt =====
-- internal/resource/domain/model/scope.go: the verdict on one control unit, and `ResolveSnapshot`.
-- `sort.Slice` keeps the order of equal entries here.
pub mod Eligible
pub mod Resolved
use vpp_backend.Prelude.{
  Bool, not, Option, none, some, List, [], ◌∷◌, ◌++◌, map, is_empty, if◌then◌else◌, Result, ok, err,
  ◌>>=◌, ◌>>◌, guard,
}
use vpp_backend.Prelude.Bytes.{Bytes, codes, bytes_eq, bytes_lt}
use vpp_backend.Prelude.Sort.{sort}
use vpp_backend.Prelude.Lex.{lex}
use vpp_backend.Gateway.Floats.{Floats}
use vpp_backend.Contracts.{AccessMode, allows_read, allows_write}
use vpp_backend.Contracts.Capability.{SpecHost, validate_capability_spec}
use vpp_backend.Contracts.Revision.{
  RevisionCapability, RevisionBinding, RevisionError, resource_revision,
}
use vpp_backend.Resource.Scope.{
  ExclusionReason, MetricAccessNeed, MetricRequirement, PrecheckFailureReason, ResolvedScope,
  ScopeBinding, ScopeCapability, ScopeCu, ScopeError, ScopeExclusion, ScopePrecheckFailure,
  ScopeSnapshot, ScopeType, is_active, lifecycle_name, need_name, reason_name, scope_type_eq,
  scope_type_name,
}

-- The three access modes; any other text is `none`.
unfoldable access_of : Bytes → Option AccessMode
unfolding bytes_eq
access_of t =
    if bytes_eq t (codes "read")
    then some AccessMode.read
    else if bytes_eq t (codes "write")
    then some AccessMode.write
    else if bytes_eq t (codes "read_write")
    then some AccessMode.read_write
    else none

-- `bindingAllows`.
unfoldable pub binding_allows : Bytes → MetricAccessNeed → Bool
unfolding access_of allows_read allows_write
binding_allows mode MetricAccessNeed.read = allows_read (access_of mode)
binding_allows mode MetricAccessNeed.write = allows_write (access_of mode)

-- The maps `byCapability` and `byMetric`: a later entry replaces an earlier one.
unfoldable pub by_capability : Bytes → List ScopeCapability → Option ScopeCapability
unfolding bytes_eq
by_capability id [] = none
by_capability id (c ∷ cs) = elim (by_capability id cs) [
  | some d ↦ some d
  | none ↦ if bytes_eq c.capability_id id then some c else none
]

unfoldable pub by_metric : Bytes → List ScopeBinding → Option ScopeBinding
unfolding bytes_eq
by_metric id [] = none
by_metric id (b ∷ bs) = elim (by_metric id bs) [
  | some d ↦ some d
  | none ↦ if bytes_eq b.metric_id id then some b else none
]

-- `missing` and `disabled` of the loop over the required capabilities.
unfoldable pub missing_capabilities : ScopeCu → List Bytes → List Bytes
unfolding by_capability
missing_capabilities cu [] = []
missing_capabilities cu (id ∷ ids) =
    let rest = missing_capabilities cu ids in
    elim (by_capability id cu.capabilities) [ none ↦ id ∷ rest | some c ↦ rest ]

unfoldable pub disabled_capabilities : ScopeCu → List Bytes → List Bytes
unfolding by_capability
disabled_capabilities cu [] = []
disabled_capabilities cu (id ∷ ids) =
    let rest = disabled_capabilities cu ids in
    elim (by_capability id cu.capabilities) [
      | none ↦ rest
      | some c ↦ if c.enabled then rest else id ∷ rest
    ]

-- `strings.Join(ids, ", ")`.
unfoldable pub join : List Bytes → Bytes
join [] = []
join (x ∷ []) = x
join (x ∷ y ∷ ys) = x ++ (codes ", " ++ join (y ∷ ys))

unfoldable sort_texts : List Bytes → List Bytes
unfolding sort bytes_lt
sort_texts = sort bytes_lt

abbrev pub failure : ScopeCu → PrecheckFailureReason → Bytes → ScopePrecheckFailure
failure cu reason detail = record {
  cu_id = cu.cu_id;
  asset_id = cu.asset_id;
  reason = reason;
  detail = detail;
}

abbrev pub exclusion : ScopeCu → ExclusionReason → Bytes → ScopeExclusion
exclusion cu reason detail = record {
  cu_id = cu.cu_id;
  asset_id = cu.asset_id;
  reason = reason;
  detail = detail;
}

-- The failure of one required metric, if it fails.
unfoldable pub metric_failure : ScopeCu → MetricRequirement → Option ScopePrecheckFailure
unfolding by_metric binding_allows
metric_failure cu q = elim (by_metric q.metric_id cu.bindings) [
  | none ↦ some (
      failure cu PrecheckFailureReason.missing_metric_binding
        (codes "missing " ++ (need_name q.access ++ (codes " binding " ++ q.metric_id))))
  | some b ↦
      if not b.enabled
      then some (
          failure cu PrecheckFailureReason.missing_metric_binding
            (codes "disabled " ++ (need_name q.access ++ (codes " binding " ++ q.metric_id))))
      else if binding_allows b.access_mode q.access
      then none
      else some (
          failure cu PrecheckFailureReason.missing_metric_binding (
            need_name q.access
            ++ (codes " binding "
                ++ (q.metric_id ++ (codes " has access_mode " ++ b.access_mode)))))
]

unfoldable pub metric_failures : ScopeCu → List MetricRequirement → List ScopePrecheckFailure
unfolding metric_failure
metric_failures cu [] = []
metric_failures cu (q ∷ qs) =
    let rest = metric_failures cu qs in
    elim (metric_failure cu q) [ none ↦ rest | some e ↦ e ∷ rest ]

unfoldable capability_revisions : List ScopeCu → List RevisionCapability
capability_revisions [] = []
capability_revisions (cu ∷ cus) =
    map
      (λ (c : ScopeCapability). record {
        cu_id = cu.cu_id;
        capability_id = c.capability_id;
        version = c.version;
      })
      cu.capabilities
    ++ capability_revisions cus

unfoldable binding_revisions : List ScopeCu → List RevisionBinding
binding_revisions [] = []
binding_revisions (cu ∷ cus) =
    map
      (λ (b : ScopeBinding). record {
        cu_id = cu.cu_id;
        metric_id = b.metric_id;
        version = b.revision;
      })
      cu.bindings
    ++ binding_revisions cus

-- The three outcomes of `classifyScopeCU`.
pub data Classified : Type 0 where
  member : ScopeCu → Classified
  excluded : ScopeExclusion → Classified
  failing : ScopePrecheckFailure → List ScopePrecheckFailure → Classified

-- A member's own lists are sorted.
unfoldable pub sort_member : ScopeCu → ScopeCu
unfolding sort bytes_lt
sort_member cu = record cu {
  capabilities =
      sort (λ (a : ScopeCapability) b. bytes_lt a.capability_id b.capability_id) cu.capabilities;
  bindings = sort (λ (a : ScopeBinding) b. bytes_lt a.metric_id b.metric_id) cu.bindings;
}

unfoldable pub failure_less : ScopePrecheckFailure → ScopePrecheckFailure → Bool
failure_less a b =
    lex (lex bytes_lt) (a.cu_id, (reason_name a.reason, a.detail))
      (b.cu_id, (reason_name b.reason, b.detail))

-- The loop of `ResolveSnapshot`.
pub record Partition : Type 0 where
  pub members : List ScopeCu
  pub exclusions : List ScopeExclusion
  pub failures : List ScopePrecheckFailure

abbrev pub add_classified : Classified → Partition → Partition
add_classified (Classified.member cu) p = record p { members = cu ∷ p.members }
add_classified (Classified.excluded e) p = record p { exclusions = e ∷ p.exclusions }
add_classified (Classified.failing e es) p = record p { failures = e ∷ (es ++ p.failures) }

abbrev pub verdict : ScopeCu → List ScopePrecheckFailure → Classified
verdict cu [] = Classified.member (sort_member cu)
verdict cu (e ∷ es) = Classified.failing e es

abbrev pub revised : Result RevisionError Bytes → Result ScopeError Bytes
revised (ok r) = ok r
revised (err e) = err (ScopeError.no_revision e)

-- The revision covers the whole snapshot, whatever the caller requires.
unfoldable pub scope_revision :
    (Bytes → Bytes) → ScopeSnapshot → ScopeType → Result ScopeError Bytes
unfolding resource_revision capability_revisions binding_revisions
scope_revision hash snapshot scope_type = revised (
    resource_revision hash
      (record {
        tenant_id = snapshot.tenant_id;
        scope_type = scope_type_name scope_type;
        scope_id = snapshot.scope_id;
      })
      snapshot.nodes (capability_revisions snapshot.cus) (binding_revisions snapshot.cus))

-- The result that is returned once the revision is known.
unfoldable pub resolved_scope : ScopeSnapshot → ScopeType → Bytes → Partition → ResolvedScope
unfolding sort bytes_lt failure_less
resolved_scope snapshot scope_type revision p = record {
  scope_type = scope_type;
  scope_id = snapshot.scope_id;
  resource_revision = revision;
  precheck_ok = is_empty p.failures;
  members =
      if is_empty p.failures
      then sort (λ (a : ScopeCu) b. bytes_lt a.cu_id b.cu_id) p.members
      else [];
  exclusions = sort (λ (a : ScopeExclusion) b. bytes_lt a.cu_id b.cu_id) p.exclusions;
  precheck_failures = sort failure_less p.failures;
}

module _ {F : Type 0} (f : Floats F) (host : SpecHost F) where
  unfoldable pub spec_failures : ScopeCu → List Bytes → List ScopePrecheckFailure
  unfolding by_capability validate_capability_spec
  spec_failures cu [] = []
  spec_failures cu (id ∷ ids) =
      let rest = spec_failures cu ids in
      elim (by_capability id cu.capabilities) [
        | none ↦ rest
        | some c ↦ elim (validate_capability_spec f host id c.schema_version c.spec) [
          | ok _ ↦ rest
          | err e ↦
              failure cu PrecheckFailureReason.invalid_capability_spec
                (codes "invalid capability spec " ++ (id ++ (codes ": " ++ e)))
              ∷ rest
        ]
      ]

  unfoldable pub classify_scope_cu : ScopeCu → List Bytes → List MetricRequirement → Classified
  unfolding is_active missing_capabilities disabled_capabilities join sort_texts spec_failures
      metric_failures sort_member
  classify_scope_cu cu capabilities metrics =
      let missing = missing_capabilities cu capabilities in
      let disabled = disabled_capabilities cu capabilities in
      if not (is_active cu.lifecycle)
      then Classified.excluded (
          exclusion cu ExclusionReason.not_active
            (codes "lifecycle " ++ lifecycle_name cu.lifecycle))
      else if not (is_empty missing)
      then Classified.excluded (
          exclusion cu ExclusionReason.missing_capability
            (codes "missing capability " ++ join (sort_texts missing)))
      else if not (is_empty disabled)
      then Classified.excluded (
          exclusion cu ExclusionReason.capability_disabled
            (codes "disabled capability " ++ join (sort_texts disabled)))
      else verdict cu (spec_failures cu capabilities ++ metric_failures cu metrics)

  unfoldable pub partition : List Bytes → List MetricRequirement → List ScopeCu → Partition
  unfolding classify_scope_cu
  partition capabilities metrics [] = record { members = []; exclusions = []; failures = [] }
  partition capabilities metrics (cu ∷ cus) =
      add_classified (classify_scope_cu cu capabilities metrics)
        (partition capabilities metrics cus)

  unfoldable pub resolve_snapshot :
      (Bytes → Bytes)
      → ScopeSnapshot
      → ScopeType
      → List Bytes
      → List MetricRequirement
      → Result ScopeError ResolvedScope
  unfolding scope_type_eq scope_revision partition resolved_scope
  resolve_snapshot hash snapshot scope_type capabilities metrics =
      guard (scope_type_eq snapshot.root_type scope_type) ScopeError.wrong_scope_type
      >> (scope_revision hash snapshot scope_type >>= λ revision. ok (
          resolved_scope snapshot scope_type revision
            (partition capabilities metrics snapshot.cus)))
