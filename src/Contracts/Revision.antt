-- ===== src/Contracts/Revision.antt =====
-- api/contracts/revision.go: the canonical bytes of a scope snapshot and their hash.
-- A Go string is the list of its bytes. SHA-256 and its hex print are a parameter.
mod Order
mod Fields
mod Injective
mod Tests
use vpp_backend.Prelude.{
  ℕ, ℤ, pos, Bool, not, ◌||◌, List, [], ◌∷◌, ◌++◌, length, leb_ℤ, is_empty, Result, ok, ◌>>=◌, ◌>>◌,
  guard, ltb_ℤ,
}
use vpp_backend.Prelude.Bytes.{Bytes, codes, bytes_eq}
use vpp_backend.Prelude.Sort.{sort}
use vpp_backend.Prelude.Lex.{lex}
use vpp_backend.Prelude.Decimal.{itoa, format_int}

pub record RevisionScope : Type 0 where
  pub tenant_id : Bytes
  pub scope_type : Bytes
  pub scope_id : Bytes

pub record RevisionNode : Type 0 where
  pub entity_type : Bytes
  pub entity_id : Bytes
  pub version : ℤ

pub record RevisionCapability : Type 0 where
  pub cu_id : Bytes
  pub capability_id : Bytes
  pub version : ℤ

pub record RevisionBinding : Type 0 where
  pub cu_id : Bytes
  pub metric_id : Bytes
  pub version : ℤ

pub data RevisionError : Type 0 where
  scope_identity_required invalid_scope_type invalid_entity_type : RevisionError
  node_identity_invalid capability_identity_invalid binding_identity_invalid : RevisionError

abbrev revision_format_version : Bytes
revision_format_version = codes "1"

abbrev revision_entity_site : Bytes
revision_entity_site = codes "site"

abbrev revision_entity_asset : Bytes
revision_entity_asset = codes "asset"

abbrev revision_entity_cu : Bytes
revision_entity_cu = codes "cu"

-- One of the three entity names.
unfoldable is_entity : Bytes → Bool
unfolding bytes_eq
is_entity t =
    bytes_eq t revision_entity_site
    || bytes_eq t revision_entity_asset
    || bytes_eq t revision_entity_cu

-- The fields that the three `less` functions compare, in their order.
abbrev pub Key : Type 0
Key = Bytes × (Bytes × ℤ)

unfoldable pub key_less : Key → Key → Bool
key_less = lex (lex ltb_ℤ)

abbrev pub node_key : RevisionNode → Key
node_key n = (n.entity_type, (n.entity_id, n.version))

abbrev pub capability_key : RevisionCapability → Key
capability_key c = (c.cu_id, (c.capability_id, c.version))

abbrev pub binding_key : RevisionBinding → Key
binding_key b = (b.cu_id, (b.metric_id, b.version))

unfoldable pub sort_nodes : List RevisionNode → List RevisionNode
unfolding key_less sort
sort_nodes = sort λ a b. key_less (node_key a) (node_key b)

unfoldable pub sort_capabilities : List RevisionCapability → List RevisionCapability
unfolding key_less sort
sort_capabilities = sort λ a b. key_less (capability_key a) (capability_key b)

unfoldable pub sort_bindings : List RevisionBinding → List RevisionBinding
unfolding key_less sort
sort_bindings = sort λ a b. key_less (binding_key a) (binding_key b)

-- 58 is the colon, 10 the newline.
unfoldable pub append_len_prefixed : Bytes → Bytes → Bytes
unfolding itoa
append_len_prefixed dst value = ((dst ++ itoa (length value)) ++ 58 ∷ value) ++ 10 ∷ []

unfoldable pub validate_revision_node : RevisionNode → Result RevisionError (Unit {0})
unfolding is_entity
validate_revision_node node =
    guard (is_entity node.entity_type) RevisionError.invalid_entity_type
    >> guard (not (is_empty node.entity_id || leb_ℤ node.version (pos 0)))
        RevisionError.node_identity_invalid

-- The two identities and the version that the loops over capabilities and bindings test.
unfoldable pub is_identified : Key → Bool
is_identified (a, (b, v)) = not (is_empty a || is_empty b || leb_ℤ v (pos 0))

unfoldable pub append_key : Bytes → Key → Bytes
unfolding append_len_prefixed format_int
append_key buf (a, (b, v)) =
    append_len_prefixed (append_len_prefixed (append_len_prefixed buf a) b) (format_int v)

-- A loop over entries: each is validated, then appended.
module _ {A : Type 0} (valid : A → Result RevisionError (Unit {0})) (key : A → Key) where
  unfoldable pub append_all : Bytes → List A → Result RevisionError Bytes
  unfolding append_key
  append_all buf [] = ok buf
  append_all buf (x ∷ xs) = valid x >> append_all (append_key buf (key x)) xs

abbrev append_nodes : Bytes → List RevisionNode → Result RevisionError Bytes
append_nodes = append_all validate_revision_node node_key

abbrev append_capabilities : Bytes → List RevisionCapability → Result RevisionError Bytes
append_capabilities =
    append_all
      (λ c. guard (is_identified (capability_key c)) RevisionError.capability_identity_invalid)
      capability_key

abbrev append_bindings : Bytes → List RevisionBinding → Result RevisionError Bytes
append_bindings =
    append_all (λ b. guard (is_identified (binding_key b)) RevisionError.binding_identity_invalid)
      binding_key

-- The title of a list and its length.
unfoldable pub append_header : Bytes → Bytes → ℕ → Bytes
unfolding append_len_prefixed itoa
append_header buf title count = append_len_prefixed (append_len_prefixed buf title) (itoa count)

unfoldable pub append_scope : RevisionScope → Bytes
unfolding append_len_prefixed
append_scope scope =
    append_len_prefixed
      (append_len_prefixed
        (append_len_prefixed
          (append_len_prefixed (append_len_prefixed [] revision_format_version) (codes "scope"))
          scope.tenant_id)
        scope.scope_type)
      scope.scope_id

unfoldable pub encode_nodes : List RevisionNode → Bytes → Result RevisionError Bytes
unfolding append_all append_header validate_revision_node
encode_nodes ns buf = append_nodes (append_header buf (codes "nodes") (length ns)) ns

unfoldable pub encode_capabilities : List RevisionCapability → Bytes → Result RevisionError Bytes
unfolding append_all append_header is_identified
encode_capabilities cs buf =
    append_capabilities (append_header buf (codes "capabilities") (length cs)) cs

unfoldable pub encode_bindings : List RevisionBinding → Bytes → Result RevisionError Bytes
unfolding append_all append_header is_identified
encode_bindings bs buf = append_bindings (append_header buf (codes "bindings") (length bs)) bs

unfoldable pub validate_revision_scope : RevisionScope → Result RevisionError (Unit {0})
unfolding is_entity
validate_revision_scope scope =
    guard (not (is_empty scope.tenant_id || is_empty scope.scope_type || is_empty scope.scope_id))
      RevisionError.scope_identity_required
    >> guard (is_entity scope.scope_type) RevisionError.invalid_scope_type

-- The bytes that `ResourceRevision` hashes.
unfoldable pub revision_payload :
    RevisionScope
    → List RevisionNode
    → List RevisionCapability
    → List RevisionBinding
    → Result RevisionError Bytes
unfolding validate_revision_scope sort_nodes sort_capabilities sort_bindings append_scope
    encode_nodes encode_capabilities encode_bindings
revision_payload scope nodes capabilities bindings =
    validate_revision_scope scope
    >> (encode_nodes (sort_nodes nodes) (append_scope scope)
        >>= encode_capabilities (sort_capabilities capabilities)
        >>= encode_bindings (sort_bindings bindings))

-- `hash` is the lowercase hex print of the SHA-256 sum.
unfoldable pub resource_revision :
    (Bytes → Bytes)
    → RevisionScope
    → List RevisionNode
    → List RevisionCapability
    → List RevisionBinding
    → Result RevisionError Bytes
unfolding revision_payload
resource_revision hash scope nodes capabilities bindings =
    revision_payload scope nodes capabilities bindings >>= λ buf. ok (hash buf)
