-- ===== src/Contracts/Revision/Order.antt =====
-- The order in which the catalog returns its rows does not reach the revision.
use mathlib.Core.List.{Permᴰ}
use vpp_backend.Prelude.{◌≡◌, refl, List}
use vpp_backend.Prelude.Bytes.{Bytes}
use vpp_backend.Prelude.Sort.{LawfulLess, sort-of_Permᴰ, LawfulLess-on}
use vpp_backend.Prelude.Lex.{lex-LawfulLess, ltb_ℤ-LawfulLess}
use vpp_backend.Contracts.Revision.{
  RevisionScope, RevisionNode, RevisionCapability, RevisionBinding, key_less, node_key,
  capability_key, binding_key, sort_nodes, sort_capabilities, sort_bindings, revision_payload,
  resource_revision,
}

key_less-LawfulLess : LawfulLess key_less
unfolding key_less
key_less-LawfulLess = lex-LawfulLess (lex-LawfulLess ltb_ℤ-LawfulLess)

sort_nodes-of_Permᴰ : (xs ys : List RevisionNode) → Permᴰ xs ys → sort_nodes xs ≡ sort_nodes ys
unfolding sort_nodes
sort_nodes-of_Permᴰ = sort-of_Permᴰ (
    LawfulLess-on key_less-LawfulLess node_key
      λ a b e. λ i. record { entity_type = (e i).0; entity_id = (e i).1.0; version = (e i).1.1 })

sort_capabilities-of_Permᴰ :
    (xs ys : List RevisionCapability) → Permᴰ xs ys → sort_capabilities xs ≡ sort_capabilities ys
unfolding sort_capabilities
sort_capabilities-of_Permᴰ = sort-of_Permᴰ (
    LawfulLess-on key_less-LawfulLess capability_key
      λ a b e. λ i. record { cu_id = (e i).0; capability_id = (e i).1.0; version = (e i).1.1 })

sort_bindings-of_Permᴰ :
    (xs ys : List RevisionBinding) → Permᴰ xs ys → sort_bindings xs ≡ sort_bindings ys
unfolding sort_bindings
sort_bindings-of_Permᴰ = sort-of_Permᴰ (
    LawfulLess-on key_less-LawfulLess binding_key
      λ a b e. λ i. record { cu_id = (e i).0; metric_id = (e i).1.0; version = (e i).1.1 })

-- Two calls whose nodes, capabilities and bindings are rearrangements of each other give the same
-- revision, or fail with the same error.
pub resource_revision-of_Permᴰ :
    (hash : Bytes → Bytes) (scope : RevisionScope) {ns ns' : List RevisionNode}
    {cs cs' : List RevisionCapability} {bs bs' : List RevisionBinding}
    → Permᴰ ns ns'
    → Permᴰ cs cs'
    → Permᴰ bs bs'
    → resource_revision hash scope ns cs bs ≡ resource_revision hash scope ns' cs' bs'
unfolding resource_revision revision_payload
resource_revision-of_Permᴰ hash scope {ns} {ns'} {cs} {cs'} {bs} {bs'} p q r =
    rw
      (
        sort_nodes-of_Permᴰ ns ns' p,
        sort_capabilities-of_Permᴰ cs cs' q,
        sort_bindings-of_Permᴰ bs bs' r,
      )
      refl
