-- ===== src/Contracts/Revision/Tests.antt =====
-- The revision of a small scope.
use mathlib.Core.List.Permᴰ
use mathlib.Core.List.{Permᴰ}
use vpp_backend.Prelude.{pos, ◌≡◌, refl, [], ◌∷◌, ok, err}
use vpp_backend.Prelude.Bytes.{Bytes, bytes_lt, codes}
use vpp_backend.Contracts.Revision.{
  RevisionScope, RevisionNode, RevisionCapability, RevisionBinding, RevisionError,
  resource_revision, revision_payload,
}
use vpp_backend.Contracts.Revision.Order.{resource_revision-of_Permᴰ}
use vpp_backend.Contracts.Revision.Injective.{revision_payload-determines}

abbrev scope : RevisionScope
scope = record { tenant_id = codes "t1"; scope_type = codes "site"; scope_id = codes "s1" }

abbrev site : RevisionNode
site = record { entity_type = codes "site"; entity_id = codes "s1"; version = pos 3 }

abbrev battery : RevisionNode
battery = record { entity_type = codes "cu"; entity_id = codes "cu-1"; version = pos 12 }

abbrev storage : RevisionCapability
storage = record {
  cu_id = codes "cu-1";
  capability_id = codes "energy.storage.v1";
  version = pos 1;
}

abbrev power : RevisionBinding
power = record { cu_id = codes "cu-1"; metric_id = codes "m.v1"; version = pos 7 }

abbrev small_payload : Bytes
small_payload =
    codes
      "1:1\n5:scope\n2:t1\n4:site\n2:s1\n5:nodes\n1:2\n2:cu\n4:cu-1\n2:12\n4:site\n2:s1\n1:3\n12:capabilities\n1:1\n4:cu-1\n17:energy.storage.v1\n1:1\n8:bindings\n1:1\n4:cu-1\n4:m.v1\n1:7\n"

small_payload_lem :
    revision_payload scope (site ∷ battery ∷ []) (storage ∷ []) (power ∷ []) ≡ ok small_payload
unfolding revision_payload bytes_lt
small_payload_lem = refl

swapped_payload_lem :
    revision_payload scope (battery ∷ site ∷ []) (storage ∷ []) (power ∷ []) ≡ ok small_payload
unfolding revision_payload bytes_lt
swapped_payload_lem = refl

-- A version that is not positive is refused.
zero_version :
    revision_payload scope (record site { version = pos 0 } ∷ []) [] []
    ≡ err RevisionError.node_identity_invalid
unfolding revision_payload
zero_version = refl

resource_revision-of_Permᴰ_example :
    resource_revision (λ s. s) scope (site ∷ battery ∷ []) (storage ∷ []) (power ∷ [])
    ≡ resource_revision (λ s. s) scope (battery ∷ site ∷ []) (storage ∷ []) (power ∷ [])
resource_revision-of_Permᴰ_example =
    resource_revision-of_Permᴰ (λ s. s) scope (Permᴰ.swap refl refl) (Permᴰ.refl (storage ∷ []))
      (Permᴰ.refl (power ∷ []))

revision_payload-determines_example :
    (scope ≡ scope)
    × Permᴰ (site ∷ battery ∷ []) (battery ∷ site ∷ [])
    × Permᴰ (storage ∷ []) (storage ∷ [])
    × Permᴰ (power ∷ []) (power ∷ [])
revision_payload-determines_example =
    revision_payload-determines small_payload_lem swapped_payload_lem
