-- ===== src/Gateway/Binding.antt =====
-- internal/gateway/domain/binding/binding.go. `F` is the type
-- of a `float64`. Records are values here, so the deep copies of the source are equal to what they
-- copy, and are left out.
use vpp_backend.Prelude.{ℤ, String, str_eq, Bool, false, ◌||◌, Option, List, [], ◌∷◌}
use vpp_backend.Contracts.{AccessMode}

pub record Safety (F : Type 0) : Type 0 where
  pub min_value : Option F
  pub max_value : Option F
  pub max_change_per_second : Option F
  pub version : ℤ

pub record Binding (F : Type 0) : Type 0 where
  pub point_id : String
  pub metric_id : String
  pub external_address : String
  pub access_mode : Option AccessMode
  pub scale : F
  pub offset : F
  pub enabled : Bool
  pub revision : ℤ
  pub safety : Option (Safety F)

-- A `Snapshot` is its bindings.
abbrev pub Snapshot : Type 0 → Type 0
Snapshot F = List (Binding F)

unfoldable pub contains_point : {F : Type 0} → List (Binding F) → String → Bool
contains_point [] point = false
contains_point (b ∷ bs) point = str_eq b.point_id point || contains_point bs point
