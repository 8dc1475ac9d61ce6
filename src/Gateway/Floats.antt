-- ===== src/Gateway/Floats.antt =====
-- The operations of Go's `float64` that the conversions use. IEEE arithmetic is a parameter.
use vpp_backend.Prelude.{Bool, not, ◌&&◌}

pub record Floats (F : Type 0) : Type 0 where
  pub is_nan : F → Bool
  pub is_inf : F → Bool
  pub lt : F → F → Bool
  pub le : F → F → Bool
  pub eq : F → F → Bool
  pub add : F → F → F
  pub sub : F → F → F
  pub mul : F → F → F
  pub div : F → F → F
  pub abs : F → F
  pub max : F → F → F
  pub zero : F
  -- 1e-9 and 1e-12.
  pub relative : F
  pub absolute : F

unfoldable pub finite : {F : Type 0} → Floats F → F → Bool
finite f v = not (f.is_nan v) && not (f.is_inf v)
