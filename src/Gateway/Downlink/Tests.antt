-- ===== src/Gateway/Downlink/Tests.antt =====
-- A unit with one writable setpoint, on natural numbers in place of floats.
use vpp_backend.Prelude.{
  Bool, trim_space, is_blank, ℕ, pos, refl, ◌+◌, ◌-◌, ◌*◌, String, true, false, some, none, List,
  [], ◌∷◌, ltb, leb, ◌==◌,
}
use Prim.Native.Nat.{◌/◌}
use vpp_backend.Contracts.{AccessMode}
use vpp_backend.Gateway.Floats.{Floats}
use vpp_backend.Gateway.Binding.{Binding}
use vpp_backend.Gateway.Cache.{Origin}
use vpp_backend.Gateway.Downlink.{select_downlink, translate_downlink}
use vpp_backend.Gateway.Downlink.Selection.{usable, Selected, select_downlink-Selected}
use vpp_backend.Gateway.Downlink.Sound.{IsSafe, translate_downlink-IsSafe}

abbrev naturals : Floats ℕ
naturals = record {
  is_nan = λ v. false;
  is_inf = λ v. false;
  lt = ltb;
  le = leb;
  eq = λ a b. a == b;
  add = λ a b. a + b;
  sub = λ a b. a - b;
  mul = λ a b. a * b;
  div = λ a b. a / b;
  abs = λ a. a;
  max = λ a b. (a - b) + b;
  zero = 0;
  relative = 0;
  absolute = 0;
}

abbrev setpoint_metric : String
setpoint_metric = "electrical.active_power_setpoint.v1"

abbrev point : String → Bool → Binding ℕ
point address enabled = record {
  point_id = "p1";
  metric_id = setpoint_metric;
  external_address = address;
  access_mode = some AccessMode.read_write;
  scale = 2;
  offset = 4;
  enabled = enabled;
  revision = pos 7;
  safety = some (record {
    min_value = some 5;
    max_value = some 100;
    max_change_per_second = none;
    version = pos 1;
  });
}

abbrev points : List (Binding ℕ)
points = point " HR-40002 " false ∷ point "HR-40001 " true ∷ []

translate_downlink-IsSafe_example :
    IsSafe naturals points Origin.cache setpoint_metric 24
      (pos 7)
      (record { external_address = "HR-40001"; raw = 10; revision = pos 7 })
unfolding translate_downlink trim_space is_blank
translate_downlink-IsSafe_example =
    translate_downlink-IsSafe naturals points Origin.cache setpoint_metric 24 (pos 7)
      (record { external_address = "HR-40001"; raw = 10; revision = pos 7 }) refl

select_downlink-Selected_example :
    Selected naturals setpoint_metric points
      (usable naturals setpoint_metric points)
      (select_downlink naturals points setpoint_metric)
select_downlink-Selected_example = select_downlink-Selected naturals setpoint_metric points
