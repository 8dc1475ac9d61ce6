-- ===== src/Gateway/Uplink/Tests.antt =====
-- Two readings of one device, and two bindings whose metric ids differ by a space.
use vpp_backend.Prelude.{
  ℕ, pos, ◌≡◌, ◌≢◌, refl, String, str_eq, trim_space, true, false, none, some, List, [], ◌∷◌, All,
  ok, ltb, leb, ◌==◌, ◌+◌, ◌-◌, ◌*◌,
}
use Prim.Native.Nat.{◌/◌, max}
use mathlib.Core.Bool.{true≢false}
use vpp_backend.Contracts.{AccessMode}
use vpp_backend.Gateway.Floats.{Floats}
use vpp_backend.Gateway.Binding.{Binding}
use vpp_backend.Gateway.Uplink.{
  Reading, CanonicalMetric, translate_uplink, translate_reading, index_uplink,
}
use vpp_backend.Gateway.Uplink.Sound.{Measures, translate_uplink-Measures}
use vpp_backend.Gateway.Uplink.Owners.{translate_reading-apart}

abbrev whole : Floats ℕ
whole = record {
  is_nan = λ v. false;
  is_inf = λ v. false;
  lt = ltb;
  le = leb;
  eq = λ a b. a == b;
  add = λ a b. a + b;
  sub = λ a b. a - b;
  mul = λ a b. a * b;
  div = λ a b. a / b;
  abs = λ a. a;
  max = max;
  zero = 0;
  relative = 0;
  absolute = 0;
}

abbrev bound : String → String → Binding ℕ
bound metric address = record {
  point_id = "p";
  metric_id = metric;
  external_address = address;
  access_mode = some AccessMode.read;
  scale = 2;
  offset = 1;
  enabled = true;
  revision = pos 1;
  safety = none;
}

abbrev two_bindings : List (Binding ℕ)
two_bindings =
    bound "electrical.active_power.v1" "A" ∷ bound "electrical.reactive_power.v1" "B" ∷ []

abbrev at_a : Reading ℕ
at_a = record { external_address = "A"; raw = 3 }

abbrev at_b : Reading ℕ
at_b = record { external_address = "B"; raw = 4 }

abbrev seven : CanonicalMetric ℕ
seven = record { metric_id = "electrical.active_power.v1"; value = 7 }

abbrev nine : CanonicalMetric ℕ
nine = record { metric_id = "electrical.reactive_power.v1"; value = 9 }

translated : translate_uplink whole two_bindings (at_a ∷ at_b ∷ []) ≡ (seven ∷ nine ∷ [], [])
unfolding translate_uplink
translated = refl

-- Two addresses claim one metric, once with a space: both are converted, one under an id that is none.
space_is_another_metric :
    translate_uplink whole
      (bound "electrical.active_power.v1" "A" ∷ bound " electrical.active_power.v1" "B" ∷ [])
      (at_a ∷ at_b ∷ [])
    ≡ (seven ∷ record { metric_id = " electrical.active_power.v1"; value = 9 } ∷ [], [])
unfolding translate_uplink
space_is_another_metric = refl

translate_uplink-Measures_example :
    All
      (Measures whole two_bindings (at_a ∷ at_b ∷ []))
      (translate_uplink whole two_bindings (at_a ∷ at_b ∷ [])).0
translate_uplink-Measures_example = translate_uplink-Measures whole two_bindings (at_a ∷ at_b ∷ [])

converted_a : translate_reading whole (index_uplink whole two_bindings) at_a ≡ ok seven
unfolding translate_reading index_uplink
converted_a = refl

converted_b : translate_reading whole (index_uplink whole two_bindings) at_b ≡ ok nine
unfolding translate_reading index_uplink
converted_b = refl

addresses_differ : trim_space at_a.external_address ≢ trim_space at_b.external_address
unfolding trim_space
addresses_differ = λ e. true≢false (λ i. str_eq (e i) "A")

translate_reading-apart_example : seven.metric_id ≢ nine.metric_id
translate_reading-apart_example =
    translate_reading-apart whole two_bindings at_a at_b addresses_differ converted_a converted_b
