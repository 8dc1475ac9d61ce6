-- ===== src/Gateway/Downlink/Sound.antt =====
-- What every setpoint that `TranslateDownlink` returns has gone through.
use vpp_backend.Prelude.{
  ℕ, ℤ, ◌≡◌, inl, inr, String, true, false, some, ok, [], ◌∷◌, get_elem?, Option-cases,
  Result-cases, err_ne_ok,
}
use vpp_backend.Gateway.Floats.{Floats}
use vpp_backend.Gateway.Binding.{Binding, Snapshot}
use vpp_backend.Gateway.Cache.{Origin}
use vpp_backend.Gateway.Downlink.{
  DeviceSetpoint, is_fallback, writable_metric, select_downlink, translate_downlink,
}
use vpp_backend.Gateway.Downlink.Selection.{is_named, usable, select_downlink-Selected}
use vpp_backend.Gateway.Downlink.Writable.{
  IsWritable, reject_downlink-IsWritable, usable-member, Selected-ok,
}
use vpp_backend.Gateway.Downlink.Conversion.{Converted, if-ok, convert-Converted}

module _ {F : Type 0} (f : Floats F) where
  -- A setpoint that is safe to send for a metric, a value and a pinned revision.
  pub record IsSafe (snap : Snapshot F) (origin : Origin) (metric : String) (canonical : F)
      (expected : ℤ) (sp : DeviceSetpoint F) : Type 0 where
    pub confirmed : is_fallback f origin ≡ false
    pub id : String
    pub known : writable_metric metric ≡ some id
    pub binding : Binding F
    pub only : usable f id snap ≡ binding ∷ []
    pub place : ℕ
    pub at_place : get_elem? snap place ≡ some binding
    pub names : is_named f id binding ≡ true
    pub writable : IsWritable f binding
    pub converted : Converted f canonical expected binding sp

  -- Every setpoint that is returned is safe: the bindings are a confirmed copy, the metric is a
  -- known writable one, and exactly one binding of the CU can serve it. That binding is enabled,
  -- writable, with a positive revision, which is the pinned one if any is, and with an address; the
  -- value is finite and within its limits, and the raw value converts back to nearly the same.
  pub translate_downlink-IsSafe :
      (snap : Snapshot F) (origin : Origin) (metric : String) (canonical : F) (expected : ℤ)
      (sp : DeviceSetpoint F)
      → translate_downlink f snap origin metric canonical expected ≡ ok sp
      → IsSafe snap origin metric canonical expected sp
  unfolding translate_downlink
  translate_downlink-IsSafe snap origin metric canonical expected sp e =
      let (c, e₁) = if-ok f (is_fallback f origin) _ _ e in
      elim (Option-cases (writable_metric metric)) [
        | inl unknown ↦ absurd (err_ne_ok (rw unknown at e₁))
        | inr (id, known) ↦ elim (Result-cases (select_downlink f snap id)) [
          | inr (x, bad) ↦ absurd (err_ne_ok (rw (known, bad) at e₁))
          | inl (b, good) ↦
              let only =
                Selected-ok f id snap (usable f id snap) (select_downlink f snap id) b
                  (select_downlink-Selected f id snap) good in
              let (j, at, n, r) = usable-member f id snap only in
              record {
                confirmed = c;
                id = id;
                known = known;
                binding = b;
                only = only;
                place = j;
                at_place = at;
                names = n;
                writable = reject_downlink-IsWritable f b r;
                converted = convert-Converted f canonical expected b sp (rw (known, good) at e₁);
              }
        ]
      ]
