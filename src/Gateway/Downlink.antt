-- ===== src/Gateway/Downlink.antt =====
-- internal/gateway/domain/binding/downlink.go: a setpoint becomes a device address and a raw value,
-- or is rejected. An empty reason is `none`.
pub mod Selection
pub mod Writable
pub mod Conversion
pub mod Sound
mod Tests
use vpp_backend.Prelude.{
  ℕ, suc, ℤ, pos, leb_ℤ, ltb_ℤ, eqb_ℤ, String, str_eq, trim_space, is_blank, Bool, true, false, not,
  ◌&&◌, ◌||◌, Option, none, some, Result, ok, err, ◌>>=◌, ◌>>◌, List, [], ◌∷◌, ◌++◌, if◌then◌else◌,
  ltb, ◌==◌,
}
use vpp_backend.Contracts.{ValueKind, allows_write, lookup_metric, parse_metric_id}
use vpp_backend.Gateway.Floats.{Floats, finite}
use vpp_backend.Gateway.Binding.{Binding, Safety, Snapshot}
use vpp_backend.Gateway.Cache.{Origin}

pub data RejectReason : Type 0 where
  stale missing duplicate disabled not_writable : RejectReason
  revision irreversible out_of_bounds non_finite unusable : RejectReason

pub record DeviceSetpoint (F : Type 0) : Type 0 where
  pub external_address : String
  pub raw : F
  pub revision : ℤ

unfoldable pub rank_downlink : Option RejectReason → ℕ
rank_downlink (some RejectReason.not_writable) = 5
rank_downlink (some RejectReason.revision) = 4
rank_downlink (some RejectReason.irreversible) = 3
rank_downlink (some RejectReason.unusable) = 2
rank_downlink (some RejectReason.disabled) = 1
rank_downlink _ = 0

unfoldable pub prefer_downlink : Option RejectReason → RejectReason → Option RejectReason
unfolding rank_downlink
prefer_downlink current next =
    if ltb (rank_downlink current) (rank_downlink (some next)) then some next else current

abbrev is_float64 : ValueKind → Bool
is_float64 ValueKind.float64 = true
is_float64 _ = false

-- The id that a text names, if it is that of a writable metric of the right kind.
unfoldable pub writable_metric : String → Option String
unfolding parse_metric_id lookup_metric
writable_metric raw = elim (parse_metric_id (trim_space raw)) [
  | none ↦ none
  | some id ↦ elim (lookup_metric id) [
    | none ↦ none
    | some d ↦ if not d.writable || not (is_float64 d.value_kind) then none else some id
  ]
]

abbrev pub is_none : Option String → Bool
is_none none = true
is_none (some s) = false

-- What the loop over the bindings has found so far.
pub record Survey (F : Type 0) : Type 0 where
  pub ready : List (Binding F)
  pub rejected : Option RejectReason
  pub seen : ℕ

module _ {F : Type 0} (f : Floats F) where
  abbrev pub holds_if_set : (F → Bool) → Option F → Bool
  holds_if_set p none = true
  holds_if_set p (some v) = p v

  abbrev in_order : Option F → Option F → Bool
  in_order (some low) (some high) = not (f.lt high low)
  in_order _ _ = true

  unfoldable pub safety_well_formed : Option (Safety F) → Bool
  unfolding finite
  safety_well_formed none = true
  safety_well_formed (some s) =
      if leb_ℤ s.version (pos 0)
      then false
      else if not (
          holds_if_set (finite f) s.min_value
          && holds_if_set (finite f) s.max_value
          && holds_if_set (finite f) s.max_change_per_second)
      then false
      else if not (in_order s.min_value s.max_value)
      then false
      else if not (holds_if_set (λ v. not (f.le v f.zero)) s.max_change_per_second)
      then false
      else true

  unfoldable pub safety_bounds : Option (Safety F) → F → Option RejectReason
  safety_bounds none canonical = none
  safety_bounds (some s) canonical =
      if not (holds_if_set (λ low. not (f.lt canonical low)) s.min_value)
      then some RejectReason.out_of_bounds
      else if not (holds_if_set (λ high. not (f.lt high canonical)) s.max_value)
      then some RejectReason.out_of_bounds
      else none

  unfoldable pub close_enough : F → F → Bool
  close_enough a b =
      f.le (f.abs (f.sub a b)) (f.add (f.mul f.relative (f.max (f.abs a) (f.abs b))) f.absolute)

  unfoldable pub invert : F → F → F → Option F
  unfolding finite close_enough
  invert canonical scale offset =
      let raw = f.div (f.sub canonical offset) scale in
      let back = f.add (f.mul raw scale) offset in
      if not (finite f raw)
      then none
      else if not (finite f back) || not (close_enough back canonical)
      then none
      else some raw

  unfoldable pub reject_downlink : Binding F → Option RejectReason
  unfolding allows_write finite writable_metric safety_well_formed
  reject_downlink b =
      if not b.enabled
      then some RejectReason.disabled
      else if not (allows_write b.access_mode)
      then some RejectReason.not_writable
      else if leb_ℤ b.revision (pos 0)
      then some RejectReason.revision
      else if is_blank b.external_address
      then some RejectReason.unusable
      else if not (finite f b.scale) || f.eq b.scale f.zero || not (finite f b.offset)
      then some RejectReason.irreversible
      else if is_none (writable_metric b.metric_id)
      then some RejectReason.unusable
      else if not (safety_well_formed b.safety)
      then some RejectReason.unusable
      else none

  -- One turn of the loop of `selectDownlink`.
  unfoldable pub consider : String → Binding F → Survey F → Survey F
  unfolding reject_downlink prefer_downlink
  consider id b s =
      if not (str_eq (trim_space b.metric_id) id) then s else elim (reject_downlink b) [
        | some reason ↦ record s { seen = suc s.seen; rejected = prefer_downlink s.rejected reason }
        | none ↦ record s { seen = suc s.seen; ready = s.ready ++ b ∷ [] }
      ]

  unfoldable pub survey : String → List (Binding F) → Survey F → Survey F
  unfolding consider
  survey id [] s = s
  survey id (b ∷ bs) s = survey id bs (consider id b s)

  abbrev pub or_unusable : Option RejectReason → RejectReason
  or_unusable none = RejectReason.unusable
  or_unusable (some reason) = reason

  -- The switch over the number of usable bindings.
  unfoldable pub choose : Survey F → Result RejectReason (Binding F)
  choose s = elim s.ready [
    | [] ↦ if s.seen == 0 then err RejectReason.missing else err (or_unusable s.rejected)
    | b ∷ rest ↦ elim rest [ [] ↦ ok b | c ∷ more ↦ err RejectReason.duplicate ]
  ]

  unfoldable pub select_downlink : List (Binding F) → String → Result RejectReason (Binding F)
  unfolding survey choose
  select_downlink bindings id =
      choose (survey id bindings (record { ready = []; rejected = none; seen = 0 }))

  abbrev pub is_fallback : Origin → Bool
  is_fallback Origin.fallback = true
  is_fallback _ = false

  -- From the chosen binding on.
  unfoldable pub convert : F → ℤ → Binding F → Result RejectReason (DeviceSetpoint F)
  unfolding finite safety_bounds invert
  convert canonical expected b =
      if ltb_ℤ (pos 0) expected && not (eqb_ℤ b.revision expected)
      then err RejectReason.revision
      else if not (finite f canonical)
      then err RejectReason.non_finite
      else elim (safety_bounds b.safety canonical) [
        | some reason ↦ err reason
        | none ↦ elim (invert canonical b.scale b.offset) [
          | none ↦ err RejectReason.irreversible
          | some raw ↦ ok (record {
            external_address = trim_space b.external_address;
            raw = raw;
            revision = b.revision;
          })
        ]
      ]

  unfoldable pub translate_downlink :
      Snapshot F → Origin → String → F → ℤ → Result RejectReason (DeviceSetpoint F)
  unfolding writable_metric select_downlink convert
  translate_downlink snap origin metric_id canonical expected =
      if is_fallback origin then err RejectReason.stale else elim (writable_metric metric_id) [
        | none ↦ err RejectReason.unusable
        | some id ↦ select_downlink snap id >>= convert canonical expected
      ]
