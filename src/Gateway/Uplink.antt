-- ===== src/Gateway/Uplink.antt =====
-- internal/gateway/domain/binding/uplink.go: raw samples of a device become canonical metrics, or are
-- isolated. A map by address is its list of entries, in the order in which they came.
pub mod Sound
pub mod Owners
mod Tests
use vpp_backend.Prelude.{
  ℕ, String, str_eq, trim_space, is_empty_text, Bool, true, false, not, ◌||◌, Option, none, some,
  Result, ok, err, List, [], ◌∷◌, ◌++◌, count, if◌then◌else◌, ltb,
}
use vpp_backend.Contracts.{ValueKind, allows_read, lookup_metric, parse_metric_id}
use vpp_backend.Gateway.Floats.{Floats, finite}
use vpp_backend.Gateway.Binding.{Binding, Snapshot}

pub data IsolateReason : Type 0 where
  unknown disabled not_readable duplicate unusable non_finite : IsolateReason

pub record Reading (F : Type 0) : Type 0 where
  pub external_address : String
  pub raw : F

pub record CanonicalMetric (F : Type 0) : Type 0 where
  pub metric_id : String
  pub value : F

pub record IsolatedReading : Type 0 where
  pub external_address : String
  pub reason : IsolateReason

unfoldable rank_reject : Option IsolateReason → ℕ
rank_reject (some IsolateReason.not_readable) = 3
rank_reject (some IsolateReason.disabled) = 2
rank_reject (some IsolateReason.unusable) = 1
rank_reject _ = 0

unfoldable prefer_reject : Option IsolateReason → IsolateReason → Option IsolateReason
unfolding rank_reject
prefer_reject current next =
    if ltb (rank_reject current) (rank_reject (some next)) then some next else current

abbrev is_float64 : ValueKind → Bool
is_float64 ValueKind.float64 = true
is_float64 _ = false

-- The text, trimmed, is the id of a metric of the right kind.
unfoldable pub is_float_metric : String → Bool
unfolding parse_metric_id lookup_metric trim_space
is_float_metric raw = elim (parse_metric_id (trim_space raw)) [
  | none ↦ false
  | some id ↦ elim (lookup_metric id) [ none ↦ false | some d ↦ is_float64 d.value_kind ]
]

-- A binding that is usable, or why none is.
pub data Choice (F : Type 0) : Type 0 where
  usable : Binding F → Choice F
  refused : IsolateReason → Choice F

abbrev pub Group : Type 0 → Type 0
Group F = String × List (Binding F)

abbrev pub Entry : Type 0 → Type 0
Entry F = String × Choice F

module _ {F : Type 0} where
  -- `byAddr[addr] = append(byAddr[addr], item)`.
  unfoldable pub add_item : String → Binding F → List (Group F) → List (Group F)
  add_item addr item [] = (addr, item ∷ []) ∷ []
  add_item addr item ((key, items) ∷ gs) =
      let rest = add_item addr item gs in
      if str_eq key addr then (key, items ++ (item ∷ [])) ∷ gs else (key, items) ∷ rest

  unfoldable pub group : List (Binding F) → List (Group F) → List (Group F)
  unfolding add_item trim_space
  group [] gs = gs
  group (b ∷ bs) gs = group bs (
      if is_empty_text (trim_space b.external_address)
      then gs
      else add_item (trim_space b.external_address) b gs)

  -- The switch over the number of usable bindings of an address.
  abbrev pub choose_ready : List (Binding F) → Option IsolateReason → Choice F
  choose_ready [] none = Choice.refused IsolateReason.unusable
  choose_ready [] (some reason) = Choice.refused reason
  choose_ready (b ∷ []) rejected = Choice.usable b
  choose_ready (b ∷ c ∷ more) rejected = Choice.refused IsolateReason.duplicate

  abbrev pub owns : String → Entry F → Bool
  owns metric (addr, Choice.usable b) = str_eq b.metric_id metric
  owns metric (addr, Choice.refused reason) = false

  -- `owners[choice.binding.MetricID]`.
  unfoldable pub owners : String → List (Entry F) → ℕ
  owners metric entries = count (owns metric) entries

  -- The second loop over `chosen`: a metric that two addresses claim is refused at both.
  unfoldable pub refuse_shared : List (Entry F) → Entry F → Entry F
  unfolding owners
  refuse_shared all (addr, Choice.refused reason) = (addr, Choice.refused reason)
  refuse_shared all (addr, Choice.usable b) =
      if ltb 1 (owners b.metric_id all)
      then (addr, Choice.refused IsolateReason.duplicate)
      else (addr, Choice.usable b)

  unfoldable pub refuse_all_shared : List (Entry F) → List (Entry F) → List (Entry F)
  unfolding refuse_shared
  refuse_all_shared all [] = []
  refuse_all_shared all (e ∷ es) = refuse_shared all e ∷ refuse_all_shared all es

  unfoldable pub choice_at : String → List (Entry F) → Option (Choice F)
  choice_at addr [] = none
  choice_at addr ((key, choice) ∷ es) =
      let rest = choice_at addr es in if str_eq key addr then some choice else rest

  abbrev isolate : String → IsolateReason → Result IsolatedReading (CanonicalMetric F)
  isolate addr reason = err (record { external_address = addr; reason = reason })

  abbrev add_result :
      Result IsolatedReading (CanonicalMetric F)
      → List (CanonicalMetric F) × List IsolatedReading
      → List (CanonicalMetric F) × List IsolatedReading
  add_result (ok c) (canonical, isolated) = (c ∷ canonical, isolated)
  add_result (err i) (canonical, isolated) = (canonical, i ∷ isolated)

module _ {F : Type 0} (f : Floats F) where
  unfoldable pub reject_uplink : Binding F → Option IsolateReason
  unfolding allows_read finite is_float_metric
  reject_uplink b =
      if not b.enabled
      then some IsolateReason.disabled
      else if not (allows_read b.access_mode)
      then some IsolateReason.not_readable
      else if not (finite f b.scale) || f.eq b.scale f.zero || not (finite f b.offset)
      then some IsolateReason.unusable
      else if not (is_float_metric b.metric_id)
      then some IsolateReason.unusable
      else none

  -- The loop over the bindings of an address.
  unfoldable pub choose_among :
      List (Binding F) → List (Binding F) → Option IsolateReason → Choice F
  unfolding reject_uplink prefer_reject
  choose_among [] ready rejected = choose_ready ready rejected
  choose_among (b ∷ bs) ready rejected = elim (reject_uplink b) [
    | some reason ↦ choose_among bs ready (prefer_reject rejected reason)
    | none ↦ choose_among bs (ready ++ (b ∷ [])) rejected
  ]

  unfoldable pub choose_groups : List (Group F) → List (Entry F)
  unfolding choose_among
  choose_groups [] = []
  choose_groups ((addr, items) ∷ gs) = (addr, choose_among items [] none) ∷ choose_groups gs

  unfoldable pub index_uplink : List (Binding F) → List (Entry F)
  unfolding group choose_groups refuse_all_shared
  index_uplink bindings =
      let chosen = choose_groups (group bindings []) in refuse_all_shared chosen chosen

  unfoldable pub convert_reading :
      String → F → Binding F → Result IsolatedReading (CanonicalMetric F)
  unfolding finite
  convert_reading addr raw b =
      if not (finite f raw)
      then isolate addr IsolateReason.non_finite
      else if not (finite f (f.add (f.mul raw b.scale) b.offset))
      then isolate addr IsolateReason.non_finite
      else ok (record { metric_id = b.metric_id; value = f.add (f.mul raw b.scale) b.offset })

  unfoldable pub apply_choice : String → F → Choice F → Result IsolatedReading (CanonicalMetric F)
  unfolding convert_reading
  apply_choice addr raw (Choice.refused reason) = isolate addr reason
  apply_choice addr raw (Choice.usable b) = convert_reading addr raw b

  -- One turn of the loop of `TranslateUplink`.
  unfoldable pub translate_reading :
      List (Entry F) → Reading F → Result IsolatedReading (CanonicalMetric F)
  unfolding choice_at apply_choice trim_space
  translate_reading chosen r = elim (choice_at (trim_space r.external_address) chosen) [
    | none ↦ isolate (trim_space r.external_address) IsolateReason.unknown
    | some choice ↦ apply_choice (trim_space r.external_address) r.raw choice
  ]

  unfoldable pub translate_readings :
      List (Entry F) → List (Reading F) → List (CanonicalMetric F) × List IsolatedReading
  unfolding translate_reading
  translate_readings chosen [] = ([], [])
  translate_readings chosen (r ∷ rs) =
      add_result (translate_reading chosen r) (translate_readings chosen rs)

  unfoldable pub translate_uplink :
      Snapshot F → List (Reading F) → List (CanonicalMetric F) × List IsolatedReading
  unfolding index_uplink translate_readings
  translate_uplink snap readings = translate_readings (index_uplink snap) readings
