-- ===== src/Contracts.antt =====
-- api/contracts: contracts.go and registry.go, the versioned ids of metrics and their table.
pub mod Revision
pub mod Capability
use vpp_backend.Prelude.{
  ℕ, ℤ, pos, String, str_eq, Bool, true, false, ◌&&◌, ◌||◌, Option, none, some, List, [], ◌∷◌, leb,
  ◌==◌, if◌then◌else◌,
}
use Prim.Native.Char.{code}

pub data ValueKind : Type 0 where
  float64 int64 bool enum : ValueKind

pub data AccessMode : Type 0 where
  read write read_write : AccessMode

-- `none` is any other string.
unfoldable pub allows_read : Option AccessMode → Bool
allows_read (some AccessMode.read) = true
allows_read (some AccessMode.read_write) = true
allows_read _ = false

unfoldable pub allows_write : Option AccessMode → Bool
allows_write (some AccessMode.write) = true
allows_write (some AccessMode.read_write) = true
allows_write _ = false

-- The limits in the table are whole numbers.
pub record MetricDescriptor : Type 0 where
  pub id : String
  pub display_name : String
  pub canonical_unit : String
  pub value_kind : ValueKind
  pub readable : Bool
  pub writable : Bool
  pub min_value : Option ℤ
  pub max_value : Option ℤ

abbrev float_metric : String → String → String → Bool → MetricDescriptor
float_metric id name unit writable = record {
  id = id;
  display_name = name;
  canonical_unit = unit;
  value_kind = ValueKind.float64;
  readable = if writable then false else true;
  writable = writable;
  min_value = none;
  max_value = none;
}

-- Every metric of the table is either readable or writable.
abbrev metric_registry : List MetricDescriptor
metric_registry =
    float_metric "electrical.active_power.v1" "Active power" "kW" false
    ∷ float_metric "electrical.reactive_power.v1" "Reactive power" "kvar" false
    ∷ float_metric "electrical.active_power_setpoint.v1" "Active power setpoint" "kW" true
    ∷ record (float_metric "energy_storage.state_of_charge.v1" "State of charge" "%" false) {
      min_value = some (pos 0);
      max_value = some (pos 100);
    }
    ∷ []

lookup_in : String → List MetricDescriptor → Option MetricDescriptor
lookup_in id [] = none
lookup_in id (d ∷ ds) = if str_eq d.id id then some d else lookup_in id ds

unfoldable pub lookup_metric : String → Option MetricDescriptor
unfolding lookup_in
lookup_metric id = lookup_in id metric_registry

is_lower : ℕ → Bool
is_lower c = leb 97 c && leb c 122

is_digit : ℕ → Bool
is_digit c = leb 48 c && leb c 57

-- `[a-z0-9_]*` and `[0-9]*`, of the codes of the characters.
all_word : List ℕ → Bool
unfolding is_lower is_digit
all_word [] = true
all_word (c ∷ cs) = (is_lower c || is_digit c || c == 95) && all_word cs

all_digits : List ℕ → Bool
unfolding is_digit
all_digits [] = true
all_digits (c ∷ cs) = is_digit c && all_digits cs

-- `[a-z][a-z0-9_]*`.
is_word : List ℕ → Bool
unfolding is_lower all_word
is_word [] = false
is_word (c ∷ cs) = is_lower c && all_word cs

-- `v[1-9][0-9]*`.
is_version : List ℕ → Bool
unfolding all_digits
is_version (v ∷ d ∷ ds) = v == 118 && leb 49 d && leb d 57 && all_digits ds
is_version _ = false

push : ℕ → List (List ℕ) → List (List ℕ)
push c [] = (c ∷ []) ∷ []
push c (x ∷ xs) = (c ∷ x) ∷ xs

-- The parts between the dots.
parts : String → List (List ℕ)
unfolding push
parts String.[] = [] ∷ []
parts (String.◌∷◌ c s) = if code c == 46 then [] ∷ parts s else push (code c) (parts s)

-- Words, and a version at the end.
ends_in_version : List (List ℕ) → Bool
unfolding is_word is_version
ends_in_version [] = false
ends_in_version (x ∷ []) = is_version x
ends_in_version (x ∷ y ∷ xs) = is_word x && ends_in_version (y ∷ xs)

-- `idPattern`: a word, at least one more word, and a version, with dots between them.
matches_pattern : List (List ℕ) → Bool
unfolding is_word ends_in_version
matches_pattern (x ∷ y ∷ xs) = is_word x && is_word y && ends_in_version xs
matches_pattern _ = false

unfoldable is_valid_id : String → Bool
unfolding parts matches_pattern
is_valid_id raw = matches_pattern (parts raw)

unfoldable pub parse_metric_id : String → Option String
unfolding is_valid_id lookup_metric
parse_metric_id raw =
    if is_valid_id raw then elim (lookup_metric raw) [ none ↦ none | some d ↦ some raw ] else none
