-- ===== src/Alarm/Incoming.antt =====
-- internal/alarm/domain/model: incoming.go, fingerprint.go, the kinds of enums.go and the snapshots of
-- attributes.go. The hash and the text of a float and of a time are parameters.
use Prim.Native.String.{◌++◌ as append}
use vpp_backend.Prelude.{
  String, str_eq, is_blank, Bool, not, ◌&&◌, ◌||◌, Option, none, some, List, [], ◌∷◌, if◌then◌else◌,
  Result, err, guard, ◌>>◌,
}
use vpp_backend.Alarm.{Time, Source, is_zero}

pub record IncomingEvent (F : Type 0) : Type 0 where
  pub source : Source
  pub tenant_id : String
  pub event_id : String
  pub event_type : String
  pub occurred_at : Time
  pub task_id : String
  pub task_name : String
  pub task_status : String
  pub trigger_type : String
  pub cu_code : String
  pub metric_id : String
  pub kind : String
  pub quality : String
  pub value : F
  pub previous_value : Option F

-- `ErrInvalidIncoming`, with what is wrong.
pub data IncomingError : Type 0 where
  missing_tenant_id missing_occurred_at missing_event_id missing_task_id missing_cu_code
        missing_metric_id :
      IncomingError
  invalid_kind quality_mismatch unknown_source : IncomingError

abbrev pub is_soe_kind : String → Bool
is_soe_kind kind =
    str_eq kind "discrete_change"
    || str_eq kind "quality_bad"
    || str_eq kind "quality_uncertain"
    || str_eq kind "stale"
    || str_eq kind "recovery"

abbrev is_quality : String → Bool
is_quality q = str_eq q "GOOD" || str_eq q "BAD" || str_eq q "UNCERTAIN"

unfoldable pub quality_matches_kind : String → String → Bool
quality_matches_kind kind quality =
    if str_eq kind "discrete_change" || str_eq kind "recovery"
    then str_eq quality "GOOD"
    else if str_eq kind "quality_bad"
    then str_eq quality "BAD"
    else if str_eq kind "quality_uncertain"
    then str_eq quality "UNCERTAIN"
    else (str_eq kind "stale" && is_quality quality)

-- The separator of the fields of a hash.
abbrev unit_sep : String
unit_sep = "\u{1f}"

-- `strings.Join(parts, unitSep)`.
unfoldable join_fields : List String → String
join_fields [] = ""
join_fields (p ∷ []) = p
join_fields (p ∷ q ∷ ps) = append p (append unit_sep (join_fields (q ∷ ps)))

-- The snapshot that a ticket carries.
pub data Attributes (F : Type 0) : Type 0 where
  dispatch_attributes : (event_id task_id name status trigger_type : String) → Attributes F
  soe_attributes :
      (cu_code metric_id display_name unit kind quality : String) → F → Option F → Attributes F

-- SHA-256 in hex, `FormatFloat` with 17 digits, and RFC 3339 in UTC.
pub record Texts (F : Type 0) : Type 0 where
  pub sha256_hex : String → String
  pub format_float : F → String
  pub format_time : Time → String

module _ {F : Type 0} where
  -- The switch over the source.
  abbrev pub check_source : Source → IncomingEvent F → Result IncomingError (Unit {0})
  check_source Source.dispatch e =
      guard (not (is_blank e.event_id)) IncomingError.missing_event_id
      >> guard (not (is_blank e.task_id)) IncomingError.missing_task_id
  check_source Source.soe e =
      guard (not (is_blank e.cu_code)) IncomingError.missing_cu_code
      >> guard (not (is_blank e.metric_id)) IncomingError.missing_metric_id
      >> guard (is_soe_kind e.kind) IncomingError.invalid_kind
      >> guard (quality_matches_kind e.kind e.quality) IncomingError.quality_mismatch
  check_source (Source.other s) e = err IncomingError.unknown_source

  unfoldable pub validate_incoming : IncomingEvent F → Result IncomingError (Unit {0})
  unfolding quality_matches_kind
  validate_incoming e =
      guard (not (is_blank e.tenant_id)) IncomingError.missing_tenant_id
      >> guard (not (is_zero e.occurred_at)) IncomingError.missing_occurred_at
      >> check_source e.source e

  unfoldable pub fingerprint_dispatch : Texts F → String → String → String → String
  unfolding join_fields
  fingerprint_dispatch x tenant_id task_id event_id =
      append "v1:" (x.sha256_hex (join_fields ("dispatch" ∷ tenant_id ∷ task_id ∷ event_id ∷ [])))

  unfoldable pub fingerprint_soe : Texts F → String → String → String → String → String
  unfolding join_fields
  fingerprint_soe x tenant_id cu_code metric_id kind =
      append "v2:"
        (x.sha256_hex (join_fields ("soe" ∷ kind ∷ tenant_id ∷ cu_code ∷ metric_id ∷ [])))

  abbrev previous_text : Texts F → Option F → String
  previous_text x none = ""
  previous_text x (some v) = x.format_float v

  unfoldable pub soe_event_id : Texts F → IncomingEvent F → String
  unfolding join_fields
  soe_event_id x e = append "soe:v2:" (
      x.sha256_hex (
        join_fields (
          e.tenant_id
          ∷ e.cu_code
          ∷ e.metric_id
          ∷ e.kind
          ∷ x.format_time e.occurred_at
          ∷ e.quality
          ∷ x.format_float e.value
          ∷ previous_text x e.previous_value
          ∷ [])))
