-- ===== src/Schema/UnitSafety.antt =====
-- infrastructure/adapters/structured/consumption_mapping.py, and PowerUnit of normalization/power.py.
pub mod Laws
pub mod Units
pub mod Columns
use armenian_energy_trading.Base.{
  ℕ, ◌+◌, String, Bool, true, false, not, ◌&&◌, ◌||◌, List, [], ◌∷◌, map, keep, all, length,
  nat_beq, Option, none, some, if◌then◌else◌, ◌==◌, text_comparable,
}
use armenian_energy_trading.Base.Dict.{get, put}
use armenian_energy_trading.Ml.Cohort.{contains, subset}
use armenian_energy_trading.Orchestration.Exceptions.{Outcome, returned, raised, error}
use armenian_energy_trading.Schema.{
  TextTools, FieldResolutionStatus, FieldResolutionMethod, CanonicalFieldSpec, FieldResolution,
  SchemaResolution,
}
use armenian_energy_trading.Schema.Names.{split}
use armenian_energy_trading.Schema.Resolver.{resolved_sources, is_present, collisions_of}

pub data PowerUnit : Type 0 where
  mw kw : PowerUnit

-- `_POWER_TOKENS`
abbrev pub power_token : PowerUnit → String
power_token PowerUnit.mw = "mw"
power_token PowerUnit.kw = "kw"

abbrev pub known_power_tokens : List String
known_power_tokens = "mw" ∷ "kw" ∷ []

abbrev pub energy_last_tokens : List String
energy_last_tokens = "mwh" ∷ "kwh" ∷ "wh" ∷ "w" ∷ "hour" ∷ []

abbrev pub required_canonical_order : List String
required_canonical_order = "consumer_id" ∷ "timestamp" ∷ "value_mw" ∷ []

abbrev pub alias_for : PowerUnit → String
alias_for PowerUnit.mw = "Consumption_MW"
alias_for PowerUnit.kw = "Consumption_kW"

unfoldable pub default_consumption_field_specs : PowerUnit → List CanonicalFieldSpec
default_consumption_field_specs unit =
    record { canonical_name = "consumer_id"; aliases = []; required = true }
    ∷ record { canonical_name = "timestamp"; aliases = []; required = true }
    ∷ record { canonical_name = "value_mw"; aliases = alias_for unit ∷ []; required = true }
    ∷ []

unfoldable pub validated_consumption_field_specs :
    List CanonicalFieldSpec → Outcome (List CanonicalFieldSpec)
validated_consumption_field_specs specs =
    let names = map (λ spec. spec.canonical_name) specs in
    if subset names required_canonical_order
      && (subset required_canonical_order names && nat_beq (length names) 3)
    then (if all (λ spec. spec.required) specs
        then returned specs
        else raised (error "Consumption canonical fields must all be required"))
    else raised
        (error "Consumption field specs must be exactly consumer_id, timestamp, and value_mw")

-- `tokens[-1] if tokens else ""`
abbrev pub last_token : List String → String
last_token [] = ""
last_token (token ∷ []) = token
last_token (token ∷ next ∷ tokens) = last_token (next ∷ tokens)

-- `len(tokens) >= 2 and tokens[-2:] == ["mw", "h"]`
abbrev pub ends_in_mw_h : List String → Bool
ends_in_mw_h [] = false
ends_in_mw_h (token ∷ []) = false
ends_in_mw_h (token ∷ next ∷ []) = (token == "mw") && (next == "h")
ends_in_mw_h (token ∷ next ∷ another ∷ tokens) = ends_in_mw_h (next ∷ another ∷ tokens)

unfoldable pub is_energy_like : List String → Bool
is_energy_like [] = false
is_energy_like (token ∷ tokens) =
    contains (last_token (token ∷ tokens)) energy_last_tokens || ends_in_mw_h (token ∷ tokens)

unfoldable pub header_claims_conflicting_unit : List String → String → Bool
header_claims_conflicting_unit [] expected = false
header_claims_conflicting_unit (token ∷ tokens) expected =
    let last = last_token (token ∷ tokens) in
    is_energy_like (token ∷ tokens) || (contains last known_power_tokens && not (last == expected))

-- One turn of the loop of `canonical_column_index`.
abbrev pub add_column :
    FieldResolutionStatus → Option String → ℕ → List (String × ℕ) → List (String × ℕ)
add_column FieldResolutionStatus.resolved (some name) index mapping = put name index mapping
add_column _ _ index mapping = mapping

module _ {F : Type 0} where
  abbrev pub mark_unresolved : FieldResolution F → FieldResolution F
  mark_unresolved resolution = record resolution {
    status = FieldResolutionStatus.unresolved;
    canonical_field = none;
    method = none;
  }

  -- The policy on a header that is resolved to `value_mw`, by its method.
  abbrev pub measured_policy :
      Option FieldResolutionMethod → String → FieldResolution F → FieldResolution F
  measured_policy (some FieldResolutionMethod.fuzzy) expected resolution =
      let tokens = split resolution.normalized_source_field in
      if not (last_token tokens == expected) || is_energy_like tokens
      then mark_unresolved resolution
      else resolution
  measured_policy _ expected resolution =
      if header_claims_conflicting_unit (split resolution.normalized_source_field) expected
      then mark_unresolved resolution
      else resolution

  abbrev pub policy_for :
      FieldResolutionStatus → Option String → String → FieldResolution F → FieldResolution F
  policy_for FieldResolutionStatus.resolved (some name) expected resolution =
      if name == "value_mw"
      then measured_policy resolution.method expected resolution
      else resolution
  policy_for _ _ expected resolution = resolution

  unfoldable pub apply_header_unit_policy : String → FieldResolution F → FieldResolution F
  apply_header_unit_policy expected resolution =
      policy_for resolution.status resolution.canonical_field expected resolution

  unfoldable pub apply_consumption_unit_safety :
      TextTools F → PowerUnit → SchemaResolution F → SchemaResolution F
  apply_consumption_unit_safety tools unit schema =
      let resolutions =
        map (apply_header_unit_policy (power_token unit)) schema.field_resolutions in
      let sources = resolved_sources [] resolutions in
      record {
        field_resolutions = resolutions;
        missing_required_fields =
            keep (λ name. not (is_present (get name sources))) required_canonical_order;
        collisions = collisions_of tools sources;
      }

  unfoldable pub columns_from : ℕ → List (String × ℕ) → List (FieldResolution F) → List (String × ℕ)
  columns_from index mapping [] = mapping
  columns_from index mapping (x ∷ xs) =
      columns_from (index + 1) (add_column x.status x.canonical_field index mapping) xs

  unfoldable pub canonical_column_index : SchemaResolution F → List (String × ℕ)
  canonical_column_index schema = columns_from 0 [] schema.field_resolutions
