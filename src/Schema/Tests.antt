-- ===== src/Schema/Tests.antt =====
-- The theorems on schema resolution at two fields of a meter file.
use armenian_energy_trading.Base.{
  ℕ, true, List, [], ◌∷◌, ◌≡◌, refl, ◌↔◌, inl, inr, Elem, some, if◌then◌else◌, ◌==◌,
  text_comparable, String, ◌<◌, map, none,
}
use armenian_energy_trading.Base.Dict.{get, put}
use armenian_energy_trading.Float.Whole.{whole_float}
use armenian_energy_trading.Orchestration.Text.{is_space, lstrip, rstrip}
use armenian_energy_trading.Schema.{
  TextTools, configured, CanonicalFieldSpec, FieldResolution, FieldResolutionStatus,
  FieldResolutionMethod, SchemaResolution,
}
use armenian_energy_trading.Ml.Errors.{Each}
use armenian_energy_trading.Schema.Names.{normalize_field_name}
use armenian_energy_trading.Schema.Index.{
  register_exact, register_canonicals, register_aliases, index_fields, build_mapping_index,
}
use armenian_energy_trading.Schema.Resolver.{
  DeterministicFieldResolver, require_unit_interval, resolver, resolve_field, resolve_schema,
}
use armenian_energy_trading.Schema.Resolver.Laws.{
  IsExact, IsName, resolve_field-IsExact, resolve_field-IsName,
}
use armenian_energy_trading.Schema.Resolver.Missing.{IsMissing, resolve_schema-IsMissing}
use armenian_energy_trading.Schema.UnitSafety.{
  PowerUnit, is_energy_like, header_claims_conflicting_unit, apply_header_unit_policy,
  apply_consumption_unit_safety, columns_from, canonical_column_index,
}
use armenian_energy_trading.Schema.UnitSafety.Laws.{Judged, apply_consumption_unit_safety-Judged}
use armenian_energy_trading.Schema.UnitSafety.Columns.{AtColumn, canonical_column_index-AtColumn}

-- Texts are normalized already and all characters are letters; texts match wholly or not at all.
abbrev tools : TextTools ℕ
tools = record {
  nfkc = λ s. s;
  casefold = λ s. s;
  is_letter_number_or_mark = λ c. true;
  ratio = λ a b. if a == b then 1 else 0;
  str_less_equal = λ a b. true;
}

abbrev load : CanonicalFieldSpec
load = record { canonical_name = "load"; aliases = "mw" ∷ []; required = true }

abbrev stamp : CanonicalFieldSpec
stamp = record { canonical_name = "time"; aliases = []; required = true }

abbrev specs : List CanonicalFieldSpec
specs = load ∷ stamp ∷ []

abbrev fields : DeterministicFieldResolver ℕ
fields = record {
  fuzzy_threshold = 1;
  ambiguity_margin = 0;
  specs = specs;
  fields =
      record { spec = load; match_targets = ("load", "load") ∷ ("mw", "mw") ∷ [] }
      ∷ record { spec = stamp; match_targets = ("time", "time") ∷ [] }
      ∷ [];
  exact_lookup =
      ("load", ("load", "load")) ∷ ("time", ("time", "time")) ∷ ("mw", ("load", "mw")) ∷ [];
}

constructed : resolver tools specs 1 0 ≡ configured fields
unfolding resolver require_unit_interval build_mapping_index register_canonicals register_exact
    index_fields register_aliases normalize_field_name lstrip rstrip is_space get put
constructed = refl

resolve_field-IsExact_example : IsExact "load" (resolve_field tools fields "mw")
resolve_field-IsExact_example =
    resolve_field-IsExact tools specs 1 0 load "mw" constructed (inl refl) (inr (inl refl))

resolves_mw : (resolve_field tools fields "mw").canonical_field ≡ some "load"
unfolding resolve_field normalize_field_name lstrip rstrip is_space get
resolves_mw = refl

resolve_field-IsName_example : IsName specs "load"
resolve_field-IsName_example =
    resolve_field-IsName tools specs 1 0 "mw" "load" constructed resolves_mw

resolve_schema-IsMissing_example :
    Elem "time" (resolve_schema tools fields ("mw" ∷ [])).missing_required_fields
    ↔ IsMissing specs (resolve_schema tools fields ("mw" ∷ [])).field_resolutions "time"
resolve_schema-IsMissing_example = resolve_schema-IsMissing tools fields ("mw" ∷ []) "time"

-- A header of energy and one of power, both matched to the measurement.
abbrev header : String → FieldResolution ℕ
header normalized = record {
  source_field = normalized;
  normalized_source_field = normalized;
  status = FieldResolutionStatus.resolved;
  canonical_field = some "value_mw";
  method = some FieldResolutionMethod.exact;
  confidence = 1;
  candidates = [];
}

abbrev meter_schema : SchemaResolution ℕ
meter_schema = record {
  field_resolutions = header "load kwh" ∷ header "load mw" ∷ [];
  missing_required_fields = "consumer_id" ∷ "timestamp" ∷ [];
  collisions = [];
}

apply_consumption_unit_safety-Judged_example :
    Each
      (Judged "mw")
      meter_schema.field_resolutions
      (apply_consumption_unit_safety tools PowerUnit.mw meter_schema).field_resolutions
apply_consumption_unit_safety-Judged_example =
    apply_consumption_unit_safety-Judged tools PowerUnit.mw meter_schema

indexed : get "value_mw" (canonical_column_index meter_schema) ≡ some 1
unfolding canonical_column_index columns_from get put
indexed = refl

canonical_column_index-AtColumn_example :
    (1 < 2) × AtColumn "value_mw" meter_schema.field_resolutions 1
canonical_column_index-AtColumn_example =
    canonical_column_index-AtColumn meter_schema "value_mw" indexed

-- The energy header is set aside, the power header stays.
kept_headers :
    map
      (λ r. r.canonical_field)
      (apply_consumption_unit_safety tools PowerUnit.mw meter_schema).field_resolutions
    ≡ none ∷ some "value_mw" ∷ []
unfolding apply_consumption_unit_safety apply_header_unit_policy header_claims_conflicting_unit
    is_energy_like is_space
kept_headers = refl

-- A header that ends in `kw h` names an energy and stays.
kw_h_stays : apply_header_unit_policy "mw" (header "load kw h") ≡ header "load kw h"
unfolding apply_header_unit_policy header_claims_conflicting_unit is_energy_like is_space
kw_h_stays = refl
