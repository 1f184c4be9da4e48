-- ===== src/Schema/Resolver.antt =====
-- The resolver of infrastructure/adapters/structured/schema_mapping/resolver.py.
pub mod Laws
pub mod Missing
use armenian_energy_trading.Base.{
  ℕ, String, Bool, true, false, not, ◌&&◌, ◌||◌, List, [], ◌∷◌, ◌++◌, map, keep, length, ltb,
  Option, none, some, if◌then◌else◌,
}
use armenian_energy_trading.Base.Dict.{get, put}
use armenian_energy_trading.Float.{Float}
use armenian_energy_trading.Orchestration.Text.{is_empty}
use armenian_energy_trading.Schema.{
  TextTools, FieldResolutionStatus, FieldResolutionMethod, ConfigurationError, not_in_unit_interval,
  Configured, refused, configured, ◌>>=◌, CanonicalFieldSpec, FieldCandidate, FieldResolution,
  CanonicalFieldCollision, SchemaResolution,
}
use armenian_energy_trading.Schema.Names.{normalize_field_name}
use armenian_energy_trading.Schema.Index.{Lookup, IndexedField, build_mapping_index}

pub record DeterministicFieldResolver (F : Type 0) : Type 0 where
  pub fuzzy_threshold : F
  pub ambiguity_margin : F
  pub specs : List CanonicalFieldSpec
  pub fields : List IndexedField
  pub exact_lookup : Lookup

module _ {A : Type 0} (precedes : A → A → Bool) where
  abbrev pub insert : A → List A → List A
  insert a [] = a ∷ []
  insert a (b ∷ bs) = let rest = insert a bs in if precedes a b then a ∷ b ∷ bs else b ∷ rest

  -- A stable sort.
  unfoldable pub sort : List A → List A
  sort [] = []
  sort (a ∷ rest) = insert a (sort rest)

module _ {F : Type 0} ⦃float : Float F⦄ where
  -- `_require_unit_interval` of a float.
  unfoldable pub require_unit_interval : String → F → Configured F
  require_unit_interval name number =
      if not (float.is_finite number)
        || (float.less number (float.of_ℕ 0) || float.less (float.of_ℕ 1) number)
      then refused (not_in_unit_interval name)
      else configured number

  unfoldable pub unresolved : String → String → F → List (FieldCandidate F) → FieldResolution F
  unresolved source_field normalized confidence candidates = record {
    source_field = source_field;
    normalized_source_field = normalized;
    status = FieldResolutionStatus.unresolved;
    canonical_field = none;
    method = none;
    confidence = confidence;
    candidates = candidates;
  }

  unfoldable pub is_ambiguous : List (FieldCandidate F) → F → Bool
  is_ambiguous (a ∷ b ∷ rest) margin = float.less (float.sub a.confidence b.confidence) margin
  is_ambiguous _ margin = false

  unfoldable pub relevant_ambiguous_candidates :
      FieldCandidate F → List (FieldCandidate F) → F → List (FieldCandidate F)
  relevant_ambiguous_candidates best credible margin =
      keep (λ c. float.less (float.sub best.confidence c.confidence) margin) credible

  abbrev pub resolved_as :
      String → String → FieldResolutionMethod → FieldCandidate F → FieldResolution F
  resolved_as source_field normalized method candidate = record {
    source_field = source_field;
    normalized_source_field = normalized;
    status = FieldResolutionStatus.resolved;
    canonical_field = some candidate.canonical_field;
    method = some method;
    confidence = candidate.confidence;
    candidates = candidate ∷ [];
  }

  -- The decision on the ranked candidates.
  unfoldable pub decide : F → F → String → String → List (FieldCandidate F) → FieldResolution F
  decide threshold margin source_field normalized [] =
      unresolved source_field normalized (float.of_ℕ 0) []
  decide threshold margin source_field normalized (best ∷ others) =
      let credible = keep (λ c. float.less_equal threshold c.confidence) (best ∷ others) in
      if float.less best.confidence threshold
      then unresolved source_field normalized best.confidence (best ∷ [])
      else if is_ambiguous credible margin
      then record {
        source_field = source_field;
        normalized_source_field = normalized;
        status = FieldResolutionStatus.ambiguous;
        canonical_field = none;
        method = none;
        confidence = best.confidence;
        candidates = relevant_ambiguous_candidates best credible margin;
      }
      else resolved_as source_field normalized FieldResolutionMethod.fuzzy best

module _ {F : Type 0} ⦃float : Float F⦄ (tools : TextTools F) where
  -- `__init__`
  unfoldable pub resolver :
      List CanonicalFieldSpec → F → F → Configured (DeterministicFieldResolver F)
  resolver field_specs fuzzy_threshold ambiguity_margin =
      require_unit_interval "fuzzy_threshold" fuzzy_threshold >>= λ threshold.
      require_unit_interval "ambiguity_margin" ambiguity_margin >>= λ margin.
      build_mapping_index tools field_specs >>= λ index. configured (record {
        fuzzy_threshold = threshold;
        ambiguity_margin = margin;
        specs = field_specs;
        fields = index.0;
        exact_lookup = index.1;
      })

  -- The inner loop: the best score so far and its text.
  abbrev pub best_target : String → F × String → List (String × String) → F × String
  best_target source best [] = best
  best_target source (best_score, representation) ((target, original) ∷ targets) =
      let score = tools.ratio source target in
      best_target source
        (if float.less best_score score then (score, original) else (best_score, representation))
        targets

  unfoldable pub score_field : String → IndexedField → FieldCandidate F
  score_field source indexed =
      let best =
        best_target source (float.sub (float.of_ℕ 0) (float.of_ℕ 1), indexed.spec.canonical_name)
          indexed.match_targets in
      record {
        canonical_field = indexed.spec.canonical_name;
        confidence = best.0;
        matched_representation = best.1;
      }

  -- `(-a.confidence, a.canonical_field) <= (-b.confidence, b.canonical_field)`
  abbrev pub ranks_before : FieldCandidate F → FieldCandidate F → Bool
  ranks_before a b =
      if float.equal a.confidence b.confidence
      then tools.str_less_equal a.canonical_field b.canonical_field
      else float.less b.confidence a.confidence

  unfoldable pub rank_fuzzy_candidates : List IndexedField → String → List (FieldCandidate F)
  rank_fuzzy_candidates fields source = sort ranks_before (map (score_field source) fields)

  -- `resolve_field` once the normalized name is looked up.
  abbrev pub resolve_over :
      Option (String × String) → DeterministicFieldResolver F → String → String → FieldResolution F
  resolve_over (some (canonical_name, representation)) r source_field normalized =
      resolved_as source_field normalized FieldResolutionMethod.exact (record {
        canonical_field = canonical_name;
        confidence = float.of_ℕ 1;
        matched_representation = representation;
      })
  resolve_over none r source_field normalized =
      decide r.fuzzy_threshold r.ambiguity_margin source_field normalized
        (rank_fuzzy_candidates r.fields normalized)

  unfoldable pub resolve_field : DeterministicFieldResolver F → String → FieldResolution F
  resolve_field r source_field =
      let normalized = normalize_field_name tools source_field in
      if is_empty normalized
      then unresolved source_field normalized (float.of_ℕ 0) []
      else resolve_over (get normalized r.exact_lookup) r source_field normalized

-- `resolved_sources.setdefault(canonical_field, []).append(source_field)`
abbrev pub sources_of : Option (List String) → List String
sources_of none = []
sources_of (some names) = names

abbrev pub add_source :
    FieldResolutionStatus
    → Option String
    → String
    → List (String × List String)
    → List (String × List String)
add_source FieldResolutionStatus.resolved (some canonical_field) source_field sources =
    put canonical_field (sources_of (get canonical_field sources) ++ source_field ∷ []) sources
add_source _ _ source_field sources = sources

abbrev pub is_present : {A : Type 0} → Option A → Bool
is_present none = false
is_present (some a) = true

-- The comprehension over the specs.
unfoldable pub missing_required :
    List (String × List String) → List CanonicalFieldSpec → List String
missing_required sources specs =
    map (λ spec. spec.canonical_name)
      (keep (λ spec. spec.required && not (is_present (get spec.canonical_name sources))) specs)

module _ {F : Type 0} where
  unfoldable pub resolved_sources :
      List (String × List String) → List (FieldResolution F) → List (String × List String)
  resolved_sources sources [] = sources
  resolved_sources sources (x ∷ xs) =
      resolved_sources (add_source x.status x.canonical_field x.source_field sources) xs

module _ {F : Type 0} (tools : TextTools F) where
  unfoldable pub collisions_of : List (String × List String) → List CanonicalFieldCollision
  collisions_of sources =
      map (λ item. record { canonical_field = item.0; source_fields = item.1 })
        (keep (λ item. ltb 1 (length item.1)) (sort (λ a b. tools.str_less_equal a.0 b.0) sources))

module _ {F : Type 0} ⦃float : Float F⦄ (tools : TextTools F) where
  unfoldable pub resolve_schema : DeterministicFieldResolver F → List String → SchemaResolution F
  resolve_schema r source_fields =
      let resolutions = map (resolve_field tools r) source_fields in
      let sources = resolved_sources [] resolutions in
      record {
        field_resolutions = resolutions;
        missing_required_fields = missing_required sources r.specs;
        collisions = collisions_of tools sources;
      }
