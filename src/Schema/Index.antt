-- ===== src/Schema/Index.antt =====
-- The mapping index of infrastructure/adapters/structured/schema_mapping/resolver.py.
pub mod Laws
use armenian_energy_trading.Base.{
  String, Bool, List, [], ◌∷◌, ◌++◌, Option, none, some, if◌then◌else◌, ◌==◌, text_comparable,
}
use armenian_energy_trading.Base.Dict.{get, put}
use armenian_energy_trading.Ml.Cohort.{contains}
use armenian_energy_trading.Orchestration.Text.{is_empty}
use armenian_energy_trading.Schema.{
  TextTools, ConfigurationError, empty_canonical, duplicate_canonical, empty_alias,
  assigned_to_both, Configured, refused, configured, ◌>>=◌, CanonicalFieldSpec,
}
use armenian_energy_trading.Schema.Names.{normalize_field_name}

-- From a normalized token to the canonical name and the text that it was made from.
abbrev pub Lookup : Type 0
Lookup = List (String × (String × String))

pub record IndexedField : Type 0 where
  pub spec : CanonicalFieldSpec
  pub match_targets : List (String × String)

-- `_register_exact` once the token is looked up.
abbrev pub register_over :
    Option (String × String) → Lookup → String → String → String → Configured Lookup
register_over none exact_lookup token canonical_name representation =
    configured (put token (canonical_name, representation) exact_lookup)
register_over (some (existing, _)) exact_lookup token canonical_name representation =
    if existing == canonical_name
    then configured exact_lookup
    else refused (assigned_to_both token existing canonical_name)

unfoldable pub register_exact : Lookup → String → String → String → Configured Lookup
register_exact exact_lookup token canonical_name representation =
    register_over (get token exact_lookup) exact_lookup token canonical_name representation

-- The tokens that a field has and its match targets, with one more alias.
abbrev pub add_target :
    String → String → List String × List (String × String) → List String × List (String × String)
add_target token alias (tokens, targets) =
    if contains token tokens
    then (tokens, targets)
    else (token ∷ tokens, targets ++ (token, alias) ∷ [])

module _ {F : Type 0} (tools : TextTools F) where
  -- The duplicate test of the first loop, then the rest of its turn.
  abbrev pub require_new : Option String → String → Configured Lookup → Configured Lookup
  require_new none name rest = rest
  require_new (some previous) name rest = refused (duplicate_canonical name previous)

  -- The first loop over the specs.
  unfoldable pub register_canonicals :
      List (String × String) → Lookup → List CanonicalFieldSpec → Configured Lookup
  register_canonicals seen exact_lookup [] = configured exact_lookup
  register_canonicals seen exact_lookup (spec ∷ specs) =
      let token = normalize_field_name tools spec.canonical_name in
      let rest =
        register_exact exact_lookup token spec.canonical_name spec.canonical_name >>= λ larger.
        register_canonicals (put token spec.canonical_name seen) larger specs in
      if is_empty token
      then refused empty_canonical
      else require_new (get token seen) spec.canonical_name rest

  -- The loop over the aliases of a spec.
  unfoldable pub register_aliases :
      String
      → Lookup
      → List String × List (String × String)
      → List String
      → Configured (Lookup × List (String × String))
  register_aliases name exact_lookup (tokens, targets) [] = configured (exact_lookup, targets)
  register_aliases name exact_lookup state (alias ∷ aliases) =
      let token = normalize_field_name tools alias in
      let rest = register_exact exact_lookup token name alias >>= λ larger.
      register_aliases name larger (add_target token alias state) aliases in
      if is_empty token then refused (empty_alias alias name) else rest

  -- The second loop over the specs.
  unfoldable pub index_fields :
      Lookup → List CanonicalFieldSpec → Configured (List IndexedField × Lookup)
  index_fields exact_lookup [] = configured ([], exact_lookup)
  index_fields exact_lookup (spec ∷ specs) =
      let token = normalize_field_name tools spec.canonical_name in
      register_aliases spec.canonical_name exact_lookup
        (token ∷ [], (token, spec.canonical_name) ∷ []) spec.aliases
      >>= λ registered. index_fields (registered.0) specs >>= λ indexed.
          configured (record { spec = spec; match_targets = registered.1 } ∷ indexed.0, indexed.1)

  unfoldable pub build_mapping_index :
      List CanonicalFieldSpec → Configured (List IndexedField × Lookup)
  build_mapping_index specs =
      register_canonicals [] [] specs >>= λ exact_lookup. index_fields exact_lookup specs
