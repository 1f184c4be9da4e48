-- ===== src/Schema.antt =====
-- Deterministic schema resolution: infrastructure/adapters/structured/schema_mapping/models.py, and what
-- the package takes from Python.
pub mod Names
pub mod Index
pub mod Resolver
pub mod UnitSafety
mod Tests
use armenian_energy_trading.Base.{String, Bool, List, Option}
use Prim.Native.Char.{Char}

-- `unicodedata.normalize("NFKC", ·)`, `str.casefold`, whether the Unicode category of a character is that
-- of a letter, number or mark, `difflib.SequenceMatcher(a, b, autojunk=False).ratio()`, and `<=` on texts.
pub record TextTools (F : Type 0) : Type 0 where
  pub nfkc : String → String
  pub casefold : String → String
  pub is_letter_number_or_mark : Char → Bool
  pub ratio : String → String → F
  pub str_less_equal : String → String → Bool

pub data FieldResolutionStatus : Type 0 where
  resolved ambiguous unresolved : FieldResolutionStatus

pub data FieldResolutionMethod : Type 0 where
  exact fuzzy : FieldResolutionMethod

-- A `ResolverConfigurationError`, by its message and the values that the message shows.
pub data ConfigurationError : Type 0 where
  not_in_unit_interval : String → ConfigurationError
  empty_canonical : ConfigurationError
  duplicate_canonical : String → String → ConfigurationError
  empty_alias : String → String → ConfigurationError
  assigned_to_both : String → String → String → ConfigurationError

pub data Configured (A : Type 0) : Type 0 where
  refused : ConfigurationError → Configured A
  configured : A → Configured A

infixl 5 ◌>>=◌
abbrev pub ◌>>=◌ : {A B : Type 0} → Configured A → (A → Configured B) → Configured B
refused e >>= next = refused e
configured a >>= next = next a

pub record CanonicalFieldSpec : Type 0 where
  pub canonical_name : String
  pub aliases : List String
  pub required : Bool

pub record FieldCandidate (F : Type 0) : Type 0 where
  pub canonical_field : String
  pub confidence : F
  pub matched_representation : String

pub record FieldResolution (F : Type 0) : Type 0 where
  pub source_field : String
  pub normalized_source_field : String
  pub status : FieldResolutionStatus
  pub canonical_field : Option String
  pub method : Option FieldResolutionMethod
  pub confidence : F
  pub candidates : List (FieldCandidate F)

pub record CanonicalFieldCollision : Type 0 where
  pub canonical_field : String
  pub source_fields : List String

pub record SchemaResolution (F : Type 0) : Type 0 where
  pub field_resolutions : List (FieldResolution F)
  pub missing_required_fields : List String
  pub collisions : List CanonicalFieldCollision
