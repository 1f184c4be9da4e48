-- ===== src/Schema/UnitSafety/Columns.antt =====
-- The column index of consumption_mapping.py.
use armenian_energy_trading.Base.{
  ℕ, zero, suc, ◌+◌, ◌<◌, String, Bool-cases, List, [], ◌∷◌, none, some, Option, ◌≡◌, refl, ap, sym,
  ◌∙◌, inl, inr, ◌⊎◌, length, ◌==◌, text_comparable, arith,
}
use armenian_energy_trading.Base.Dict.{get, get-put}
use armenian_energy_trading.Schema.{FieldResolutionStatus, FieldResolution, SchemaResolution}
use armenian_energy_trading.Schema.Resolver.Missing.{ResolvesTo}
use armenian_energy_trading.Schema.UnitSafety.{add_column, columns_from, canonical_column_index}

some-nat : {a b : ℕ} → some a ≡ some b → a ≡ b
some-nat h = cc

module _ {F : Type 0} where
  -- The resolution at an index is to the field.
  abbrev pub AtColumn : String → List (FieldResolution F) → ℕ → Type 0
  AtColumn name [] index = ⊥
  AtColumn name (x ∷ xs) zero = ResolvesTo name x
  AtColumn name (x ∷ xs) (suc index) = AtColumn name xs index

  -- A column that the loop adds from an index on is of a resolution to the field at its place.
  abbrev pub Later : String → List (FieldResolution F) → ℕ → ℕ → Type 0
  Later name xs start column =
      (place : ℕ) × (column ≡ start + place) × (place < length xs) × AtColumn name xs place

  add_column-get :
      (name : String) (x : FieldResolution F) (status : FieldResolutionStatus)
      (canonical : Option String) (index : ℕ) (mapping : List (String × ℕ)) {column : ℕ}
      → x.status ≡ status
      → x.canonical_field ≡ canonical
      → get name (add_column status canonical index mapping) ≡ some column
      → (get name mapping ≡ some column) ⊎ ((column ≡ index) × ResolvesTo name x)
  add_column-get name x FieldResolutionStatus.resolved (some key) index mapping s c h =
      elim (Bool-cases (key == name)) [
        | inl same ↦
            let e : some index ≡ some _ = rw (get-put key name index mapping, same) at h in
            inr (sym (some-nat e), (s, c ∙ ap some ((text_comparable.same_iff key name).0 same)))
        | inr other ↦ inl (rw (get-put key name index mapping, other) at h)
      ]
  add_column-get name x FieldResolutionStatus.resolved none index mapping s c h = inl h
  add_column-get name x FieldResolutionStatus.ambiguous canonical index mapping s c h = inl h
  add_column-get name x FieldResolutionStatus.unresolved canonical index mapping s c h = inl h

  columns_from-Later :
      (name : String) (index : ℕ) (mapping : List (String × ℕ)) (xs : List (FieldResolution F))
      {column : ℕ}
      → get name (columns_from index mapping xs) ≡ some column
      → (get name mapping ≡ some column) ⊎ Later name xs index column
  unfolding columns_from
  columns_from-Later name index mapping [] h = inl h
  columns_from-Later name index mapping (x ∷ xs) {column} h =
      elim (columns_from-Later name (index + 1)
        (add_column x.status x.canonical_field index mapping) xs h) [
          | inl here ↦
              elim (add_column-get name x x.status x.canonical_field index mapping refl refl here) [
                | inl before ↦ inl before
                | inr (e, to) ↦ inr (0, omega (arith, e), omega arith, to)
              ]
          | inr (place, e, bound, to) ↦ inr (suc place, omega (arith, e), omega (arith, bound), to)
        ]

  -- The column that the index has for a field is a place of the schema, and the header at that place is
  -- resolved to the field.
  pub canonical_column_index-AtColumn :
      (schema : SchemaResolution F) (name : String) {column : ℕ}
      → get name (canonical_column_index schema) ≡ some column
      → (column < length schema.field_resolutions) × AtColumn name schema.field_resolutions column
  unfolding canonical_column_index get
  canonical_column_index-AtColumn schema name {column} h =
      elim (columns_from-Later name 0 [] schema.field_resolutions h) [
        | inl empty ↦ cc
        | inr (place, e, bound, to) ↦
            let same : column ≡ place = omega (arith, e) in rw same (bound, to)
      ]
