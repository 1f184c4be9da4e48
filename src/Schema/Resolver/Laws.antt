-- ===== src/Schema/Resolver/Laws.antt =====
-- What the resolver of schema_mapping/resolver.py answers.
use armenian_energy_trading.Base.{
  String, Bool, Bool-cases, List, [], ◌∷◌, map, keep, none, some, Option, ◌≡◌, refl, subst, inl,
  inr, ◌⊎◌, All, Elem, All-Elem, Elem-All, Elem-map,
}
use armenian_energy_trading.Base.Dict.{get}
use armenian_energy_trading.Float.{Float}
use armenian_energy_trading.Orchestration.Text.{is_empty}
use armenian_energy_trading.Schema.{
  TextTools, FieldResolutionStatus, FieldResolutionMethod, configured, CanonicalFieldSpec,
  FieldCandidate, FieldResolution,
}
use armenian_energy_trading.Schema.Names.{normalize_field_name}
use armenian_energy_trading.Schema.Index.{IndexedField}
use armenian_energy_trading.Schema.Index.Laws.{
  >>=-configured, configured-injective, Indexes, Claimed, Registered, build_mapping_index-Indexes,
}
use armenian_energy_trading.Schema.Resolver.{
  DeterministicFieldResolver, insert, sort, require_unit_interval, decide, is_ambiguous, unresolved,
  resolver, score_field, ranks_before, rank_fuzzy_candidates, resolve_over, resolve_field,
}

some-injective : {a b : String} → some a ≡ some b → a ≡ b
some-injective h = cc

module _ {A : Type 0} (precedes : A → A → Bool) (P : A → Type 0) where
  insert-All : (a : A) (xs : List A) → P a → All P xs → All P (insert precedes a xs)
  insert-All a [] p h = (p, tt)
  insert-All a (x ∷ xs) p h = elim (Bool-cases (precedes a x)) [
    | inl first ↦ rw first (p, h)
    | inr later ↦ rw later (h.0, insert-All a xs p h.1)
  ]

  sort-All : (xs : List A) → All P xs → All P (sort precedes xs)
  unfolding sort
  sort-All [] h = tt
  sort-All (x ∷ xs) h = insert-All x (sort precedes xs) h.0 (sort-All xs h.1)

-- The name is that of one of the fields.
abbrev pub IsName : List CanonicalFieldSpec → String → Type 0
IsName specs name = Elem name (map (λ spec. spec.canonical_name) specs)

module _ {F : Type 0} where
  -- The resolution of a header that a field registers.
  pub record IsExact (name : String) (resolution : FieldResolution F) : Type 0 where
    pub status_eq : resolution.status ≡ FieldResolutionStatus.resolved
    pub canonical_eq : resolution.canonical_field ≡ some name
    pub method_eq : resolution.method ≡ some FieldResolutionMethod.exact

module _ {F : Type 0} ⦃float : Float F⦄ (tools : TextTools F) where
  specs-IsName :
      (specs : List CanonicalFieldSpec) → All (λ spec. IsName specs spec.canonical_name) specs
  specs-IsName specs =
      All-Elem (λ spec. IsName specs spec.canonical_name) specs
        (λ spec m. Elem-map (λ s. s.canonical_name) spec specs m)

  resolver-Indexes :
      (specs : List CanonicalFieldSpec) (threshold margin : F) {r : DeterministicFieldResolver F}
      → resolver tools specs threshold margin ≡ configured r
      → Indexes tools (IsName specs) specs r.fields r.exact_lookup
  unfolding resolver
  resolver-Indexes specs threshold margin {r} h =
      let (t, _, h1) = >>=-configured (require_unit_interval "fuzzy_threshold" threshold) _ h in
      let (m, _, h2) = >>=-configured (require_unit_interval "ambiguity_margin" margin) _ h1 in
      let (index, made, h3) = >>=-configured _ _ h2 in
      subst (λ x. Indexes tools (IsName specs) specs x.fields x.exact_lookup)
        (configured-injective h3)
        (build_mapping_index-Indexes tools (IsName specs) specs (specs-IsName specs) made)

  Registered-IsExact :
      (r : DeterministicFieldResolver F) (name text : String) (P : String → Type 0)
      → Registered tools P r.exact_lookup name text
      → IsExact name (resolve_field tools r text)
  unfolding resolve_field
  Registered-IsExact r name text P (filled, (representation, found)) =
      rw (filled, found) (record { status_eq = refl; canonical_eq = refl; method_eq = refl })

  -- A resolver that was constructed resolves the canonical name and every alias of each of its fields
  -- exactly, and to that field.
  pub resolve_field-IsExact :
      (specs : List CanonicalFieldSpec) (threshold margin : F) {r : DeterministicFieldResolver F}
      (spec : CanonicalFieldSpec) (text : String)
      → resolver tools specs threshold margin ≡ configured r
      → Elem spec specs
      → (text ≡ spec.canonical_name) ⊎ Elem text spec.aliases
      → IsExact spec.canonical_name (resolve_field tools r text)
  resolve_field-IsExact specs threshold margin {r} spec text h m (inl same) =
      let index = resolver-Indexes specs threshold margin h in
      rw same (
        Registered-IsExact r spec.canonical_name spec.canonical_name (IsName specs)
          (Elem-All _ spec specs index.names m))
  resolve_field-IsExact specs threshold margin {r} spec text h m (inr alias) =
      let index = resolver-Indexes specs threshold margin h in
      Registered-IsExact r spec.canonical_name text (IsName specs) (
        Elem-All (Registered tools (IsName specs) r.exact_lookup spec.canonical_name) text
          spec.aliases (Elem-All _ spec specs index.aliases m) alias)

  module _ (P : String → Type 0) where
    decide-canonical :
        (threshold margin : F) (source normalized : String) (ranked : List (FieldCandidate F))
        {name : String}
        → All (λ c. P c.canonical_field) ranked
        → (decide threshold margin source normalized ranked).canonical_field ≡ some name
        → P name
    unfolding decide unresolved
    decide-canonical threshold margin source normalized [] p h = cc
    decide-canonical threshold margin source normalized (best ∷ others) {name} p h =
        elim (Bool-cases (float.less best.confidence threshold)) [
          | inl low ↦ cc (rw low at h)
          | inr high ↦
              elim (Bool-cases (
                is_ambiguous (keep (λ c. float.less_equal threshold c.confidence) (best ∷ others))
                  margin)) [
                    | inl several ↦ cc (rw (high, several) at h)
                    | inr one ↦
                        let same : some best.canonical_field ≡ some name = rw (high, one) at h in
                        subst P (some-injective same) p.0
                  ]
        ]

    scored-claimed :
        (source : String) (fields : List IndexedField)
        → All (λ field. P field.spec.canonical_name) fields
        → All (λ c. P c.canonical_field) (map (score_field tools source) fields)
    unfolding score_field
    scored-claimed source [] h = tt
    scored-claimed source (field ∷ fields) h = (h.0, scored-claimed source fields h.1)

    ranked-claimed :
        (source : String) (fields : List IndexedField)
        → All (λ field. P field.spec.canonical_name) fields
        → All (λ c. P c.canonical_field) (rank_fuzzy_candidates tools fields source)
    unfolding rank_fuzzy_candidates
    ranked-claimed source fields h =
        sort-All (ranks_before tools) (λ c. P c.canonical_field) _ (scored-claimed source fields h)

    resolve_over-claimed :
        (r : DeterministicFieldResolver F) (o : Option (String × String))
        (source normalized : String) {name : String}
        → get normalized r.exact_lookup ≡ o
        → Claimed P r.exact_lookup
        → All (λ field. P field.spec.canonical_name) r.fields
        → (resolve_over tools o r source normalized).canonical_field ≡ some name
        → P name
    resolve_over-claimed r none source normalized found claimed fields h =
        decide-canonical r.fuzzy_threshold r.ambiguity_margin source normalized _
          (ranked-claimed normalized r.fields fields) h
    resolve_over-claimed r (some (canonical, text)) source normalized found claimed fields h =
        subst P (some-injective h) (claimed normalized canonical text found)

  unresolved-canonical :
      (source normalized : String) (confidence : F) (candidates : List (FieldCandidate F))
      → (unresolved source normalized confidence candidates).canonical_field ≡ none
  unfolding unresolved
  unresolved-canonical source normalized confidence candidates = refl

  -- Whatever the header, a field that a constructed resolver resolves it to is one of the fields that it
  -- was constructed with.
  pub resolve_field-IsName :
      (specs : List CanonicalFieldSpec) (threshold margin : F) {r : DeterministicFieldResolver F}
      (source name : String)
      → resolver tools specs threshold margin ≡ configured r
      → (resolve_field tools r source).canonical_field ≡ some name
      → IsName specs name
  unfolding resolve_field
  resolve_field-IsName specs threshold margin {r} source name h answered =
      let normalized = normalize_field_name tools source in
      let index = resolver-Indexes specs threshold margin h in
      elim (Bool-cases (is_empty normalized)) [
        | inl empty ↦
            cc (rw empty at answered, unresolved-canonical source normalized (float.of_ℕ 0) [])
        | inr filled ↦
            resolve_over-claimed (IsName specs) r (get normalized r.exact_lookup) source normalized
              refl index.claimed index.fields_claimed (rw filled at answered)
      ]
