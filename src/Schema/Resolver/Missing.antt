-- ===== src/Schema/Resolver/Missing.antt =====
-- Which required fields `resolve_schema` of schema_mapping/resolver.py reports as missing.
use armenian_energy_trading.Base.{
  String, Bool, Bool-cases, true, false, not, ◌&&◌, List, [], ◌∷◌, ◌++◌, map, keep, none, some,
  Option, ◌≡◌, refl, ap, sym, subst, ◌∙◌, inl, inr, ◌↔◌, All, Elem, Elem-map, map-Elem, ◌==◌,
  text_comparable,
}
use armenian_energy_trading.Base.Dict.{get, put, get-put}
use armenian_energy_trading.Float.{Float}
use armenian_energy_trading.Schema.{
  TextTools, FieldResolutionStatus, CanonicalFieldSpec, FieldResolution,
}
use armenian_energy_trading.Schema.Resolver.{
  DeterministicFieldResolver, resolve_schema, missing_required, resolved_sources, add_source,
  sources_of, is_present, resolve_field,
}

abbrev Sources : Type 0
Sources = List (String × List String)

module _ {A : Type 0} (p : A → Bool) where
  Elem-keep : (a : A) (xs : List A) → Elem a xs → p a ≡ true → Elem a (keep p xs)
  Elem-keep a [] m h = absurd m
  Elem-keep a (x ∷ xs) (inl e) h = rw (ap p (sym e) ∙ h) (inl e)
  Elem-keep a (x ∷ xs) (inr m) h = elim (Bool-cases (p x)) [
    | inl kept ↦ rw kept (inr (Elem-keep a xs m h))
    | inr left ↦ rw left (Elem-keep a xs m h)
  ]

  keep-Elem : (a : A) (xs : List A) → Elem a (keep p xs) → Elem a xs × (p a ≡ true)
  keep-Elem a [] m = absurd m
  keep-Elem a (x ∷ xs) m = elim (Bool-cases (p x)) [
    | inl kept ↦ elim (split (rw kept at m)) [
      | inl e ↦ (inl e, ap p e ∙ kept)
      | inr later ↦ let (m', h) = keep-Elem a xs later in (inr m', h)
    ]
    | inr left ↦ let (m', h) = keep-Elem a xs (rw left at m) in (inr m', h)
  ]
    where
      split : Elem a (x ∷ keep p xs) → Elem a (x ∷ keep p xs)
      split m = m

some-injective : {a b : String} → some a ≡ some b → a ≡ b
some-injective h = cc

get-nil : (name : String) → get {V = List String} name [] ≡ none
unfolding get
get-nil name = refl

both-true : (a b : Bool) → (a && b) ≡ true → (a ≡ true) × (b ≡ true)
both-true true b h = (refl, h)
both-true false b h = cc

put-absent :
    (name key : String) (v : List String) (d : Sources)
    → (get name (put key v d) ≡ none) ↔ ((get name d ≡ none) × ¬ (key ≡ name))
put-absent name key v d = elim (Bool-cases (key == name)) [
  | inl same ↦
      let e = (text_comparable.same_iff key name).0 same in
      let found : get name (put key v d) ≡ some v = rw (get-put key name v d, same) refl in
      ((λ h. cc (found, h)), (λ both. absurd (both.1 e)))
  | inr other ↦
      let kept : get name (put key v d) ≡ get name d = rw (get-put key name v d, other) refl in
      (
        (λ h. (sym kept ∙ h, λ e. cc (other, (text_comparable.same_iff key name).1 e))),
        (λ both. kept ∙ both.0),
      )
]

present-absent : (o : Option (List String)) → (not (is_present o) ≡ true) ↔ (o ≡ none)
present-absent none = ((λ h. refl), (λ h. refl))
present-absent (some v) = ((λ h. cc), (λ h. cc))

module _ {F : Type 0} where
  -- The header was resolved to the field.
  abbrev pub ResolvesTo : String → FieldResolution F → Type 0
  ResolvesTo name x = (x.status ≡ FieldResolutionStatus.resolved) × (x.canonical_field ≡ some name)

  add_source-absent :
      (name : String) (x : FieldResolution F) (status : FieldResolutionStatus)
      (canonical : Option String) (d : Sources)
      → x.status ≡ status
      → x.canonical_field ≡ canonical
      → (get name (add_source status canonical x.source_field d) ≡ none)
        ↔ ((get name d ≡ none) × ¬ ResolvesTo name x)
  add_source-absent name x FieldResolutionStatus.resolved (some key) d at_status at_canonical =
      let (to, back) = put-absent name key (sources_of (get key d) ++ x.source_field ∷ []) d in
      (
        (λ h. ((to h).0, λ (_, e). (to h).1 (some-injective (sym at_canonical ∙ e)))),
        (λ both. back (both.0, λ e. both.1 (at_status, at_canonical ∙ ap some e))),
      )
  add_source-absent name x FieldResolutionStatus.resolved none d at_status at_canonical =
      ((λ h. (h, λ (_, e). cc (at_canonical, e))), (λ both. both.0))
  add_source-absent name x FieldResolutionStatus.ambiguous canonical d at_status at_canonical =
      ((λ h. (h, λ (e, _). cc (at_status, e))), (λ both. both.0))
  add_source-absent name x FieldResolutionStatus.unresolved canonical d at_status at_canonical =
      ((λ h. (h, λ (e, _). cc (at_status, e))), (λ both. both.0))

  -- A field has no source exactly when it had none and no resolution is to it.
  resolved_sources-absent :
      (name : String) (d : Sources) (xs : List (FieldResolution F))
      → (get name (resolved_sources d xs) ≡ none)
        ↔ ((get name d ≡ none) × All (λ x. ¬ ResolvesTo name x) xs)
  unfolding resolved_sources
  resolved_sources-absent name d [] = ((λ h. (h, tt)), (λ both. both.0))
  resolved_sources-absent name d (x ∷ xs) =
      let (to, back) =
        resolved_sources-absent name (add_source x.status x.canonical_field x.source_field d) xs in
      let (to_one, back_one) = add_source-absent name x x.status x.canonical_field d refl refl in
      (
        (λ h. ((to_one (to h).0).0, ((to_one (to h).0).1, (to h).1))),
        (λ both. back (back_one (both.0, both.1.0), both.1.1)),
      )

  -- A field of the schema that is required and that no resolution is to.
  pub record IsMissing (specs : List CanonicalFieldSpec) (xs : List (FieldResolution F))
      (name : String) : Type 0 where
    pub spec : CanonicalFieldSpec
    pub spec_in : Elem spec specs
    pub required : spec.required ≡ true
    pub name_eq : name ≡ spec.canonical_name
    pub unclaimed : All (λ x. ¬ ResolvesTo name x) xs

module _ {F : Type 0} ⦃float : Float F⦄ (tools : TextTools F) where
  -- A name is reported as missing exactly when it is that of a required field to which no header is
  -- resolved.
  pub resolve_schema-IsMissing :
      (r : DeterministicFieldResolver F) (source_fields : List String) (name : String)
      → Elem name (resolve_schema tools r source_fields).missing_required_fields
        ↔ IsMissing r.specs (resolve_schema tools r source_fields).field_resolutions name
  unfolding resolve_schema missing_required
  resolve_schema-IsMissing r source_fields name = (sound, complete)
    where
      resolutions : List (FieldResolution F)
      resolutions = map (resolve_field tools r) source_fields

      sources : Sources
      sources = resolved_sources [] resolutions

      wanted : CanonicalFieldSpec → Bool
      wanted spec = spec.required && not (is_present (get spec.canonical_name sources))

      sound : Elem name (missing_required sources r.specs) → IsMissing r.specs resolutions name
      sound m =
          let (spec, at_spec, e) = map-Elem (λ s. s.canonical_name) name (keep wanted r.specs) m in
          let (spec_in, want) = keep-Elem wanted spec r.specs at_spec in
          let (required, absent) = both-true spec.required _ want in
          record {
            spec = spec;
            spec_in = spec_in;
            required = required;
            name_eq = e;
            unclaimed =
                subst (λ n. All (λ x. ¬ ResolvesTo n x) resolutions) (sym e)
                  ((resolved_sources-absent spec.canonical_name [] resolutions).0
                    ((present-absent (get spec.canonical_name sources)).0 absent)).1;
          }

      complete : IsMissing r.specs resolutions name → Elem name (missing_required sources r.specs)
      complete missing =
          let absent : get name sources ≡ none =
            (resolved_sources-absent name [] resolutions).1 (get-nil name, missing.unclaimed) in
          let none_at : get missing.spec.canonical_name sources ≡ none =
            subst (λ n. get n sources ≡ none) missing.name_eq absent in
          let want : wanted missing.spec ≡ true = rw (missing.required, none_at) refl in
          subst (λ n. Elem n (missing_required sources r.specs)) (sym missing.name_eq)
            (Elem-map (λ s. s.canonical_name) missing.spec (keep wanted r.specs)
              (Elem-keep wanted missing.spec r.specs missing.spec_in want))
