-- ===== src/Schema/UnitSafety/Laws.antt =====
-- What the unit safety of consumption_mapping.py leaves resolved.
use armenian_energy_trading.Base.{
  String, Bool, Bool-cases, true, false, not, ◌||◌, List, [], ◌∷◌, map, none, some, Option, ◌≡◌,
  ◌≢◌, refl, ap, ◌∙◌, ◌⊎◌, inl, inr, ◌↔◌, if◌then◌else◌, ◌==◌, text_comparable,
}
use armenian_energy_trading.Ml.Errors.{Each}
use armenian_energy_trading.Schema.{
  TextTools, FieldResolutionStatus, FieldResolutionMethod, FieldResolution, SchemaResolution,
}
use armenian_energy_trading.Schema.Names.{split}
use armenian_energy_trading.Schema.Resolver.Missing.{ResolvesTo}
use armenian_energy_trading.Schema.UnitSafety.{
  PowerUnit, power_token, last_token, is_energy_like, header_claims_conflicting_unit,
  mark_unresolved, measured_policy, policy_for, apply_header_unit_policy,
  apply_consumption_unit_safety,
}
use armenian_energy_trading.Schema.UnitSafety.Units.{
  NamesEnergy, NamesOtherPower, either-true, true-either, is_energy_like-NamesEnergy, differ,
  claims_iff,
}

module _ {F : Type 0} where
  abbrev pub tokens_of : FieldResolution F → List String
  tokens_of r = split r.normalized_source_field

  -- What speaks against taking a header for the measurement.
  abbrev pub Refused : String → FieldResolution F → Type 0
  Refused expected r =
      (NamesEnergy (tokens_of r) ⊎ NamesOtherPower expected (tokens_of r))
      ⊎ ((r.method ≡ some FieldResolutionMethod.fuzzy) × (last_token (tokens_of r) ≢ expected))

  -- The resolution of a header before the unit safety and after it.
  pub data Judged (expected : String) (r after : FieldResolution F) : Type 0 where
    not_measured : ¬ ResolvesTo "value_mw" r → after ≡ r → Judged expected r after
    kept : ResolvesTo "value_mw" r → ¬ Refused expected r → after ≡ r → Judged expected r after
    refused :
        ResolvesTo "value_mw" r
        → Refused expected r
        → after ≡ record r {
          status = FieldResolutionStatus.unresolved;
          canonical_field = none;
          method = none;
        }
        → Judged expected r after

  decided :
      (expected : String) (r : FieldResolution F) (b : Bool)
      → ResolvesTo "value_mw" r
      → (b ≡ true) ↔ Refused expected r
      → Judged expected r (if b then mark_unresolved r else r)
  decided expected r true to (says, holds) = refused to (says refl) refl
  decided expected r false to (says, holds) = kept to (λ x. cc (holds x)) refl

  claimed_iff :
      (expected : String) (r : FieldResolution F)
      → ¬ (r.method ≡ some FieldResolutionMethod.fuzzy)
      → (header_claims_conflicting_unit (tokens_of r) expected ≡ true) ↔ Refused expected r
  claimed_iff expected r other =
      let (to, back) = claims_iff (tokens_of r) expected in
      (
        (λ h. inl (to h)),
        λ x. elim x [ inl named ↦ back named | inr (fuzzy, _) ↦ absurd (other fuzzy) ],
      )

  fuzzy_iff :
      (expected : String) (r : FieldResolution F)
      → r.method ≡ some FieldResolutionMethod.fuzzy
      → ((not (last_token (tokens_of r) == expected) || is_energy_like (tokens_of r)) ≡ true)
        ↔ Refused expected r
  fuzzy_iff expected r fuzzy =
      let last = last_token (tokens_of r) in
      let energy = is_energy_like-NamesEnergy (tokens_of r) in
      (
        (λ h. elim (either-true (not (last == expected)) _ h) [
          | inl apart ↦ inr (fuzzy, (differ last expected).0 apart)
          | inr named ↦ inl (inl (energy.0 named))
        ]),
        λ x. true-either (not (last == expected)) _ (elim x [
          | inl (inl named) ↦ inr (energy.1 named)
          | inl (inr (_, apart)) ↦ inl ((differ last expected).1 apart)
          | inr (_, apart) ↦ inl ((differ last expected).1 apart)
        ]),
      )

  measured-Judged :
      (expected : String) (r : FieldResolution F) (method : Option FieldResolutionMethod)
      → r.method ≡ method
      → ResolvesTo "value_mw" r
      → Judged expected r (measured_policy method expected r)
  measured-Judged expected r none e to =
      decided expected r _ to (claimed_iff expected r (λ f. cc (e, f)))
  measured-Judged expected r (some FieldResolutionMethod.exact) e to =
      decided expected r _ to (claimed_iff expected r (λ f. cc (e, f)))
  measured-Judged expected r (some FieldResolutionMethod.fuzzy) e to =
      decided expected r _ to (fuzzy_iff expected r e)

  untouched :
      (expected : String) (r : FieldResolution F) → ¬ ResolvesTo "value_mw" r → Judged expected r r
  untouched expected r n = not_measured n refl

  policy-Judged :
      (expected : String) (r : FieldResolution F) (status : FieldResolutionStatus)
      (canonical : Option String)
      → r.status ≡ status
      → r.canonical_field ≡ canonical
      → Judged expected r (policy_for status canonical expected r)
  policy-Judged expected r FieldResolutionStatus.resolved (some name) s c =
      elim (Bool-cases (name == "value_mw")) [
        | inl same ↦
            let at_name = (text_comparable.same_iff name "value_mw").0 same in
            rw same (measured-Judged expected r r.method refl (s, c ∙ ap some at_name))
        | inr other ↦ rw other (
            untouched expected r (λ (_, e).
              let name_eq : name ≡ "value_mw" = cc (c, e) in
              cc (other, (text_comparable.same_iff name "value_mw").1 name_eq)))
      ]
  policy-Judged expected r FieldResolutionStatus.resolved none s c =
      untouched expected r (λ (_, e). cc (c, e))
  policy-Judged expected r FieldResolutionStatus.ambiguous canonical s c =
      untouched expected r (λ (e, _). cc (s, e))
  policy-Judged expected r FieldResolutionStatus.unresolved canonical s c =
      untouched expected r (λ (e, _). cc (s, e))

  Each-Judged :
      (expected : String) (xs : List (FieldResolution F))
      → Each (Judged expected) xs (map (apply_header_unit_policy expected) xs)
  unfolding apply_header_unit_policy
  Each-Judged expected [] = tt
  Each-Judged expected (r ∷ xs) =
      (policy-Judged expected r r.status r.canonical_field refl refl, Each-Judged expected xs)

  -- The unit safety judges each header, in order. One that is not resolved to `value_mw` stays as it is. One
  -- that is becomes unresolved when its tokens end in `mwh`, `kwh`, `wh`, `w`, `hour` or `mw h`, when the
  -- last token is `mw` or `kw` but not the configured unit, or when it was matched fuzzily and the last
  -- token is not the configured unit; otherwise it stays as it is.
  pub apply_consumption_unit_safety-Judged :
      (tools : TextTools F) (unit : PowerUnit) (schema : SchemaResolution F)
      → Each
          (Judged (power_token unit))
          schema.field_resolutions
          (apply_consumption_unit_safety tools unit schema).field_resolutions
  unfolding apply_consumption_unit_safety
  apply_consumption_unit_safety-Judged tools unit schema =
      Each-Judged (power_token unit) schema.field_resolutions
