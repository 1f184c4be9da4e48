-- ===== src/Schema/UnitSafety/Units.antt =====
-- What the unit tests of consumption_mapping.py find in the tokens of a header.
use armenian_energy_trading.Base.{
  String, Bool, Bool-cases, true, false, not, ◌&&◌, ◌||◌, List, [], ◌∷◌, ◌++◌, ◌≡◌, ◌≢◌, refl, ap,
  ◌∙◌, ◌⊎◌, inl, inr, ◌↔◌, Elem, ◌==◌, text_comparable,
}
use armenian_energy_trading.Ml.Cohort.{contains}
use armenian_energy_trading.Schema.UnitSafety.{
  known_power_tokens, energy_last_tokens, last_token, ends_in_mw_h, is_energy_like,
  header_claims_conflicting_unit,
}

-- The tokens end in one of the five words for energy that are looked for, or in `mw`, `h`.
abbrev pub NamesEnergy : List String → Type 0
NamesEnergy tokens =
    Elem (last_token tokens) ("mwh" ∷ "kwh" ∷ "wh" ∷ "w" ∷ "hour" ∷ [])
    ⊎ ((earlier : List String) × (tokens ≡ earlier ++ "mw" ∷ "h" ∷ []))

-- The last token is a power unit, and not the expected one.
abbrev pub NamesOtherPower : String → List String → Type 0
NamesOtherPower expected tokens =
    Elem (last_token tokens) ("mw" ∷ "kw" ∷ []) × (last_token tokens ≢ expected)

contains-Elem : (a : String) (xs : List String) → (contains a xs ≡ true) ↔ Elem a xs
contains-Elem a [] = ((λ h. cc), (λ m. absurd m))
contains-Elem a (x ∷ xs) = elim (Bool-cases (a == x)) [
  | inl same ↦ ((λ h. inl ((text_comparable.same_iff a x).0 same)), (λ m. rw same refl))
  | inr other ↦ (
    (λ h. inr ((contains-Elem a xs).0 (rw other at h))),
    λ m. elim m [
      | inl e ↦ cc (other, (text_comparable.same_iff a x).1 e)
      | inr later ↦ rw other ((contains-Elem a xs).1 later)
    ],
  )
]

both-true : (a b : Bool) → (a && b) ≡ true → (a ≡ true) × (b ≡ true)
both-true true b h = (refl, h)
both-true false b h = cc

pub either-true : (a b : Bool) → (a || b) ≡ true → (a ≡ true) ⊎ (b ≡ true)
either-true true b h = inl refl
either-true false b h = inr h

pub true-either : (a b : Bool) → (a ≡ true) ⊎ (b ≡ true) → (a || b) ≡ true
true-either true b h = refl
true-either false b (inl h) = cc
true-either false b (inr h) = h

ends_in_mw_h_sound :
    (tokens : List String)
    → ends_in_mw_h tokens ≡ true
    → (earlier : List String) × (tokens ≡ earlier ++ "mw" ∷ "h" ∷ [])
ends_in_mw_h_sound [] h = cc
ends_in_mw_h_sound (t ∷ []) h = cc
ends_in_mw_h_sound (t ∷ u ∷ []) h =
    let (first, second) = both-true (t == "mw") (u == "h") h in
    let at_t = (text_comparable.same_iff t "mw").0 first in
    let at_u = (text_comparable.same_iff u "h").0 second in ([], rw (at_t, at_u) refl)
ends_in_mw_h_sound (t ∷ u ∷ v ∷ tokens) h =
    let (earlier, e) = ends_in_mw_h_sound (u ∷ v ∷ tokens) h in (t ∷ earlier, ap (λ x. t ∷ x) e)

ends_in_mw_h_complete : (earlier : List String) → ends_in_mw_h (earlier ++ "mw" ∷ "h" ∷ []) ≡ true
ends_in_mw_h_complete [] = refl
ends_in_mw_h_complete (t ∷ []) = refl
ends_in_mw_h_complete (t ∷ u ∷ []) = refl
ends_in_mw_h_complete (t ∷ u ∷ v ∷ earlier) = ends_in_mw_h_complete (u ∷ v ∷ earlier)

pub is_energy_like-NamesEnergy :
    (tokens : List String) → (is_energy_like tokens ≡ true) ↔ NamesEnergy tokens
unfolding is_energy_like
is_energy_like-NamesEnergy [] = (
  (λ h. cc),
  λ named. elim named [
    | inl m ↦ (contains-Elem "" energy_last_tokens).1 m
    | inr (earlier, e) ↦ ap ends_in_mw_h e ∙ ends_in_mw_h_complete earlier
  ],
)
is_energy_like-NamesEnergy (t ∷ tokens) =
    let last = last_token (t ∷ tokens) in
    (
      (λ h. elim (either-true (contains last energy_last_tokens) _ h) [
        | inl m ↦ inl ((contains-Elem last energy_last_tokens).0 m)
        | inr ends ↦ inr (ends_in_mw_h_sound (t ∷ tokens) ends)
      ]),
      λ named. true-either (contains last energy_last_tokens) _ (elim named [
        | inl m ↦ inl ((contains-Elem last energy_last_tokens).1 m)
        | inr (earlier, e) ↦ inr (ap ends_in_mw_h e ∙ ends_in_mw_h_complete earlier)
      ]),
    )

pub differ : (a b : String) → (not (a == b) ≡ true) ↔ (a ≢ b)
differ a b = elim (Bool-cases (a == b)) [
  | inl same ↦ ((λ h. cc (rw same at h)), (λ n. absurd (n ((text_comparable.same_iff a b).0 same))))
  | inr other ↦ ((λ h e. cc (other, (text_comparable.same_iff a b).1 e)), (λ n. rw other refl))
]

true-both : (a b : Bool) → a ≡ true → b ≡ true → (a && b) ≡ true
true-both true b h k = k
true-both false b h k = cc

-- The test of `_header_claims_conflicting_unit`, on its tokens.
pub claims_iff :
    (tokens : List String) (expected : String)
    → (header_claims_conflicting_unit tokens expected ≡ true)
      ↔ (NamesEnergy tokens ⊎ NamesOtherPower expected tokens)
unfolding header_claims_conflicting_unit
claims_iff [] expected = (
  (λ h. cc),
  λ named. elim named [
    | inl energy ↦ unfold is_energy_like in (is_energy_like-NamesEnergy []).1 energy
    | inr (known, _) ↦ (contains-Elem "" known_power_tokens).1 known
  ],
)
claims_iff (t ∷ tokens) expected =
    let last = last_token (t ∷ tokens) in
    let known = contains last known_power_tokens in
    (
      (λ h. elim (either-true (is_energy_like (t ∷ tokens)) _ h) [
        | inl energy ↦ inl ((is_energy_like-NamesEnergy (t ∷ tokens)).0 energy)
        | inr other ↦
            let (at_known, apart) = both-true known (not (last == expected)) other in
            inr ((contains-Elem last known_power_tokens).0 at_known, (differ last expected).0 apart)
      ]),
      λ named. true-either (is_energy_like (t ∷ tokens)) _ (elim named [
        | inl energy ↦ inl ((is_energy_like-NamesEnergy (t ∷ tokens)).1 energy)
        | inr (at_known, apart) ↦ inr (
            true-both known (not (last == expected))
              ((contains-Elem last known_power_tokens).1 at_known) ((differ last expected).1 apart))
      ]),
    )
