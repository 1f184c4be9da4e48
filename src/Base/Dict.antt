-- ===== src/Base/Dict.antt =====
-- A Python dict with text keys, as an association list.
use mathlib.Core.Path.{◌≡◌, refl, ap, ◌∙◌}
use mathlib.Core.Logic.{inl, inr}
use mathlib.Core.Option.{Option, none, some}
use mathlib.Core.List.{List, [], ◌∷◌}
use Prim.Native.String.{String}
use text.Mathlib.TextEquality.{eq_iff}
use native.Mathlib.Omega.{arith}
use armenian_energy_trading.Base.Tests.{if◌then◌else◌, Bool-cases}
use armenian_energy_trading.Base.Equality.{◌==◌, text_comparable}

module _ {V : Type 0} where
  -- `d.get(key)`
  unfoldable pub get : String → List (String × V) → Option V
  get key [] = none
  get key ((k, v) ∷ d) = if k == key then some v else get key d

  -- `d[key] = value`
  unfoldable pub put : String → V → List (String × V) → List (String × V)
  put key value [] = (key, value) ∷ []
  put key value ((k, v) ∷ d) = if k == key then (key, value) ∷ d else (k, v) ∷ put key value d

  pub get-put :
      (key other : String) (value : V) (d : List (String × V))
      → get other (put key value d) ≡ (if key == other then some value else get other d)
  unfolding get put
  get-put key other value [] = refl
  get-put key other value ((k, v) ∷ d) =
      ground (arith, eq_iff k key, eq_iff k other, eq_iff key other, get-put key other value d)

  -- A new key leaves the values of the others.
  pub get-put_absent :
      (k j : String) (s v : V) (d : List (String × V))
      → get k d ≡ none
      → get j d ≡ some v
      → get j (put k s d) ≡ some v
  get-put_absent k j s v d absent present = elim (Bool-cases (k == j)) [
    | inl same ↦ cc (ap (λ x. get x d) ((eq_iff k j).0 same))
    | inr other ↦ get-put k j s d ∙ rw other present
  ]
