-- ===== src/Ml/Cohort.antt =====
-- The guards on a cohort of rows that every module under src/energy_trading/ml repeats: one market,
-- one currency, strictly increasing timestamps.
pub mod Laws
pub mod Partition
pub mod Same
use armenian_energy_trading.Base.{
  ℕ, List, [], ◌∷◌, Bool, true, false, ◌&&◌, ltb, nat_beq, length, Comparable, ◌==◌, if◌then◌else◌,
}
use armenian_energy_trading.Ml.Errors.{Error, index_error, Result, ok, err}

-- An aware UTC `datetime`: its microseconds since 0001-01-01T00:00Z, the least that Python has.
abbrev pub Timestamp : Type 0
Timestamp = ℕ

module _ {A : Type 0} ⦃e : Comparable A⦄ where
  abbrev pub contains : A → List A → Bool
  contains a [] = false
  contains a (x ∷ xs) = if a == x then true else contains a xs

  -- A set comprehension: each value once.
  unfoldable pub set_of : List A → List A
  set_of [] = []
  set_of (x ∷ xs) = let rest = set_of xs in if contains x rest then rest else x ∷ rest

  -- `_require_single_market` and its like, over the market of each row.
  unfoldable pub require_single : Error → List A → Result (Unit {0})
  unfolding set_of
  require_single mixed xs = if ltb 1 (length (set_of xs)) then err mixed else ok tt

  abbrev pub subset : List A → List A → Bool
  subset [] ys = true
  subset (x ∷ xs) ys = if contains x ys then subset xs ys else false

  -- `if set(xs) != set(ys): raise`
  unfoldable pub require_same : Error → List A → List A → Result (Unit {0})
  require_same mismatch xs ys = if subset xs ys && subset ys xs then ok tt else err mismatch

unfoldable pub chronology_from : Error → Error → Timestamp → List Timestamp → Result (Unit {0})
chronology_from duplicate out_of_order previous [] = ok tt
chronology_from duplicate out_of_order previous (current ∷ rest) =
    if nat_beq previous current
    then err duplicate
    else if ltb current previous
    then err out_of_order
    else chronology_from duplicate out_of_order current rest

-- `_require_strict_chronology`, over the target timestamp of each row; `rows[0]` fails on no rows.
unfoldable pub require_strict_chronology : Error → Error → List Timestamp → Result (Unit {0})
unfolding chronology_from
require_strict_chronology duplicate out_of_order [] = err index_error
require_strict_chronology duplicate out_of_order (first ∷ rest) =
    chronology_from duplicate out_of_order first rest

-- The end of `_unique_lag_observation`: exactly one match is wanted.
unfoldable pub sole : {A : Type 0} → Error → Error → List A → Result A
sole missing duplicate [] = err missing
sole missing duplicate (a ∷ []) = ok a
sole missing duplicate (a ∷ b ∷ rest) = err duplicate
