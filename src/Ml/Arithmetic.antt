-- ===== src/Ml/Arithmetic.antt =====
-- Decimal arithmetic as the fits and the evaluations under src/energy_trading/ml use it.
pub mod Laws
use armenian_energy_trading.Base.{
  Option, none, some, List, [], ◌∷◌, Bool, true, false, if◌then◌else◌,
}
use armenian_energy_trading.Decimal.{Decimal}
use armenian_energy_trading.Ml.Errors.{Error, decimal_exception, Result, ok, err, ◌>>=◌}

-- An operation raises a `DecimalException` where the interface has `none`.
abbrev pub raised : {A : Type 0} → Option A → Result A
raised none = err decimal_exception
raised (some a) = ok a

-- `try: … except DecimalException as error: raise InvalidRequestError(msg) from error`
abbrev pub guarded : {A : Type 0} → Error → Result A → Result A
guarded e (ok a) = ok a
guarded e (err decimal_exception) = err e
guarded e (err other) = err other

module _ {D : Type 0} ⦃dec : Decimal D⦄ where
  abbrev pub add : D → D → Result D
  add a b = raised (dec.add a b)

  abbrev pub sub : D → D → Result D
  sub a b = raised (dec.sub a b)

  abbrev pub mul : D → D → Result D
  mul a b = raised (dec.mul a b)

  abbrev pub div : D → D → Result D
  div a b = raised (dec.div a b)

  -- `total += value` over the values
  unfoldable pub total_from : D → List D → Result D
  total_from total [] = ok total
  total_from total (v ∷ vs) = do total_from (← add total v) vs

  -- `_mean`
  unfoldable pub mean : List D → D → Result D
  unfolding total_from
  mean values count = do div (← total_from (dec.of_ℕ 0) values) count

  -- `abs(predicted - actual)`
  unfoldable pub absolute_error : D × D → Result D
  absolute_error (predicted, actual) = do raised (dec.absolute (← sub predicted actual))

  unfoldable pub absolute_errors_from : D → List (D × D) → Result D
  unfolding absolute_error
  absolute_errors_from total [] = ok total
  absolute_errors_from total (p ∷ ps) = do
    absolute_errors_from (← add total (← absolute_error p)) ps

  abbrev pub all_finite : List D → Bool
  all_finite [] = true
  all_finite (v ∷ vs) = if dec.is_finite v then all_finite vs else false
