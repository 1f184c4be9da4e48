-- ===== src/ConsumerLoad/PersistenceEvaluation.antt =====
-- src/energy_trading/ml/consumer_load/previous_day_persistence_evaluation.py: the mean absolute error of the backtest.
use armenian_energy_trading.Base.{ℕ, List, [], ◌∷◌, map, length, text_comparable, none, some}
use armenian_energy_trading.Float.{Float}
use armenian_energy_trading.Ml.Errors.{
  Stage, Reason, Error, invalid_request, zero_division_error, Result, ok, err, ◌>>=◌,
}
use armenian_energy_trading.ConsumerLoad.Backtest.{PreviousDayPersistenceBacktestCase}

abbrev pub message : Reason → Error
message = invalid_request Stage.load_persistence_mae

pub record PreviousDayPersistenceMaeResult (F : Type 0) : Type 0 where
  pub case_count : ℕ
  pub mae_mw : F

module _ {F : Type 0} ⦃float : Float F⦄ where
  abbrev pub quotient : F → F → Result F
  quotient a b = elim (float.div a b) [ none ↦ err zero_division_error | some q ↦ ok q ]

  unfoldable pub evaluate_mae :
      List (PreviousDayPersistenceBacktestCase F) → Result (PreviousDayPersistenceMaeResult F)
  evaluate_mae [] = err (message Reason.empty_cases)
  evaluate_mae (c ∷ cs) = do
    let cases = c ∷ cs
    let total_abs_error =
        float.total
          (map (λ d. float.absolute (float.sub d.predicted_value_mw d.actual_value_mw)) cases)
    mae_mw ← quotient total_abs_error (float.of_ℕ (length cases))
    ok (record { case_count = length cases; mae_mw = mae_mw })
