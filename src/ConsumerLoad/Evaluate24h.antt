-- ===== src/ConsumerLoad/Evaluate24h.antt =====
-- src/energy_trading/ml/consumer_load/lag_24h_linear_regression_evaluation.py: the mean absolute error of the predictions.
use armenian_energy_trading.Base.{
  ℕ, List, [], ◌∷◌, ◌&&◌, map, length, if◌then◌else◌, text_comparable,
}
use armenian_energy_trading.Float.{Float}
use armenian_energy_trading.Ml.Errors.{
  Stage, Reason, Error, invalid_request, Result, ok, err, ◌>>=◌, ◌>>◌,
}
use armenian_energy_trading.Ml.Cohort.{require_single, require_strict_chronology}
use armenian_energy_trading.ConsumerLoad.Predict24h.{ConsumerLoadLag24hLinearRegressionPrediction}
use armenian_energy_trading.ConsumerLoad.PersistenceEvaluation.{quotient}

abbrev pub message : Reason → Error
message = invalid_request Stage.load_mae_24h

pub record ConsumerLoadLag24hLinearRegressionMaeResult (F : Type 0) : Type 0 where
  pub case_count : ℕ
  pub mae_mw : F

module _ {F : Type 0} where
  unfoldable pub require_single_consumer :
      List (ConsumerLoadLag24hLinearRegressionPrediction F) → Result (Unit {0})
  require_single_consumer predictions =
      require_single (message Reason.mixed_consumer) (map (λ r. r.consumer_id) predictions)

  unfoldable pub require_chronology :
      List (ConsumerLoadLag24hLinearRegressionPrediction F) → Result (Unit {0})
  require_chronology predictions =
      require_strict_chronology (message Reason.duplicate_timestamp) (message Reason.out_of_order)
        (map (λ r. r.target_timestamp) predictions)

module _ {F : Type 0} ⦃float : Float F⦄ where
  abbrev pub absolute_error : ConsumerLoadLag24hLinearRegressionPrediction F → F
  absolute_error p = float.absolute (float.sub p.predicted_value_mw p.actual_value_mw)

  -- The loop over the predictions.
  unfoldable pub total_absolute_error :
      F → List (ConsumerLoadLag24hLinearRegressionPrediction F) → Result F
  total_absolute_error total [] = ok total
  total_absolute_error total (p ∷ ps) =
      let rest = total_absolute_error (float.add total (absolute_error p)) ps in
      if float.is_finite p.predicted_value_mw && float.is_finite p.actual_value_mw
      then (if float.is_finite (absolute_error p)
          then rest
          else err (message Reason.non_finite_mae))
      else err (message Reason.non_finite_values)

  unfoldable pub evaluate_mae :
      List (ConsumerLoadLag24hLinearRegressionPrediction F)
      → Result (ConsumerLoadLag24hLinearRegressionMaeResult F)
  unfolding total_absolute_error
  evaluate_mae [] = err (message Reason.empty_predictions)
  evaluate_mae (p ∷ ps) = do
    let predictions = p ∷ ps
    require_single_consumer predictions
    require_chronology predictions
    total_abs_error ← total_absolute_error (float.of_ℕ 0) predictions
    if float.is_finite total_abs_error
        then (do
          mae_mw ← quotient total_abs_error (float.of_ℕ (length predictions))
          if float.is_finite mae_mw
              then ok (record { case_count = length predictions; mae_mw = mae_mw })
              else err (message Reason.non_finite_mae))
        else err (message Reason.non_finite_mae)
