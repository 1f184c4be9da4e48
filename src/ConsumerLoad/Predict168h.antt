-- ===== src/ConsumerLoad/Predict168h.antt =====
-- src/energy_trading/ml/consumer_load/lag_24h_168h_linear_regression_prediction.py: the fitted values of the evaluation rows.
use armenian_energy_trading.Base.{List, [], ◌∷◌, ◌&&◌, map, if◌then◌else◌, text_comparable}
use armenian_energy_trading.Domain.{EntityId}
use armenian_energy_trading.Float.{Float}
use armenian_energy_trading.Ml.Errors.{
  Stage, Reason, Error, invalid_request, Result, ok, err, ◌>>◌, traverse,
}
use armenian_energy_trading.Ml.Cohort.{Timestamp, require_single, require_strict_chronology}
use armenian_energy_trading.ConsumerLoad.Features168h.{ConsumerLoadLag24h168hFeatureRow}
use armenian_energy_trading.ConsumerLoad.Fit168h.{ConsumerLoadLag24h168hLinearRegressionFit}

abbrev pub message : Reason → Error
message = invalid_request Stage.load_predict_168h

pub record ConsumerLoadLag24h168hLinearRegressionPrediction (F : Type 0) : Type 0 where
  pub consumer_id : EntityId
  pub target_timestamp : Timestamp
  pub predicted_value_mw : F
  pub actual_value_mw : F

module _ {F : Type 0} where
  unfoldable pub require_single_consumer :
      List (ConsumerLoadLag24h168hFeatureRow F) → Result (Unit {0})
  require_single_consumer rows =
      require_single (message Reason.mixed_consumer) (map (λ r. r.consumer_id) rows)

  unfoldable pub require_chronology : List (ConsumerLoadLag24h168hFeatureRow F) → Result (Unit {0})
  require_chronology rows =
      require_strict_chronology (message Reason.duplicate_timestamp) (message Reason.out_of_order)
        (map (λ r. r.target_timestamp) rows)

module _ {F : Type 0} ⦃float : Float F⦄ where
  unfoldable pub predicted_value_mw :
      ConsumerLoadLag24h168hLinearRegressionFit F → ConsumerLoadLag24h168hFeatureRow F → F
  predicted_value_mw fit row =
      float.add (float.add fit.intercept_mw (float.mul fit.lag_24h_coefficient row.lag_24h_mw))
        (float.mul fit.lag_168h_coefficient row.lag_168h_mw)

  unfoldable pub prediction_for_row :
      ConsumerLoadLag24h168hLinearRegressionFit F
      → ConsumerLoadLag24h168hFeatureRow F
      → Result (ConsumerLoadLag24h168hLinearRegressionPrediction F)
  prediction_for_row fit row =
      if float.is_finite (predicted_value_mw fit row)
      then ok (record {
        consumer_id = row.consumer_id;
        target_timestamp = row.target_timestamp;
        predicted_value_mw = predicted_value_mw fit row;
        actual_value_mw = row.target_value_mw;
      })
      else err (message Reason.non_finite_prediction)

  unfoldable pub require_finite_fit :
      ConsumerLoadLag24h168hLinearRegressionFit F → Result (Unit {0})
  require_finite_fit fit =
      if float.is_finite fit.lag_24h_coefficient
        && (float.is_finite fit.lag_168h_coefficient && float.is_finite fit.intercept_mw)
      then ok tt
      else err (message Reason.non_finite_fit)

  unfoldable pub predict :
      ConsumerLoadLag24h168hLinearRegressionFit F
      → List (ConsumerLoadLag24h168hFeatureRow F)
      → Result (List (ConsumerLoadLag24h168hLinearRegressionPrediction F))
  unfolding require_finite_fit
  predict fit [] = err (message Reason.empty_rows)
  predict fit (r ∷ rs) = do
    let evaluation_rows = r ∷ rs
    require_finite_fit fit
    require_single_consumer evaluation_rows
    require_chronology evaluation_rows
    traverse (prediction_for_row fit) evaluation_rows
