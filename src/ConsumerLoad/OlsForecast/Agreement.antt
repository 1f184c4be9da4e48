-- ===== src/ConsumerLoad/OlsForecast/Agreement.antt =====
-- The live forecast of src/energy_trading/ml/consumer_load/lag_24h_168h_ols_forecast.py against the
-- offline prediction of src/energy_trading/ml/consumer_load/lag_24h_168h_linear_regression_prediction.py.
use armenian_energy_trading.Base.{
  ◌+◌, ◌≡◌, refl, sym, ap, ◌∙◌, List, map, Elem, Distinct, true, false, arith,
}
use armenian_energy_trading.Float.{Float}
use armenian_energy_trading.Domain.{ConsumptionRecord, ConsumerLoadForecastModelRequest}
use armenian_energy_trading.Ml.Errors.{Reason, ok, err}
use armenian_energy_trading.Ml.Cohort.{Timestamp}
use armenian_energy_trading.Ml.Index.{lag_24h, lag_168h}
use armenian_energy_trading.Ml.Index.Laws.{add-minus}
use armenian_energy_trading.Ml.Index.Unique.{keep-sole}
use armenian_energy_trading.ConsumerLoad.Features168h.{
  ConsumerLoadLag24h168hFeatureRow, build_feature_rows,
}
use armenian_energy_trading.ConsumerLoad.Features168h.Exact.{
  stamp, row_of, build_feature_rows-Built, build_feature_rows-TripleOf,
}
use armenian_energy_trading.ConsumerLoad.Fit168h.{ConsumerLoadLag24h168hLinearRegressionFit}
use armenian_energy_trading.ConsumerLoad.Predict168h.{
  ConsumerLoadLag24h168hLinearRegressionPrediction, predicted_value_mw, prediction_for_row,
}
use armenian_energy_trading.ConsumerLoad.OlsForecast.{
  message, unique_lag_observation, raw_prediction, point_for_target, checked_point,
}

module _ {F : Type 0} where
  unique_lag_observation-Elem :
      (history : List (ConsumptionRecord F)) (r : ConsumptionRecord F) (missing duplicate : Reason)
      → Distinct (map stamp history)
      → Elem r history
      → unique_lag_observation history r.timestamp missing duplicate ≡ ok r
  unfolding unique_lag_observation
  unique_lag_observation-Elem history r missing duplicate d m =
      rw (keep-sole stamp history r d m) refl

module _ {F : Type 0} ⦃float : Float F⦄ where
  point_for_target-found :
      (fit : ConsumerLoadLag24h168hLinearRegressionFit F)
      (request : ConsumerLoadForecastModelRequest F) (l w : ConsumptionRecord F)
      {target : Timestamp}
      → Distinct (map stamp request.history)
      → Elem l request.history
      → Elem w request.history
      → l.timestamp + lag_24h ≡ target
      → w.timestamp + lag_168h ≡ target
      → point_for_target fit request target ≡ checked_point request target (raw_prediction fit l w)
  unfolding point_for_target
  point_for_target-found fit request l w d l_in w_in at24 at168 =
      rw
        (
          rw at24 at (add-minus l.timestamp lag_24h),
          unique_lag_observation-Elem request.history l _ _ d l_in,
          rw at168 at (add-minus w.timestamp lag_168h),
          unique_lag_observation-Elem request.history w _ _ d w_in,
        )
        refl

  -- The offline value of a row is the live value of the two observations that it was made from.
  predicted_value_mw-row_of :
      (fit : ConsumerLoadLag24h168hLinearRegressionFit F) (a l w : ConsumptionRecord F)
      → predicted_value_mw fit (row_of a l w) ≡ raw_prediction fit l w
  unfolding predicted_value_mw raw_prediction
  predicted_value_mw-row_of fit a l w = refl

  prediction_for_row-value :
      (fit : ConsumerLoadLag24h168hLinearRegressionFit F) (row : ConsumerLoadLag24h168hFeatureRow F)
      {p : ConsumerLoadLag24h168hLinearRegressionPrediction F}
      → prediction_for_row fit row ≡ ok p
      → (p.predicted_value_mw ≡ predicted_value_mw fit row)
        × (float.is_finite p.predicted_value_mw ≡ true)
  unfolding prediction_for_row
  prediction_for_row-value fit row h = ground arith

  checked_point-finite :
      (request : ConsumerLoadForecastModelRequest F) (target : Timestamp) (value : F)
      → float.is_finite value ≡ true
      → ((float.less value (float.of_ℕ 0) ≡ true)
          → checked_point request target value ≡ err (message Reason.negative_prediction))
        × ((float.less value (float.of_ℕ 0) ≡ false)
            → checked_point request target value
              ≡ ok (record {
                forecast_run_id = request.forecast_run_id;
                consumer_id = request.consumer_id;
                generated_at = request.generated_at;
                target_timestamp = target;
                value_mw = value;
              }))
  unfolding checked_point
  checked_point-finite request target value finite =
      ((λ h. rw (finite, h) refl), (λ h. rw (finite, h) refl))

  -- For a row that the load builder makes from a history, and the value that the offline prediction computes
  -- for it with a fit, the live model with that fit refuses the row's timestamp as a negative prediction
  -- where the value is below zero, and otherwise forecasts the value from the same history.
  pub point_for_target-checked_point :
      (fit : ConsumerLoadLag24h168hLinearRegressionFit F)
      (request : ConsumerLoadForecastModelRequest F)
      {rows : List (ConsumerLoadLag24h168hFeatureRow F)} (row : ConsumerLoadLag24h168hFeatureRow F)
      {p : ConsumerLoadLag24h168hLinearRegressionPrediction F}
      → build_feature_rows request.history ≡ ok rows
      → Elem row rows
      → prediction_for_row fit row ≡ ok p
      → ((float.less p.predicted_value_mw (float.of_ℕ 0) ≡ true)
          → point_for_target fit request row.target_timestamp
            ≡ err (message Reason.negative_prediction))
        × ((float.less p.predicted_value_mw (float.of_ℕ 0) ≡ false)
            → point_for_target fit request row.target_timestamp
              ≡ ok (record {
                forecast_run_id = request.forecast_run_id;
                consumer_id = request.consumer_id;
                generated_at = request.generated_at;
                target_timestamp = row.target_timestamp;
                value_mw = p.predicted_value_mw;
              }))
  point_for_target-checked_point fit request row {p} h m made =
      let built = build_feature_rows-Built request.history h in
      let triple = (build_feature_rows-TripleOf request.history h row).0 m in
      let (value, finite) = prediction_for_row-value fit row made in
      let at_target = sym (ap (λ r. r.target_timestamp) triple.row_eq) in
      let raw : raw_prediction fit triple.lag_24h_record triple.lag_168h_record
          ≡ p.predicted_value_mw =
        sym
          (predicted_value_mw-row_of fit triple.target triple.lag_24h_record triple.lag_168h_record)
        ∙ ap (predicted_value_mw fit) (sym triple.row_eq)
        ∙ sym value in
      let live =
        point_for_target-found fit request triple.lag_24h_record triple.lag_168h_record
          built.distinct triple.lag_24h_in triple.lag_168h_in (triple.lag_24h_at ∙ at_target)
          (triple.lag_168h_at ∙ at_target)
        ∙ ap (checked_point request row.target_timestamp) raw in
      let (below, otherwise) =
        checked_point-finite request row.target_timestamp p.predicted_value_mw finite in
      ((λ less. live ∙ below less), (λ less. live ∙ otherwise less))
