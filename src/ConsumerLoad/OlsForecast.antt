-- ===== src/ConsumerLoad/OlsForecast.antt =====
-- src/energy_trading/ml/consumer_load/lag_24h_168h_ols_forecast.py: the live forecast with a two-lag fit.
pub mod Agreement
use armenian_energy_trading.Base.{
  ℕ, List, [], ◌∷◌, Bool, true, false, not, ◌&&◌, ◌||◌, map, length, ltb, leb, nat_beq, keep,
  if◌then◌else◌, text_comparable, Option, none, some,
}
use armenian_energy_trading.Domain.{
  EntityId, ConsumptionRecord, LoadForecastPoint, ConsumerLoadForecastModelRequest,
}
use armenian_energy_trading.Float.{Float}
use armenian_energy_trading.Ml.Errors.{
  Stage, Reason, Error, invalid_request, index_error, overflow_error, zero_division_error, Result,
  ok, err, ◌>>=◌, ◌>>◌, traverse,
}
use armenian_energy_trading.Ml.Cohort.{
  Timestamp, require_single, require_same, require_strict_chronology, sole,
}
use armenian_energy_trading.Ml.Index.{
  Index, lag_24h, lag_168h, minus, contains_key, item, keys, unique_timestamp_index, sorted,
  collect,
}
use armenian_energy_trading.ConsumerLoad.Fit168h.{ConsumerLoadLag24h168hLinearRegressionFit}

abbrev pub message : Reason → Error
message = invalid_request Stage.load_live_ols

module _ {F : Type 0} where
  unfoldable pub unique_lag_observation :
      List (ConsumptionRecord F) → Timestamp → Reason → Reason → Result (ConsumptionRecord F)
  unfolding sole
  unique_lag_observation history reference missing duplicate =
      sole (message missing) (message duplicate) (keep (λ r. nat_beq r.timestamp reference) history)

module _ {F : Type 0} ⦃float : Float F⦄ where
  unfoldable pub require_finite_fit :
      ConsumerLoadLag24h168hLinearRegressionFit F → Result (Unit {0})
  require_finite_fit fit =
      if float.is_finite fit.lag_24h_coefficient
        && (float.is_finite fit.lag_168h_coefficient && float.is_finite fit.intercept_mw)
      then ok tt
      else err (message Reason.non_finite_fit)

  -- The weighted sum of the two observed loads, from the left.
  unfoldable pub raw_prediction :
      ConsumerLoadLag24h168hLinearRegressionFit F → ConsumptionRecord F → ConsumptionRecord F → F
  raw_prediction fit lag_24h_record lag_168h_record =
      float.add
        (float.add fit.intercept_mw (float.mul fit.lag_24h_coefficient lag_24h_record.value_mw))
        (float.mul fit.lag_168h_coefficient lag_168h_record.value_mw)

  -- The two tests of the forecast value, and the point.
  unfoldable pub checked_point :
      ConsumerLoadForecastModelRequest F → Timestamp → F → Result (LoadForecastPoint F)
  checked_point request target predicted_value_mw =
      if float.is_finite predicted_value_mw
      then (if float.less predicted_value_mw (float.of_ℕ 0)
          then err (message Reason.negative_prediction)
          else ok (record {
            forecast_run_id = request.forecast_run_id;
            consumer_id = request.consumer_id;
            generated_at = request.generated_at;
            target_timestamp = target;
            value_mw = predicted_value_mw;
          }))
      else err (message Reason.non_finite_prediction)

  unfoldable pub point_for_target :
      ConsumerLoadLag24h168hLinearRegressionFit F
      → ConsumerLoadForecastModelRequest F
      → Timestamp
      → Result (LoadForecastPoint F)
  point_for_target fit request target = do
    reference_24h ← minus target lag_24h
    lag_24h_record ←
        unique_lag_observation request.history reference_24h Reason.missing_lag_24h
          Reason.duplicate_lag_24h
    reference_168h ← minus target lag_168h
    lag_168h_record ←
        unique_lag_observation request.history reference_168h Reason.missing_lag_168h
          Reason.duplicate_lag_168h
    checked_point request target (raw_prediction fit lag_24h_record lag_168h_record)

  -- The model made with a fit, and its `forecast`.
  unfoldable pub forecast :
      ConsumerLoadLag24h168hLinearRegressionFit F
      → ConsumerLoadForecastModelRequest F
      → Result (List (LoadForecastPoint F))
  unfolding require_finite_fit
  forecast fit request = do
    require_finite_fit fit
    traverse (point_for_target fit request) request.target_timestamps
