-- ===== src/DamPrice/OlsForecast.antt =====
-- src/energy_trading/ml/dam_price/lag_24h_168h_ols_forecast.py: the live forecast with a two-lag fit.
pub mod Agreement
use armenian_energy_trading.Base.{List, nat_beq, keep, ◌&&◌, if◌then◌else◌}
use armenian_energy_trading.Decimal.{Decimal}
use armenian_energy_trading.Domain.{
  MarketPriceRecord, PriceForecastPoint, DamPriceForecastModelRequest,
}
use armenian_energy_trading.Ml.Errors.{
  Stage, Reason, Error, invalid_request, Result, ok, err, ◌>>=◌, ◌>>◌, traverse,
}
use armenian_energy_trading.Ml.Cohort.{Timestamp, sole}
use armenian_energy_trading.Ml.Index.{lag_24h, lag_168h, minus}
use armenian_energy_trading.Ml.Arithmetic.{guarded, add, mul}
use armenian_energy_trading.DamPrice.Fit168h.{DamPriceLag24h168hLinearRegressionFit}

abbrev pub message : Reason → Error
message = invalid_request Stage.live_ols

module _ {D : Type 0} where
  unfoldable pub unique_lag_observation :
      List (MarketPriceRecord D) → Timestamp → Reason → Reason → Result (MarketPriceRecord D)
  unfolding sole
  unique_lag_observation history reference missing duplicate =
      sole (message missing) (message duplicate) (keep (λ r. nat_beq r.timestamp reference) history)

module _ {D : Type 0} ⦃dec : Decimal D⦄ where
  unfoldable pub require_finite_fit : DamPriceLag24h168hLinearRegressionFit D → Result (Unit {0})
  require_finite_fit fit =
      if dec.is_finite fit.lag_24h_coefficient
        && (dec.is_finite fit.lag_168h_coefficient && dec.is_finite fit.intercept_amount_per_mwh)
      then ok tt
      else err (message Reason.non_finite_fit)

  -- The weighted sum of the two observed prices and the intercept, from the left.
  unfoldable pub raw_prediction :
      DamPriceLag24h168hLinearRegressionFit D → MarketPriceRecord D → MarketPriceRecord D → Result D
  raw_prediction fit lag_24h_record lag_168h_record = do
    first ← mul fit.lag_24h_coefficient lag_24h_record.price.amount_per_mwh
    second ← mul fit.lag_168h_coefficient lag_168h_record.price.amount_per_mwh
    add (← add first second) fit.intercept_amount_per_mwh

  unfoldable pub point_for_target :
      DamPriceLag24h168hLinearRegressionFit D
      → DamPriceForecastModelRequest D
      → Timestamp
      → Result (PriceForecastPoint D)
  point_for_target fit request target = do
    reference_24h ← minus target lag_24h
    lag_24h_record ←
        unique_lag_observation request.history reference_24h Reason.missing_lag_24h
          Reason.duplicate_lag_24h
    reference_168h ← minus target lag_168h
    lag_168h_record ←
        unique_lag_observation request.history reference_168h Reason.missing_lag_168h
          Reason.duplicate_lag_168h
    amount ←
        guarded (message Reason.non_finite_prediction)
          (raw_prediction fit lag_24h_record lag_168h_record)
    if dec.is_finite amount
        then ok (record {
          forecast_run_id = request.forecast_run_id;
          market_id = request.market_id;
          generated_at = request.generated_at;
          target_timestamp = target;
          price = record { amount_per_mwh = amount; currency = request.currency };
        })
        else err (message Reason.non_finite_prediction)

  -- The model made with a fit, and its `forecast`.
  unfoldable pub forecast :
      DamPriceLag24h168hLinearRegressionFit D
      → DamPriceForecastModelRequest D
      → Result (List (PriceForecastPoint D))
  unfolding require_finite_fit
  forecast fit request = do
    require_finite_fit fit
    traverse (point_for_target fit request) request.target_timestamps
