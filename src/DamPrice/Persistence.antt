-- ===== src/DamPrice/Persistence.antt =====
-- src/energy_trading/ml/dam_price/previous_day_persistence.py: the live baseline that copies yesterday's price.
pub mod Agreement
use armenian_energy_trading.Base.{List, nat_beq, keep}
use armenian_energy_trading.Domain.{
  MarketPriceRecord, PriceForecastPoint, DamPriceForecastModelRequest,
}
use armenian_energy_trading.Ml.Errors.{
  Stage, Reason, Error, invalid_request, Result, ok, ◌>>=◌, traverse,
}
use armenian_energy_trading.Ml.Cohort.{Timestamp, sole}
use armenian_energy_trading.Ml.Index.{lag_24h, minus}

-- `_MISSING_LAG_MESSAGE` and `_DUPLICATE_LAG_MESSAGE`
abbrev pub message : Reason → Error
message = invalid_request Stage.persistence_model

module _ {D : Type 0} where
  unfoldable pub unique_lag_observation :
      List (MarketPriceRecord D) → Timestamp → Result (MarketPriceRecord D)
  unfolding sole
  unique_lag_observation history reference =
      sole (message Reason.missing_lag) (message Reason.duplicate_lag)
        (keep (λ r. nat_beq r.timestamp reference) history)

  unfoldable pub point_for_target :
      DamPriceForecastModelRequest D → Timestamp → Result (PriceForecastPoint D)
  point_for_target request target = do
    reference ← minus target lag_24h
    matching_record ← unique_lag_observation request.history reference
    ok (record {
      forecast_run_id = request.forecast_run_id;
      market_id = request.market_id;
      generated_at = request.generated_at;
      target_timestamp = target;
      price = matching_record.price;
    })

  unfoldable pub forecast : DamPriceForecastModelRequest D → Result (List (PriceForecastPoint D))
  forecast request = traverse (point_for_target request) request.target_timestamps
