-- ===== src/ConsumerLoad/Persistence.antt =====
-- src/energy_trading/ml/consumer_load/previous_day_persistence.py: the live baseline that copies yesterday's load.
use armenian_energy_trading.Base.{List, nat_beq, keep, text_comparable}
use armenian_energy_trading.Domain.{
  ConsumptionRecord, LoadForecastPoint, ConsumerLoadForecastModelRequest,
}
use armenian_energy_trading.Ml.Errors.{
  Stage, Reason, Error, invalid_request, Result, ok, ◌>>=◌, traverse,
}
use armenian_energy_trading.Ml.Cohort.{Timestamp, sole}
use armenian_energy_trading.Ml.Index.{lag_24h, minus}

abbrev pub message : Reason → Error
message = invalid_request Stage.load_persistence_model

module _ {F : Type 0} where
  unfoldable pub unique_lag_observation :
      List (ConsumptionRecord F) → Timestamp → Result (ConsumptionRecord F)
  unfolding sole
  unique_lag_observation history reference =
      sole (message Reason.missing_lag) (message Reason.duplicate_lag)
        (keep (λ r. nat_beq r.timestamp reference) history)

  unfoldable pub point_for_target :
      ConsumerLoadForecastModelRequest F → Timestamp → Result (LoadForecastPoint F)
  point_for_target request target = do
    reference ← minus target lag_24h
    matching_record ← unique_lag_observation request.history reference
    ok (record {
      forecast_run_id = request.forecast_run_id;
      consumer_id = request.consumer_id;
      generated_at = request.generated_at;
      target_timestamp = target;
      value_mw = matching_record.value_mw;
    })

  unfoldable pub forecast : ConsumerLoadForecastModelRequest F → Result (List (LoadForecastPoint F))
  forecast request = traverse (point_for_target request) request.target_timestamps
