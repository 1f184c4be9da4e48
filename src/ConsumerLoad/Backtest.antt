-- ===== src/ConsumerLoad/Backtest.antt =====
-- src/energy_trading/ml/consumer_load/previous_day_persistence_backtest.py: yesterday's load beside each observed one.
use armenian_energy_trading.Base.{List, [], ◌∷◌, Bool, map, text_comparable}
use armenian_energy_trading.Domain.{EntityId, ConsumptionRecord}
use armenian_energy_trading.Ml.Errors.{
  Stage, Reason, Error, invalid_request, Result, ok, ◌>>=◌, ◌>>◌,
}
use armenian_energy_trading.Ml.Cohort.{Timestamp, require_single}
use armenian_energy_trading.Ml.Index.{
  Index, lag_24h, minus, contains_key, item, keys, unique_timestamp_index, sorted, collect,
}

abbrev pub message : Reason → Error
message = invalid_request Stage.load_backtest

pub record PreviousDayPersistenceBacktestCase (F : Type 0) : Type 0 where
  pub consumer_id : EntityId
  pub target_timestamp : Timestamp
  pub predicted_value_mw : F
  pub actual_value_mw : F

module _ {F : Type 0} where
  unfoldable pub require_single_consumer : List (ConsumptionRecord F) → Result (Unit {0})
  require_single_consumer history =
      require_single (message Reason.mixed_consumer) (map (λ r. r.consumer_id) history)

  unfoldable pub timestamp_index : List (ConsumptionRecord F) → Result (Index (ConsumptionRecord F))
  timestamp_index history =
      unique_timestamp_index (message Reason.duplicate_timestamp) (λ r. r.timestamp) history

  unfoldable pub case_for_target :
      Index (ConsumptionRecord F) → Timestamp → Result (PreviousDayPersistenceBacktestCase F)
  case_for_target by_timestamp target = do
    actual ← item by_timestamp target
    reference ← minus target lag_24h
    predicted ← item by_timestamp reference
    ok (record {
      consumer_id = actual.consumer_id;
      target_timestamp = target;
      predicted_value_mw = predicted.value_mw;
      actual_value_mw = actual.value_mw;
    })

  -- The comprehension's test, `(target - _LAG) in by_timestamp`.
  unfoldable pub has_lag : Index (ConsumptionRecord F) → Timestamp → Result Bool
  has_lag by_timestamp target = do
    reference ← minus target lag_24h
    ok (contains_key reference by_timestamp)

  unfoldable pub build_backtest_cases :
      List (ConsumptionRecord F) → Result (List (PreviousDayPersistenceBacktestCase F))
  build_backtest_cases [] = ok []
  build_backtest_cases (r ∷ rs) = do
    let history = r ∷ rs
    require_single_consumer history
    by_timestamp ← timestamp_index history
    collect (has_lag by_timestamp) (case_for_target by_timestamp) (sorted (keys by_timestamp))
