-- ===== src/ConsumerLoad/Features24h.antt =====
-- src/energy_trading/ml/consumer_load/lag_24h_features.py: one supervised row for each exact pair of observations.
use armenian_energy_trading.Base.{List, [], ◌∷◌, Bool, map, text_comparable}
use armenian_energy_trading.Domain.{EntityId, ConsumptionRecord}
use armenian_energy_trading.Ml.Errors.{
  Stage, Reason, Error, invalid_request, Result, ok, ◌>>=◌, ◌>>◌,
}
use armenian_energy_trading.Ml.Cohort.{Timestamp, require_single}
use armenian_energy_trading.Ml.Index.{
  Index, lag_24h, minus, contains_key, item, keys, unique_timestamp_index, sorted, collect,
}

abbrev pub message : Reason → Error
message = invalid_request Stage.load_features_24h

pub record ConsumerLoadLag24hFeatureRow (F : Type 0) : Type 0 where
  pub consumer_id : EntityId
  pub target_timestamp : Timestamp
  pub lag_24h_mw : F
  pub target_value_mw : F

module _ {F : Type 0} where
  unfoldable pub require_single_consumer : List (ConsumptionRecord F) → Result (Unit {0})
  require_single_consumer history =
      require_single (message Reason.mixed_consumer) (map (λ r. r.consumer_id) history)

  unfoldable pub timestamp_index : List (ConsumptionRecord F) → Result (Index (ConsumptionRecord F))
  timestamp_index history =
      unique_timestamp_index (message Reason.duplicate_timestamp) (λ r. r.timestamp) history

  unfoldable pub row_for_target :
      Index (ConsumptionRecord F) → Timestamp → Result (ConsumerLoadLag24hFeatureRow F)
  row_for_target by_timestamp target = do
    actual ← item by_timestamp target
    reference ← minus target lag_24h
    lag ← item by_timestamp reference
    ok (record {
      consumer_id = actual.consumer_id;
      target_timestamp = target;
      lag_24h_mw = lag.value_mw;
      target_value_mw = actual.value_mw;
    })

  -- The comprehension's test, `(target - _LAG) in by_timestamp`.
  unfoldable pub has_lag : Index (ConsumptionRecord F) → Timestamp → Result Bool
  has_lag by_timestamp target = do
    reference ← minus target lag_24h
    ok (contains_key reference by_timestamp)

  unfoldable pub build_feature_rows :
      List (ConsumptionRecord F) → Result (List (ConsumerLoadLag24hFeatureRow F))
  build_feature_rows [] = ok []
  build_feature_rows (r ∷ rs) = do
    let history = r ∷ rs
    require_single_consumer history
    by_timestamp ← timestamp_index history
    collect (has_lag by_timestamp) (row_for_target by_timestamp) (sorted (keys by_timestamp))
