-- ===== src/ConsumerLoad/Features168h.antt =====
-- src/energy_trading/ml/consumer_load/lag_24h_168h_features.py: one supervised row for each exact triple of observations.
pub mod Exact
use armenian_energy_trading.Base.{
  ℕ, List, [], ◌∷◌, Bool, true, false, not, ◌&&◌, ◌||◌, map, length, ltb, leb, nat_beq, keep,
  if◌then◌else◌, text_comparable, Option, none, some,
}
use armenian_energy_trading.Domain.{
  EntityId, ConsumptionRecord, LoadForecastPoint, ConsumerLoadForecastModelRequest,
}
use armenian_energy_trading.Float.{Float}
use armenian_energy_trading.Ml.Errors.{
  Stage, Reason, Error, invalid_request, index_error, overflow_error, zero_division_error, Result,
  ok, err, ◌>>=◌, ◌>>◌, traverse,
}
use armenian_energy_trading.Ml.Cohort.{
  Timestamp, require_single, require_same, require_strict_chronology, sole,
}
use armenian_energy_trading.Ml.Index.{
  Index, lag_24h, lag_168h, minus, contains_key, item, keys, unique_timestamp_index, sorted,
  collect,
}

abbrev pub message : Reason → Error
message = invalid_request Stage.load_features_168h

pub record ConsumerLoadLag24h168hFeatureRow (F : Type 0) : Type 0 where
  pub consumer_id : EntityId
  pub target_timestamp : Timestamp
  pub lag_24h_mw : F
  pub lag_168h_mw : F
  pub target_value_mw : F

module _ {F : Type 0} where
  unfoldable pub require_single_consumer : List (ConsumptionRecord F) → Result (Unit {0})
  require_single_consumer history =
      require_single (message Reason.mixed_consumer) (map (λ r. r.consumer_id) history)

  unfoldable pub timestamp_index : List (ConsumptionRecord F) → Result (Index (ConsumptionRecord F))
  timestamp_index history =
      unique_timestamp_index (message Reason.duplicate_timestamp) (λ r. r.timestamp) history

  unfoldable pub row_for_target :
      Index (ConsumptionRecord F) → Timestamp → Result (ConsumerLoadLag24h168hFeatureRow F)
  row_for_target by_timestamp target = do
    actual ← item by_timestamp target
    reference_24h ← minus target lag_24h
    lag_24h_record ← item by_timestamp reference_24h
    reference_168h ← minus target lag_168h
    lag_168h_record ← item by_timestamp reference_168h
    ok (record {
      consumer_id = actual.consumer_id;
      target_timestamp = target;
      lag_24h_mw = lag_24h_record.value_mw;
      lag_168h_mw = lag_168h_record.value_mw;
      target_value_mw = actual.value_mw;
    })

  -- The comprehension's test: the second lag is computed only where the first is present.
  unfoldable pub has_lags : Index (ConsumptionRecord F) → Timestamp → Result Bool
  has_lags by_timestamp target = do
    reference_24h ← minus target lag_24h
    if contains_key reference_24h by_timestamp
        then minus target lag_168h
          >>= (λ reference_168h. ok (contains_key reference_168h by_timestamp))
        else ok false

  unfoldable pub build_feature_rows :
      List (ConsumptionRecord F) → Result (List (ConsumerLoadLag24h168hFeatureRow F))
  build_feature_rows [] = ok []
  build_feature_rows (r ∷ rs) = do
    let history = r ∷ rs
    require_single_consumer history
    by_timestamp ← timestamp_index history
    collect (has_lags by_timestamp) (row_for_target by_timestamp) (sorted (keys by_timestamp))
