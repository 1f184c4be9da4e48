-- ===== src/ConsumerLoad/Split168h.antt =====
-- src/energy_trading/ml/consumer_load/lag_24h_168h_chronological_split.py: the train/evaluation split at a cutoff.
pub mod Partition
use armenian_energy_trading.Base.{
  ℕ, List, [], ◌∷◌, Bool, true, false, not, ◌&&◌, ◌||◌, map, length, ltb, leb, nat_beq, keep,
  if◌then◌else◌, text_comparable, Option, none, some,
}
use armenian_energy_trading.Domain.{
  EntityId, ConsumptionRecord, LoadForecastPoint, ConsumerLoadForecastModelRequest,
}
use armenian_energy_trading.Float.{Float}
use armenian_energy_trading.Ml.Errors.{
  Stage, Reason, Error, invalid_request, index_error, overflow_error, zero_division_error, Result,
  ok, err, ◌>>=◌, ◌>>◌, traverse,
}
use armenian_energy_trading.Ml.Cohort.{
  Timestamp, require_single, require_same, require_strict_chronology, sole,
}
use armenian_energy_trading.Ml.Index.{
  Index, lag_24h, lag_168h, minus, contains_key, item, keys, unique_timestamp_index, sorted,
  collect,
}
use armenian_energy_trading.ConsumerLoad.Features168h.{ConsumerLoadLag24h168hFeatureRow}

abbrev pub message : Reason → Error
message = invalid_request Stage.load_split_168h

pub record ConsumerLoadLag24h168hChronologicalFeatureSplit (F : Type 0) : Type 0 where
  pub training_rows : List (ConsumerLoadLag24h168hFeatureRow F)
  pub evaluation_rows : List (ConsumerLoadLag24h168hFeatureRow F)

module _ {F : Type 0} where
  unfoldable pub require_single_consumer :
      List (ConsumerLoadLag24h168hFeatureRow F) → Result (Unit {0})
  require_single_consumer rows =
      require_single (message Reason.mixed_consumer) (map (λ r. r.consumer_id) rows)

  unfoldable pub require_chronology : List (ConsumerLoadLag24h168hFeatureRow F) → Result (Unit {0})
  require_chronology rows =
      require_strict_chronology (message Reason.duplicate_timestamp) (message Reason.out_of_order)
        (map (λ r. r.target_timestamp) rows)

  -- The split once both partitions are computed.
  unfoldable pub partitions :
      List (ConsumerLoadLag24h168hFeatureRow F)
      → List (ConsumerLoadLag24h168hFeatureRow F)
      → Result (ConsumerLoadLag24h168hChronologicalFeatureSplit F)
  partitions [] evaluation_rows = err (message Reason.empty_training)
  partitions (t ∷ ts) [] = err (message Reason.empty_evaluation)
  partitions (t ∷ ts) (e ∷ es) = ok (record { training_rows = t ∷ ts; evaluation_rows = e ∷ es })

  unfoldable pub split_chronologically :
      List (ConsumerLoadLag24h168hFeatureRow F)
      → Timestamp
      → Result (ConsumerLoadLag24h168hChronologicalFeatureSplit F)
  unfolding partitions
  split_chronologically [] cutoff = err (message Reason.empty_rows)
  split_chronologically (r ∷ rs) cutoff = do
    let rows = r ∷ rs
    require_single_consumer rows
    require_chronology rows
    partitions (keep (λ row. ltb row.target_timestamp cutoff) rows)
        (keep (λ row. leb cutoff row.target_timestamp) rows)
