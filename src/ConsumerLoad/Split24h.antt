-- ===== src/ConsumerLoad/Split24h.antt =====
-- src/energy_trading/ml/consumer_load/chronological_feature_split.py: the train/evaluation split at a cutoff.
use armenian_energy_trading.Base.{List, [], ◌∷◌, map, ltb, leb, keep, text_comparable}
use armenian_energy_trading.Ml.Errors.{Stage, Reason, Error, invalid_request, Result, ok, err, ◌>>◌}
use armenian_energy_trading.Ml.Cohort.{Timestamp, require_single, require_strict_chronology}
use armenian_energy_trading.ConsumerLoad.Features24h.{ConsumerLoadLag24hFeatureRow}

abbrev pub message : Reason → Error
message = invalid_request Stage.load_split_24h

pub record ConsumerLoadChronologicalFeatureSplit (F : Type 0) : Type 0 where
  pub training_rows : List (ConsumerLoadLag24hFeatureRow F)
  pub evaluation_rows : List (ConsumerLoadLag24hFeatureRow F)

module _ {F : Type 0} where
  unfoldable pub require_single_consumer : List (ConsumerLoadLag24hFeatureRow F) → Result (Unit {0})
  require_single_consumer rows =
      require_single (message Reason.mixed_consumer) (map (λ r. r.consumer_id) rows)

  unfoldable pub require_chronology : List (ConsumerLoadLag24hFeatureRow F) → Result (Unit {0})
  require_chronology rows =
      require_strict_chronology (message Reason.duplicate_timestamp) (message Reason.out_of_order)
        (map (λ r. r.target_timestamp) rows)

  -- The split once both partitions are computed.
  unfoldable pub partitions :
      List (ConsumerLoadLag24hFeatureRow F)
      → List (ConsumerLoadLag24hFeatureRow F)
      → Result (ConsumerLoadChronologicalFeatureSplit F)
  partitions [] evaluation_rows = err (message Reason.empty_training)
  partitions (t ∷ ts) [] = err (message Reason.empty_evaluation)
  partitions (t ∷ ts) (e ∷ es) = ok (record { training_rows = t ∷ ts; evaluation_rows = e ∷ es })

  unfoldable pub split_chronologically :
      List (ConsumerLoadLag24hFeatureRow F)
      → Timestamp
      → Result (ConsumerLoadChronologicalFeatureSplit F)
  unfolding partitions
  split_chronologically [] cutoff = err (message Reason.empty_rows)
  split_chronologically (r ∷ rs) cutoff = do
    let rows = r ∷ rs
    require_single_consumer rows
    require_chronology rows
    partitions (keep (λ row. ltb row.target_timestamp cutoff) rows)
        (keep (λ row. leb cutoff row.target_timestamp) rows)
