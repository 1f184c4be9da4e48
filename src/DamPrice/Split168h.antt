-- ===== src/DamPrice/Split168h.antt =====
-- src/energy_trading/ml/dam_price/lag_24h_168h_chronological_feature_split.py: the train/evaluation split at a cutoff.
pub mod Partition
use armenian_energy_trading.Base.{List, [], ◌∷◌, map, ltb, leb, keep, text_comparable}
use armenian_energy_trading.Ml.Errors.{Stage, Reason, Error, invalid_request, Result, ok, err, ◌>>◌}
use armenian_energy_trading.Ml.Cohort.{Timestamp, require_single, require_strict_chronology}
use armenian_energy_trading.DamPrice.Features168h.{DamPriceLag24h168hFeatureRow}

abbrev pub message : Reason → Error
message = invalid_request Stage.split_168h

pub record DamPriceLag24h168hChronologicalFeatureSplit (D : Type 0) : Type 0 where
  pub training_rows : List (DamPriceLag24h168hFeatureRow D)
  pub evaluation_rows : List (DamPriceLag24h168hFeatureRow D)

module _ {D : Type 0} where
  unfoldable pub require_single_market : List (DamPriceLag24h168hFeatureRow D) → Result (Unit {0})
  require_single_market rows =
      require_single (message Reason.mixed_market) (map (λ r. r.market_id) rows)

  unfoldable pub require_single_currency : List (DamPriceLag24h168hFeatureRow D) → Result (Unit {0})
  require_single_currency rows =
      require_single (message Reason.mixed_currency) (map (λ r. r.currency) rows)

  unfoldable pub require_chronology : List (DamPriceLag24h168hFeatureRow D) → Result (Unit {0})
  require_chronology rows =
      require_strict_chronology (message Reason.duplicate_timestamp) (message Reason.out_of_order)
        (map (λ r. r.target_timestamp) rows)

  -- The split once both partitions are computed.
  unfoldable pub partitions :
      List (DamPriceLag24h168hFeatureRow D)
      → List (DamPriceLag24h168hFeatureRow D)
      → Result (DamPriceLag24h168hChronologicalFeatureSplit D)
  partitions [] evaluation_rows = err (message Reason.empty_training)
  partitions (t ∷ ts) [] = err (message Reason.empty_evaluation)
  partitions (t ∷ ts) (e ∷ es) = ok (record { training_rows = t ∷ ts; evaluation_rows = e ∷ es })

  unfoldable pub split_chronologically :
      List (DamPriceLag24h168hFeatureRow D)
      → Timestamp
      → Result (DamPriceLag24h168hChronologicalFeatureSplit D)
  unfolding partitions
  split_chronologically [] cutoff = err (message Reason.empty_rows)
  split_chronologically (r ∷ rs) cutoff = do
    let rows = r ∷ rs
    require_single_market rows
    require_single_currency rows
    require_chronology rows
    partitions (keep (λ row. ltb row.target_timestamp cutoff) rows)
        (keep (λ row. leb cutoff row.target_timestamp) rows)
