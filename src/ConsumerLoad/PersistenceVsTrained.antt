-- ===== src/ConsumerLoad/PersistenceVsTrained.antt =====
-- src/energy_trading/ml/consumer_load/persistence_vs_trained_ols_comparison.py: the baseline beside the one-lag fit.
use armenian_energy_trading.Base.{
  ℕ, List, [], ◌∷◌, map, length, nat_beq, if◌then◌else◌, text_comparable,
}
use armenian_energy_trading.Float.{Float}
use armenian_energy_trading.Ml.Errors.{
  Stage, Reason, Error, invalid_request, value_error, Result, ok, err, ◌>>=◌, ◌>>◌,
}
use armenian_energy_trading.Ml.Cohort.{require_single, require_same, require_strict_chronology}
use armenian_energy_trading.ConsumerLoad.Backtest.{PreviousDayPersistenceBacktestCase}
use armenian_energy_trading.ConsumerLoad.Predict24h.{ConsumerLoadLag24hLinearRegressionPrediction}
use armenian_energy_trading.ConsumerLoad.PersistenceEvaluation as PersistenceEvaluation
use armenian_energy_trading.ConsumerLoad.Evaluate24h as Evaluate24h

abbrev pub message : Reason → Error
message = invalid_request Stage.load_persistence_vs_trained

pub record ConsumerLoadPersistenceVsTrainedOlsMaeComparison (F : Type 0) : Type 0 where
  pub case_count : ℕ
  pub persistence_mae_mw : F
  pub trained_ols_mae_mw : F

module _ {F : Type 0} where
  unfoldable pub require_nonempty_equal_cohort :
      List (PreviousDayPersistenceBacktestCase F)
      → List (ConsumerLoadLag24hLinearRegressionPrediction F)
      → Result (Unit {0})
  require_nonempty_equal_cohort [] [] = err (message Reason.empty_both)
  require_nonempty_equal_cohort [] (b ∷ bs) = err (message Reason.empty_persistence)
  require_nonempty_equal_cohort (a ∷ others) [] = err (message Reason.empty_trained)
  require_nonempty_equal_cohort (a ∷ others) (b ∷ bs) =
      if nat_beq (length (a ∷ others)) (length (b ∷ bs))
      then ok tt
      else err (message Reason.unequal_length)

  unfoldable pub require_single_shared_consumer :
      List (PreviousDayPersistenceBacktestCase F)
      → List (ConsumerLoadLag24hLinearRegressionPrediction F)
      → Result (Unit {0})
  require_single_shared_consumer firsts seconds = do
    let first_consumers = map (λ r. r.consumer_id) firsts
    let second_consumers = map (λ r. r.consumer_id) seconds
    require_single (message Reason.mixed_persistence_consumer) first_consumers
    require_single (message Reason.mixed_trained_consumer) second_consumers
    require_same (message Reason.consumer_mismatch) first_consumers second_consumers

  unfoldable pub require_persistence_chronology :
      List (PreviousDayPersistenceBacktestCase F) → Result (Unit {0})
  require_persistence_chronology rows =
      require_strict_chronology (message Reason.duplicate_persistence_timestamp)
        (message Reason.out_of_order_persistence) (map (λ r. r.target_timestamp) rows)

  unfoldable pub require_trained_chronology :
      List (ConsumerLoadLag24hLinearRegressionPrediction F) → Result (Unit {0})
  require_trained_chronology rows =
      require_strict_chronology (message Reason.duplicate_trained_timestamp)
        (message Reason.out_of_order_trained) (map (λ r. r.target_timestamp) rows)

module _ {F : Type 0} ⦃float : Float F⦄ where
  -- `zip` with `strict=True` would raise on unequal lengths, which an earlier guard excludes.
  unfoldable pub require_pairwise_alignment :
      List (PreviousDayPersistenceBacktestCase F)
      → List (ConsumerLoadLag24hLinearRegressionPrediction F)
      → Result (Unit {0})
  require_pairwise_alignment (a ∷ others) (b ∷ bs) =
      let rest = require_pairwise_alignment others bs in
      if nat_beq a.target_timestamp b.target_timestamp
      then (if float.equal a.actual_value_mw b.actual_value_mw
          then rest
          else err (message Reason.actual_mismatch))
      else err (message Reason.timestamp_mismatch)
  require_pairwise_alignment [] [] = ok tt
  require_pairwise_alignment [] (b ∷ bs) = err value_error
  require_pairwise_alignment (a ∷ others) [] = err value_error

  unfoldable pub compare_mae :
      List (PreviousDayPersistenceBacktestCase F)
      → List (ConsumerLoadLag24hLinearRegressionPrediction F)
      → Result (ConsumerLoadPersistenceVsTrainedOlsMaeComparison F)
  unfolding require_pairwise_alignment
  compare_mae firsts seconds = do
    require_nonempty_equal_cohort firsts seconds
    require_single_shared_consumer firsts seconds
    require_persistence_chronology firsts
    require_trained_chronology seconds
    require_pairwise_alignment firsts seconds
    first_result ← PersistenceEvaluation.evaluate_mae firsts
    second_result ← Evaluate24h.evaluate_mae seconds
    ok (record {
      case_count = length firsts;
      persistence_mae_mw = first_result.mae_mw;
      trained_ols_mae_mw = second_result.mae_mw;
    })
