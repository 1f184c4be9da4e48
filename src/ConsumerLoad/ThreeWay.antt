-- ===== src/ConsumerLoad/ThreeWay.antt =====
-- src/energy_trading/ml/consumer_load/persistence_vs_lag_24h_vs_lag_24h_168h_ols_comparison.py: the errors of the
-- baseline and of both fits over one aligned cohort.
pub mod Compared
use armenian_energy_trading.Base.{
  ℕ, List, [], ◌∷◌, ◌&&◌, map, length, nat_beq, ◌==◌, text_comparable, if◌then◌else◌,
}
use armenian_energy_trading.Float.{Float}
use armenian_energy_trading.Ml.Errors.{
  Stage, Reason, Error, invalid_request, index_error, value_error, Result, ok, err, ◌>>=◌, ◌>>◌,
}
use armenian_energy_trading.Ml.Cohort.{require_single, require_same, require_strict_chronology}
use armenian_energy_trading.ConsumerLoad.Backtest.{PreviousDayPersistenceBacktestCase}
use armenian_energy_trading.ConsumerLoad.Predict24h.{ConsumerLoadLag24hLinearRegressionPrediction}
use armenian_energy_trading.ConsumerLoad.Predict168h.{
  ConsumerLoadLag24h168hLinearRegressionPrediction,
}
use armenian_energy_trading.ConsumerLoad.PersistenceEvaluation as PersistenceEvaluation
use armenian_energy_trading.ConsumerLoad.Evaluate24h as Evaluate24h
use armenian_energy_trading.ConsumerLoad.Evaluate168h as Evaluate168h

abbrev pub message : Reason → Error
message = invalid_request Stage.load_three_way

pub record ConsumerLoadPersistenceVsLag24hVsLag24h168hOlsMaeComparison (F : Type 0) : Type 0 where
  pub case_count : ℕ
  pub persistence_mae_mw : F
  pub lag_24h_mae_mw : F
  pub lag_24h_168h_mae_mw : F

module _ {F : Type 0} where
  unfoldable pub require_nonempty_equal_cohort :
      List (PreviousDayPersistenceBacktestCase F)
      → List (ConsumerLoadLag24hLinearRegressionPrediction F)
      → List (ConsumerLoadLag24h168hLinearRegressionPrediction F)
      → Result (Unit {0})
  require_nonempty_equal_cohort [] [] [] = err (message Reason.empty_all)
  require_nonempty_equal_cohort [] ps (q ∷ qs) = err (message Reason.empty_persistence)
  require_nonempty_equal_cohort [] (p ∷ ps) [] = err (message Reason.empty_persistence)
  require_nonempty_equal_cohort (c ∷ cs) [] qs = err (message Reason.empty_lag_24h)
  require_nonempty_equal_cohort (c ∷ cs) (p ∷ ps) [] = err (message Reason.empty_lag_24h_168h)
  require_nonempty_equal_cohort (c ∷ cs) (p ∷ ps) (q ∷ qs) =
      if nat_beq (length (c ∷ cs)) (length (p ∷ ps))
        && (nat_beq (length (c ∷ cs)) (length (q ∷ qs))
            && nat_beq (length (p ∷ ps)) (length (q ∷ qs)))
      then ok tt
      else err (message Reason.unequal_length)

  unfoldable pub require_single_shared_consumer :
      List (PreviousDayPersistenceBacktestCase F)
      → List (ConsumerLoadLag24hLinearRegressionPrediction F)
      → List (ConsumerLoadLag24h168hLinearRegressionPrediction F)
      → Result (Unit {0})
  require_single_shared_consumer cases ps qs = do
    let case_consumers = map (λ r. r.consumer_id) cases
    let lag_24h_consumers = map (λ r. r.consumer_id) ps
    let lag_24h_168h_consumers = map (λ r. r.consumer_id) qs
    require_single (message Reason.mixed_persistence_consumer) case_consumers
    require_single (message Reason.mixed_lag_24h_consumer) lag_24h_consumers
    require_single (message Reason.mixed_lag_24h_168h_consumer) lag_24h_168h_consumers
    require_same (message Reason.consumer_mismatch) case_consumers lag_24h_consumers
    require_same (message Reason.consumer_mismatch) case_consumers lag_24h_168h_consumers
    require_same (message Reason.consumer_mismatch) lag_24h_consumers lag_24h_168h_consumers

  unfoldable pub require_persistence_chronology :
      List (PreviousDayPersistenceBacktestCase F) → Result (Unit {0})
  require_persistence_chronology rows =
      require_strict_chronology (message Reason.duplicate_persistence_timestamp)
        (message Reason.out_of_order_persistence) (map (λ r. r.target_timestamp) rows)

  unfoldable pub require_lag_24h_chronology :
      List (ConsumerLoadLag24hLinearRegressionPrediction F) → Result (Unit {0})
  require_lag_24h_chronology rows =
      require_strict_chronology (message Reason.duplicate_lag_24h_timestamp)
        (message Reason.out_of_order_lag_24h) (map (λ r. r.target_timestamp) rows)

  unfoldable pub require_lag_24h_168h_chronology :
      List (ConsumerLoadLag24h168hLinearRegressionPrediction F) → Result (Unit {0})
  require_lag_24h_168h_chronology rows =
      require_strict_chronology (message Reason.duplicate_lag_24h_168h_timestamp)
        (message Reason.out_of_order_lag_24h_168h) (map (λ r. r.target_timestamp) rows)

module _ {F : Type 0} ⦃float : Float F⦄ where
  -- `zip` with `strict=True` raises on unequal lengths.
  unfoldable pub require_three_way_alignment :
      List (PreviousDayPersistenceBacktestCase F)
      → List (ConsumerLoadLag24hLinearRegressionPrediction F)
      → List (ConsumerLoadLag24h168hLinearRegressionPrediction F)
      → Result (Unit {0})
  require_three_way_alignment [] [] [] = ok tt
  require_three_way_alignment [] [] (q ∷ qs) = err value_error
  require_three_way_alignment [] (p ∷ ps) qs = err value_error
  require_three_way_alignment (c ∷ cs) [] qs = err value_error
  require_three_way_alignment (c ∷ cs) (p ∷ ps) [] = err value_error
  require_three_way_alignment (c ∷ cs) (p ∷ ps) (q ∷ qs) =
      if nat_beq c.target_timestamp p.target_timestamp
        && (nat_beq c.target_timestamp q.target_timestamp
            && nat_beq p.target_timestamp q.target_timestamp)
      then (if float.equal c.actual_value_mw p.actual_value_mw
            && (float.equal c.actual_value_mw q.actual_value_mw
                && float.equal p.actual_value_mw q.actual_value_mw)
          then require_three_way_alignment cs ps qs
          else err (message Reason.actual_mismatch))
      else err (message Reason.timestamp_mismatch)

  unfoldable pub compare_mae :
      List (PreviousDayPersistenceBacktestCase F)
      → List (ConsumerLoadLag24hLinearRegressionPrediction F)
      → List (ConsumerLoadLag24h168hLinearRegressionPrediction F)
      → Result (ConsumerLoadPersistenceVsLag24hVsLag24h168hOlsMaeComparison F)
  compare_mae persistence_cases lag_24h_predictions lag_24h_168h_predictions = do
    require_nonempty_equal_cohort persistence_cases lag_24h_predictions lag_24h_168h_predictions
    require_single_shared_consumer persistence_cases lag_24h_predictions lag_24h_168h_predictions
    require_persistence_chronology persistence_cases
    require_lag_24h_chronology lag_24h_predictions
    require_lag_24h_168h_chronology lag_24h_168h_predictions
    require_three_way_alignment persistence_cases lag_24h_predictions lag_24h_168h_predictions
    persistence_result ← PersistenceEvaluation.evaluate_mae persistence_cases
    lag_24h_result ← Evaluate24h.evaluate_mae lag_24h_predictions
    lag_24h_168h_result ← Evaluate168h.evaluate_mae lag_24h_168h_predictions
    ok (record {
      case_count = length persistence_cases;
      persistence_mae_mw = persistence_result.mae_mw;
      lag_24h_mae_mw = lag_24h_result.mae_mw;
      lag_24h_168h_mae_mw = lag_24h_168h_result.mae_mw;
    })
