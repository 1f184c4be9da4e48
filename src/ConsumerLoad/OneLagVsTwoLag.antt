-- ===== src/ConsumerLoad/OneLagVsTwoLag.antt =====
-- src/energy_trading/ml/consumer_load/lag_24h_vs_lag_24h_168h_ols_comparison.py: the one-lag fit beside the two-lag fit.
use armenian_energy_trading.Base.{
  ℕ, List, [], ◌∷◌, map, length, nat_beq, if◌then◌else◌, text_comparable,
}
use armenian_energy_trading.Float.{Float}
use armenian_energy_trading.Ml.Errors.{
  Stage, Reason, Error, invalid_request, value_error, Result, ok, err, ◌>>=◌, ◌>>◌,
}
use armenian_energy_trading.Ml.Cohort.{require_single, require_same, require_strict_chronology}
use armenian_energy_trading.ConsumerLoad.Predict24h.{ConsumerLoadLag24hLinearRegressionPrediction}
use armenian_energy_trading.ConsumerLoad.Predict168h.{
  ConsumerLoadLag24h168hLinearRegressionPrediction,
}
use armenian_energy_trading.ConsumerLoad.Evaluate24h as Evaluate24h
use armenian_energy_trading.ConsumerLoad.Evaluate168h as Evaluate168h

abbrev pub message : Reason → Error
message = invalid_request Stage.load_lag_24h_vs_lag_24h_168h

pub record ConsumerLoadLag24hVsLag24h168hOlsMaeComparison (F : Type 0) : Type 0 where
  pub case_count : ℕ
  pub lag_24h_mae_mw : F
  pub lag_24h_168h_mae_mw : F

module _ {F : Type 0} where
  unfoldable pub require_nonempty_equal_cohort :
      List (ConsumerLoadLag24hLinearRegressionPrediction F)
      → List (ConsumerLoadLag24h168hLinearRegressionPrediction F)
      → Result (Unit {0})
  require_nonempty_equal_cohort [] [] = err (message Reason.empty_both)
  require_nonempty_equal_cohort [] (b ∷ bs) = err (message Reason.empty_lag_24h)
  require_nonempty_equal_cohort (a ∷ others) [] = err (message Reason.empty_lag_24h_168h)
  require_nonempty_equal_cohort (a ∷ others) (b ∷ bs) =
      if nat_beq (length (a ∷ others)) (length (b ∷ bs))
      then ok tt
      else err (message Reason.unequal_length)

  unfoldable pub require_single_shared_consumer :
      List (ConsumerLoadLag24hLinearRegressionPrediction F)
      → List (ConsumerLoadLag24h168hLinearRegressionPrediction F)
      → Result (Unit {0})
  require_single_shared_consumer firsts seconds = do
    let first_consumers = map (λ r. r.consumer_id) firsts
    let second_consumers = map (λ r. r.consumer_id) seconds
    require_single (message Reason.mixed_lag_24h_consumer) first_consumers
    require_single (message Reason.mixed_lag_24h_168h_consumer) second_consumers
    require_same (message Reason.consumer_mismatch) first_consumers second_consumers

  unfoldable pub require_lag_24h_chronology :
      List (ConsumerLoadLag24hLinearRegressionPrediction F) → Result (Unit {0})
  require_lag_24h_chronology rows =
      require_strict_chronology (message Reason.duplicate_lag_24h_timestamp)
        (message Reason.out_of_order_lag_24h) (map (λ r. r.target_timestamp) rows)

  unfoldable pub require_lag_24h_168h_chronology :
      List (ConsumerLoadLag24h168hLinearRegressionPrediction F) → Result (Unit {0})
  require_lag_24h_168h_chronology rows =
      require_strict_chronology (message Reason.duplicate_lag_24h_168h_timestamp)
        (message Reason.out_of_order_lag_24h_168h) (map (λ r. r.target_timestamp) rows)

module _ {F : Type 0} ⦃float : Float F⦄ where
  -- `zip` with `strict=True` would raise on unequal lengths, which an earlier guard excludes.
  unfoldable pub require_pairwise_alignment :
      List (ConsumerLoadLag24hLinearRegressionPrediction F)
      → List (ConsumerLoadLag24h168hLinearRegressionPrediction F)
      → Result (Unit {0})
  require_pairwise_alignment (a ∷ others) (b ∷ bs) =
      let rest = require_pairwise_alignment others bs in
      if nat_beq a.target_timestamp b.target_timestamp
      then (if float.equal a.actual_value_mw b.actual_value_mw
          then rest
          else err (message Reason.actual_mismatch))
      else err (message Reason.timestamp_mismatch)
  require_pairwise_alignment [] [] = ok tt
  require_pairwise_alignment [] (b ∷ bs) = err value_error
  require_pairwise_alignment (a ∷ others) [] = err value_error

  unfoldable pub compare_mae :
      List (ConsumerLoadLag24hLinearRegressionPrediction F)
      → List (ConsumerLoadLag24h168hLinearRegressionPrediction F)
      → Result (ConsumerLoadLag24hVsLag24h168hOlsMaeComparison F)
  unfolding require_pairwise_alignment
  compare_mae firsts seconds = do
    require_nonempty_equal_cohort firsts seconds
    require_single_shared_consumer firsts seconds
    require_lag_24h_chronology firsts
    require_lag_24h_168h_chronology seconds
    require_pairwise_alignment firsts seconds
    first_result ← Evaluate24h.evaluate_mae firsts
    second_result ← Evaluate168h.evaluate_mae seconds
    ok (record {
      case_count = length firsts;
      lag_24h_mae_mw = first_result.mae_mw;
      lag_24h_168h_mae_mw = second_result.mae_mw;
    })
