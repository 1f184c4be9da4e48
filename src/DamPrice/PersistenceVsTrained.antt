-- ===== src/DamPrice/PersistenceVsTrained.antt =====
-- src/energy_trading/ml/dam_price/persistence_vs_trained_ols_comparison.py: the errors of the baseline and of the one-lag
-- fit over one aligned cohort.
use armenian_energy_trading.Base.{
  ℕ, List, [], ◌∷◌, map, length, nat_beq, ◌==◌, text_comparable, if◌then◌else◌,
}
use armenian_energy_trading.Decimal.{Decimal}
use armenian_energy_trading.Domain.{CurrencyCode}
use armenian_energy_trading.Ml.Errors.{
  Stage, Reason, Error, invalid_request, index_error, Result, ok, err, ◌>>=◌, ◌>>◌,
}
use armenian_energy_trading.Ml.Cohort.{require_single, require_same, require_strict_chronology}
use armenian_energy_trading.DamPrice.Backtest.{PreviousDayPersistenceBacktestCase}
use armenian_energy_trading.DamPrice.Predict24h.{DamPriceLag24hLinearRegressionPrediction}
use armenian_energy_trading.DamPrice.PersistenceEvaluation as PersistenceEvaluation
use armenian_energy_trading.DamPrice.Evaluate24h as Evaluate24h

abbrev pub message : Reason → Error
message = invalid_request Stage.persistence_vs_trained

pub record DamPricePersistenceVsTrainedOlsMaeComparison (D : Type 0) : Type 0 where
  pub case_count : ℕ
  pub currency : CurrencyCode
  pub persistence_mae_amount_per_mwh : D
  pub trained_ols_mae_amount_per_mwh : D

module _ {D : Type 0} where
  unfoldable pub require_nonempty_equal_cohort :
      List (PreviousDayPersistenceBacktestCase D)
      → List (DamPriceLag24hLinearRegressionPrediction D)
      → Result (Unit {0})
  require_nonempty_equal_cohort [] [] = err (message Reason.empty_both)
  require_nonempty_equal_cohort [] (p ∷ ps) = err (message Reason.empty_persistence)
  require_nonempty_equal_cohort (c ∷ cs) [] = err (message Reason.empty_trained)
  require_nonempty_equal_cohort (c ∷ cs) (p ∷ ps) =
      if nat_beq (length (c ∷ cs)) (length (p ∷ ps))
      then ok tt
      else err (message Reason.unequal_length)

  unfoldable pub require_currency_coherence :
      List (PreviousDayPersistenceBacktestCase D) → Result (Unit {0})
  require_currency_coherence [] = ok tt
  require_currency_coherence (c ∷ cs) =
      if c.predicted_price.currency == c.actual_price.currency
      then require_currency_coherence cs
      else err (message Reason.persistence_currency_coherence)

  unfoldable pub require_single_shared_market_and_currency :
      List (PreviousDayPersistenceBacktestCase D)
      → List (DamPriceLag24hLinearRegressionPrediction D)
      → Result CurrencyCode
  unfolding require_currency_coherence
  require_single_shared_market_and_currency [] predictions = err index_error
  require_single_shared_market_and_currency (c ∷ cs) predictions = do
    let cases = c ∷ cs
    let case_markets = map (λ d. d.market_id) cases
    let prediction_markets = map (λ p. p.market_id) predictions
    require_single (message Reason.mixed_persistence_market) case_markets
    require_single (message Reason.mixed_trained_market) prediction_markets
    require_same (message Reason.market_mismatch) case_markets prediction_markets
    require_currency_coherence cases
    let case_currencies = map (λ d. d.actual_price.currency) cases
    let prediction_currencies = map (λ p. p.currency) predictions
    require_single (message Reason.mixed_persistence_currency) case_currencies
    require_single (message Reason.mixed_trained_currency) prediction_currencies
    require_same (message Reason.currency_mismatch) case_currencies prediction_currencies
    ok c.actual_price.currency

  unfoldable pub require_persistence_chronology :
      List (PreviousDayPersistenceBacktestCase D) → Result (Unit {0})
  require_persistence_chronology cases =
      require_strict_chronology (message Reason.duplicate_persistence_timestamp)
        (message Reason.out_of_order_persistence) (map (λ c. c.target_timestamp) cases)

  unfoldable pub require_trained_chronology :
      List (DamPriceLag24hLinearRegressionPrediction D) → Result (Unit {0})
  require_trained_chronology predictions =
      require_strict_chronology (message Reason.duplicate_trained_timestamp)
        (message Reason.out_of_order_trained) (map (λ p. p.target_timestamp) predictions)

module _ {D : Type 0} ⦃dec : Decimal D⦄ where
  -- The loop over the indices of the cases; `trained_predictions[index]` fails past its end.
  unfoldable pub require_pairwise_alignment :
      List (PreviousDayPersistenceBacktestCase D)
      → List (DamPriceLag24hLinearRegressionPrediction D)
      → Result (Unit {0})
  require_pairwise_alignment [] predictions = ok tt
  require_pairwise_alignment (c ∷ cs) [] = err index_error
  require_pairwise_alignment (c ∷ cs) (p ∷ ps) =
      if nat_beq c.target_timestamp p.target_timestamp
      then (if dec.equal c.actual_price.amount_per_mwh p.actual_amount_per_mwh
          then require_pairwise_alignment cs ps
          else err (message Reason.actual_mismatch))
      else err (message Reason.timestamp_mismatch)

  unfoldable pub compare_mae :
      List (PreviousDayPersistenceBacktestCase D)
      → List (DamPriceLag24hLinearRegressionPrediction D)
      → Result (DamPricePersistenceVsTrainedOlsMaeComparison D)
  compare_mae persistence_cases trained_predictions = do
    require_nonempty_equal_cohort persistence_cases trained_predictions
    currency ← require_single_shared_market_and_currency persistence_cases trained_predictions
    require_persistence_chronology persistence_cases
    require_trained_chronology trained_predictions
    require_pairwise_alignment persistence_cases trained_predictions
    persistence_result ← PersistenceEvaluation.evaluate_mae persistence_cases
    trained_result ← Evaluate24h.evaluate_mae trained_predictions
    ok (record {
      case_count = length persistence_cases;
      currency = currency;
      persistence_mae_amount_per_mwh = persistence_result.mae_amount_per_mwh;
      trained_ols_mae_amount_per_mwh = trained_result.mae_amount_per_mwh;
    })
