-- ===== src/DamPrice/ThreeWay.antt =====
-- src/energy_trading/ml/dam_price/persistence_vs_lag_24h_vs_lag_24h_168h_ols_comparison.py: the errors of the
-- baseline and of both fits over one aligned cohort.
pub mod Compared
use armenian_energy_trading.Base.{
  ℕ, List, [], ◌∷◌, ◌&&◌, map, length, nat_beq, ◌==◌, text_comparable, if◌then◌else◌,
}
use armenian_energy_trading.Decimal.{Decimal}
use armenian_energy_trading.Domain.{CurrencyCode}
use armenian_energy_trading.Ml.Errors.{
  Stage, Reason, Error, invalid_request, index_error, value_error, Result, ok, err, ◌>>=◌, ◌>>◌,
}
use armenian_energy_trading.Ml.Cohort.{require_single, require_same, require_strict_chronology}
use armenian_energy_trading.DamPrice.Backtest.{PreviousDayPersistenceBacktestCase}
use armenian_energy_trading.DamPrice.Predict24h.{DamPriceLag24hLinearRegressionPrediction}
use armenian_energy_trading.DamPrice.Predict168h.{DamPriceLag24h168hLinearRegressionPrediction}
use armenian_energy_trading.DamPrice.PersistenceEvaluation as PersistenceEvaluation
use armenian_energy_trading.DamPrice.Evaluate24h as Evaluate24h
use armenian_energy_trading.DamPrice.Evaluate168h as Evaluate168h

abbrev pub message : Reason → Error
message = invalid_request Stage.three_way

pub record DamPricePersistenceVsLag24hVsLag24h168hOlsMaeComparison (D : Type 0) : Type 0 where
  pub case_count : ℕ
  pub currency : CurrencyCode
  pub persistence_mae_amount_per_mwh : D
  pub lag_24h_mae_amount_per_mwh : D
  pub lag_24h_168h_mae_amount_per_mwh : D

module _ {D : Type 0} where
  unfoldable pub require_nonempty_equal_cohort :
      List (PreviousDayPersistenceBacktestCase D)
      → List (DamPriceLag24hLinearRegressionPrediction D)
      → List (DamPriceLag24h168hLinearRegressionPrediction D)
      → Result (Unit {0})
  require_nonempty_equal_cohort [] [] [] = err (message Reason.empty_all)
  require_nonempty_equal_cohort [] ps (q ∷ qs) = err (message Reason.empty_persistence)
  require_nonempty_equal_cohort [] (p ∷ ps) [] = err (message Reason.empty_persistence)
  require_nonempty_equal_cohort (c ∷ cs) [] qs = err (message Reason.empty_lag_24h)
  require_nonempty_equal_cohort (c ∷ cs) (p ∷ ps) [] = err (message Reason.empty_lag_24h_168h)
  require_nonempty_equal_cohort (c ∷ cs) (p ∷ ps) (q ∷ qs) =
      if nat_beq (length (c ∷ cs)) (length (p ∷ ps))
        && (nat_beq (length (c ∷ cs)) (length (q ∷ qs))
            && nat_beq (length (p ∷ ps)) (length (q ∷ qs)))
      then ok tt
      else err (message Reason.unequal_length)

  unfoldable pub require_currency_coherence :
      List (PreviousDayPersistenceBacktestCase D) → Result (Unit {0})
  require_currency_coherence [] = ok tt
  require_currency_coherence (c ∷ cs) =
      if c.predicted_price.currency == c.actual_price.currency
      then require_currency_coherence cs
      else err (message Reason.persistence_currency_coherence)

  unfoldable pub require_single_shared_market_and_currency :
      List (PreviousDayPersistenceBacktestCase D)
      → List (DamPriceLag24hLinearRegressionPrediction D)
      → List (DamPriceLag24h168hLinearRegressionPrediction D)
      → Result CurrencyCode
  unfolding require_currency_coherence
  require_single_shared_market_and_currency [] ps qs = err index_error
  require_single_shared_market_and_currency (c ∷ cs) ps qs = do
    let cases = c ∷ cs
    let case_markets = map (λ r. r.market_id) cases
    let lag_24h_markets = map (λ r. r.market_id) ps
    let lag_24h_168h_markets = map (λ r. r.market_id) qs
    require_single (message Reason.mixed_persistence_market) case_markets
    require_single (message Reason.mixed_lag_24h_market) lag_24h_markets
    require_single (message Reason.mixed_lag_24h_168h_market) lag_24h_168h_markets
    require_same (message Reason.market_mismatch) case_markets lag_24h_markets
    require_same (message Reason.market_mismatch) case_markets lag_24h_168h_markets
    require_same (message Reason.market_mismatch) lag_24h_markets lag_24h_168h_markets
    require_currency_coherence cases
    let case_currencies = map (λ r. r.actual_price.currency) cases
    let lag_24h_currencies = map (λ r. r.currency) ps
    let lag_24h_168h_currencies = map (λ r. r.currency) qs
    require_single (message Reason.mixed_persistence_currency) case_currencies
    require_single (message Reason.mixed_lag_24h_currency) lag_24h_currencies
    require_single (message Reason.mixed_lag_24h_168h_currency) lag_24h_168h_currencies
    require_same (message Reason.currency_mismatch) case_currencies lag_24h_currencies
    require_same (message Reason.currency_mismatch) case_currencies lag_24h_168h_currencies
    require_same (message Reason.currency_mismatch) lag_24h_currencies lag_24h_168h_currencies
    ok c.actual_price.currency

  unfoldable pub require_persistence_chronology :
      List (PreviousDayPersistenceBacktestCase D) → Result (Unit {0})
  require_persistence_chronology rows =
      require_strict_chronology (message Reason.duplicate_persistence_timestamp)
        (message Reason.out_of_order_persistence) (map (λ r. r.target_timestamp) rows)

  unfoldable pub require_lag_24h_chronology :
      List (DamPriceLag24hLinearRegressionPrediction D) → Result (Unit {0})
  require_lag_24h_chronology rows =
      require_strict_chronology (message Reason.duplicate_lag_24h_timestamp)
        (message Reason.out_of_order_lag_24h) (map (λ r. r.target_timestamp) rows)

  unfoldable pub require_lag_24h_168h_chronology :
      List (DamPriceLag24h168hLinearRegressionPrediction D) → Result (Unit {0})
  require_lag_24h_168h_chronology rows =
      require_strict_chronology (message Reason.duplicate_lag_24h_168h_timestamp)
        (message Reason.out_of_order_lag_24h_168h) (map (λ r. r.target_timestamp) rows)

module _ {D : Type 0} ⦃dec : Decimal D⦄ where
  -- The loop over the indices of the cases; the two others fail past their end.
  unfoldable pub require_three_way_alignment :
      List (PreviousDayPersistenceBacktestCase D)
      → List (DamPriceLag24hLinearRegressionPrediction D)
      → List (DamPriceLag24h168hLinearRegressionPrediction D)
      → Result (Unit {0})
  require_three_way_alignment [] ps qs = ok tt
  require_three_way_alignment (c ∷ cs) [] qs = err index_error
  require_three_way_alignment (c ∷ cs) (p ∷ ps) [] = err index_error
  require_three_way_alignment (c ∷ cs) (p ∷ ps) (q ∷ qs) =
      if nat_beq c.target_timestamp p.target_timestamp
        && (nat_beq c.target_timestamp q.target_timestamp
            && nat_beq p.target_timestamp q.target_timestamp)
      then (if dec.equal c.actual_price.amount_per_mwh p.actual_amount_per_mwh
            && (dec.equal c.actual_price.amount_per_mwh q.actual_amount_per_mwh
                && dec.equal p.actual_amount_per_mwh q.actual_amount_per_mwh)
          then require_three_way_alignment cs ps qs
          else err (message Reason.actual_mismatch))
      else err (message Reason.timestamp_mismatch)

  unfoldable pub compare_mae :
      List (PreviousDayPersistenceBacktestCase D)
      → List (DamPriceLag24hLinearRegressionPrediction D)
      → List (DamPriceLag24h168hLinearRegressionPrediction D)
      → Result (DamPricePersistenceVsLag24hVsLag24h168hOlsMaeComparison D)
  compare_mae persistence_cases lag_24h_predictions lag_24h_168h_predictions = do
    require_nonempty_equal_cohort persistence_cases lag_24h_predictions lag_24h_168h_predictions
    currency ←
        require_single_shared_market_and_currency persistence_cases lag_24h_predictions
          lag_24h_168h_predictions
    require_persistence_chronology persistence_cases
    require_lag_24h_chronology lag_24h_predictions
    require_lag_24h_168h_chronology lag_24h_168h_predictions
    require_three_way_alignment persistence_cases lag_24h_predictions lag_24h_168h_predictions
    persistence_result ← PersistenceEvaluation.evaluate_mae persistence_cases
    lag_24h_result ← Evaluate24h.evaluate_mae lag_24h_predictions
    lag_24h_168h_result ← Evaluate168h.evaluate_mae lag_24h_168h_predictions
    ok (record {
      case_count = length persistence_cases;
      currency = currency;
      persistence_mae_amount_per_mwh = persistence_result.mae_amount_per_mwh;
      lag_24h_mae_amount_per_mwh = lag_24h_result.mae_amount_per_mwh;
      lag_24h_168h_mae_amount_per_mwh = lag_24h_168h_result.mae_amount_per_mwh;
    })
