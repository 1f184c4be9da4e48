-- ===== src/DamPrice/Tests/Comparisons.antt =====
-- The theorem on the three-way comparison at a small market.
use armenian_energy_trading.Base.{◌≡◌, refl, List, [], ◌∷◌, ℕ}
use armenian_energy_trading.Decimal.Whole.{whole}
use armenian_energy_trading.Ml.Errors.{ok}
use armenian_energy_trading.Ml.Cohort.{require_single, require_same, require_strict_chronology}
use armenian_energy_trading.Ml.Arithmetic.{absolute_error, absolute_errors_from}
use armenian_energy_trading.DamPrice.Backtest.{PreviousDayPersistenceBacktestCase}
use armenian_energy_trading.DamPrice.Predict24h.{DamPriceLag24hLinearRegressionPrediction}
use armenian_energy_trading.DamPrice.Predict168h.{DamPriceLag24h168hLinearRegressionPrediction}
use armenian_energy_trading.DamPrice.PersistenceEvaluation as PersistenceEvaluation
use armenian_energy_trading.DamPrice.Evaluate24h as Evaluate24h
use armenian_energy_trading.DamPrice.Evaluate168h as Evaluate168h
use armenian_energy_trading.DamPrice.ThreeWay as ThreeWay
use armenian_energy_trading.DamPrice.ThreeWay.Compared.{Compared, compare_mae-Compared}

abbrev backtest_case : ℕ → ℕ → ℕ → PreviousDayPersistenceBacktestCase ℕ
backtest_case t predicted actual = record {
  market_id = "AM";
  target_timestamp = t;
  predicted_price = record { amount_per_mwh = predicted; currency = "AMD" };
  actual_price = record { amount_per_mwh = actual; currency = "AMD" };
}

abbrev one_lag : ℕ → ℕ → ℕ → DamPriceLag24hLinearRegressionPrediction ℕ
one_lag t predicted actual = record {
  market_id = "AM";
  currency = "AMD";
  target_timestamp = t;
  predicted_amount_per_mwh = predicted;
  actual_amount_per_mwh = actual;
}

abbrev two_lag : ℕ → ℕ → ℕ → DamPriceLag24h168hLinearRegressionPrediction ℕ
two_lag t predicted actual = record {
  market_id = "AM";
  currency = "AMD";
  target_timestamp = t;
  predicted_amount_per_mwh = predicted;
  actual_amount_per_mwh = actual;
}

abbrev cases : List (PreviousDayPersistenceBacktestCase ℕ)
cases = backtest_case 10 60 50 ∷ backtest_case 20 76 70 ∷ []

abbrev one_lag_predictions : List (DamPriceLag24hLinearRegressionPrediction ℕ)
one_lag_predictions = one_lag 10 52 50 ∷ one_lag 20 74 70 ∷ []

abbrev two_lag_predictions : List (DamPriceLag24h168hLinearRegressionPrediction ℕ)
two_lag_predictions = two_lag 10 51 50 ∷ two_lag 20 73 70 ∷ []

abbrev comparison : ThreeWay.DamPricePersistenceVsLag24hVsLag24h168hOlsMaeComparison ℕ
comparison = record {
  case_count = 2;
  currency = "AMD";
  persistence_mae_amount_per_mwh = 8;
  lag_24h_mae_amount_per_mwh = 3;
  lag_24h_168h_mae_amount_per_mwh = 2;
}

was_compared : ThreeWay.compare_mae cases one_lag_predictions two_lag_predictions ≡ ok comparison
unfolding ThreeWay.compare_mae ThreeWay.require_nonempty_equal_cohort
    ThreeWay.require_single_shared_market_and_currency ThreeWay.require_persistence_chronology
    ThreeWay.require_lag_24h_chronology ThreeWay.require_lag_24h_168h_chronology
    ThreeWay.require_three_way_alignment PersistenceEvaluation.evaluate_mae
    PersistenceEvaluation.require_single_market PersistenceEvaluation.require_single_currency
    PersistenceEvaluation.require_chronology Evaluate24h.evaluate_mae
    Evaluate24h.require_single_market Evaluate24h.require_single_currency
    Evaluate24h.require_chronology Evaluate24h.require_finite_values Evaluate24h.mean_error
    Evaluate168h.evaluate_mae Evaluate168h.require_single_market
    Evaluate168h.require_single_currency Evaluate168h.require_chronology
    Evaluate168h.require_finite_values Evaluate168h.mean_error require_single require_same
    require_strict_chronology absolute_error absolute_errors_from
was_compared = refl

compare_mae-Compared_example : Compared cases one_lag_predictions two_lag_predictions comparison
compare_mae-Compared_example =
    compare_mae-Compared cases one_lag_predictions two_lag_predictions was_compared
