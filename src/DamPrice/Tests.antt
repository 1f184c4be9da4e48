-- ===== src/DamPrice/Tests.antt =====
-- The theorems on the DAM price experiments at a small market.
mod Comparisons
use armenian_energy_trading.Base.{
  ◌≡◌, refl, ◌↔◌, inl, ◌++◌, List, [], ◌∷◌, ◌<◌, ◌≤◌, ℕ, All, Elem, map, arith,
}
use armenian_energy_trading.Decimal.Whole.{whole}
use armenian_energy_trading.Domain.{
  MarketPriceRecord, PriceForecastPoint, DamPriceForecastModelRequest,
}
use armenian_energy_trading.Ml.Errors.{Reason, ok, Each, traverse}
use armenian_energy_trading.Ml.Arithmetic.{mean}
use armenian_energy_trading.Ml.Arithmetic.Laws.{Only, Raises}
use armenian_energy_trading.Ml.Cohort.{Timestamp}
use armenian_energy_trading.Ml.Cohort.Laws.{Increasing}
use armenian_energy_trading.Ml.Index.{minus, unique_timestamp_index, sorted, collect}
use armenian_energy_trading.Ml.Cohort.{require_single, require_strict_chronology}
use armenian_energy_trading.DamPrice.Backtest as Backtest
use armenian_energy_trading.DamPrice.Backtest.Exact.{PairOf, build_backtest_cases-exact}
use armenian_energy_trading.DamPrice.Backtest.Total.{IsBacktestHistory, build_backtest_cases-total}
use armenian_energy_trading.DamPrice.Features24h as Features24h
use armenian_energy_trading.DamPrice.Features24h.Agreement.{
  row_of_case, build_feature_rows-build_backtest_cases,
}
use armenian_energy_trading.DamPrice.Features168h as Features168h
use armenian_energy_trading.DamPrice.Features168h.{DamPriceLag24h168hFeatureRow}
use armenian_energy_trading.DamPrice.Features168h.Exact.{
  TripleOf, IsCohort, build_feature_rows-exact, build_feature_rows-Increasing,
}
use armenian_energy_trading.DamPrice.Features168h.Total.{IsHistory, build_feature_rows-total}
use armenian_energy_trading.DamPrice.Persistence as Persistence
use armenian_energy_trading.DamPrice.Persistence.Agreement.{
  Copies, forecast-Copies, point_for_target-backtest,
}
use armenian_energy_trading.DamPrice.Split168h as Split168h
use armenian_energy_trading.DamPrice.Split168h.Partition.{
  training, evaluation, split_chronologically-partitions, split-build_feature_rows,
}
use armenian_energy_trading.DamPrice.Fit168h as Fit168h
use armenian_energy_trading.DamPrice.Fit168h.{DamPriceLag24h168hLinearRegressionFit}
use armenian_energy_trading.DamPrice.Fit168h.Guards.{Fitted, fit_linear_regression-Fitted}
use armenian_energy_trading.DamPrice.Predict168h as Predict168h
use armenian_energy_trading.DamPrice.Predict168h.{DamPriceLag24h168hLinearRegressionPrediction}
use armenian_energy_trading.DamPrice.Predict168h.Guards.{
  Predicts, predict-Predicts, RowError, predict-split,
}
use armenian_energy_trading.DamPrice.Evaluate168h as Evaluate168h
use armenian_energy_trading.DamPrice.Evaluate168h.Guards.{evaluate_mae-Only}
use armenian_energy_trading.DamPrice.OlsForecast as OlsForecast
use armenian_energy_trading.DamPrice.OlsForecast.Agreement.{point_for_target-prediction_for_row}

abbrev observed : Timestamp → ℕ → MarketPriceRecord ℕ
observed t amount = record {
  market_id = "AM";
  timestamp = t;
  price = record { amount_per_mwh = amount; currency = "AMD" };
}

-- Observations a week apart and a day apart, out of order.
abbrev history : List (MarketPriceRecord ℕ)
history =
    observed 1_604_800_000_000 70
    ∷ observed 1_000_000_000_000 50
    ∷ observed 1_518_400_000_000 60
    ∷ []

abbrev built_row : DamPriceLag24h168hFeatureRow ℕ
built_row = record {
  market_id = "AM";
  currency = "AMD";
  target_timestamp = 1_604_800_000_000;
  lag_24h_amount_per_mwh = 60;
  lag_168h_amount_per_mwh = 50;
  target_amount_per_mwh = 70;
}

built : Features168h.build_feature_rows history ≡ ok (built_row ∷ [])
unfolding Features168h.build_feature_rows Features168h.require_single_market
    Features168h.require_single_currency Features168h.timestamp_index Features168h.has_lags
    Features168h.row_for_target require_single unique_timestamp_index minus sorted collect
built = refl

build_feature_rows-exact_example : Elem built_row (built_row ∷ []) ↔ TripleOf history built_row
build_feature_rows-exact_example = build_feature_rows-exact history built built_row

build_feature_rows-Increasing_example : Increasing (map (λ r. r.target_timestamp) (built_row ∷ []))
build_feature_rows-Increasing_example = build_feature_rows-Increasing history built

history-IsHistory : IsHistory history
history-IsHistory = record {
  one_market = (refl, (refl, tt));
  one_currency = (refl, (refl, tt));
  distinct = ((λ m. ground arith), ((λ m. ground arith), ((λ m. ground arith), tt)));
  late = (omega arith, (omega arith, (omega arith, tt)));
}

build_feature_rows-total_example :
    (rows : List (DamPriceLag24h168hFeatureRow ℕ)) × (Features168h.build_feature_rows history
      ≡ ok rows)
build_feature_rows-total_example = build_feature_rows-total history history-IsHistory

split-build_feature_rows_example :
    Split168h.split_chronologically (built_row ∷ []) 1_600_000_000_000
    ≡ Split168h.partitions
        (training 1_600_000_000_000 (built_row ∷ []))
        (evaluation 1_600_000_000_000 (built_row ∷ []))
split-build_feature_rows_example = split-build_feature_rows history 1_600_000_000_000 built

abbrev backtest_case : Backtest.PreviousDayPersistenceBacktestCase ℕ
backtest_case = record {
  market_id = "AM";
  target_timestamp = 1_604_800_000_000;
  predicted_price = record { amount_per_mwh = 60; currency = "AMD" };
  actual_price = record { amount_per_mwh = 70; currency = "AMD" };
}

backtested : Backtest.build_backtest_cases history ≡ ok (backtest_case ∷ [])
unfolding Backtest.build_backtest_cases Backtest.require_single_market
    Backtest.require_single_currency Backtest.timestamp_index Backtest.has_lag
    Backtest.case_for_target require_single unique_timestamp_index minus sorted collect
backtested = refl

build_backtest_cases-exact_example :
    Elem backtest_case (backtest_case ∷ []) ↔ PairOf history backtest_case
build_backtest_cases-exact_example = build_backtest_cases-exact history backtested backtest_case

build_feature_rows-build_backtest_cases_example :
    Features24h.build_feature_rows history ≡ ok (map row_of_case (backtest_case ∷ []))
build_feature_rows-build_backtest_cases_example =
    build_feature_rows-build_backtest_cases history backtested

history-IsBacktestHistory : IsBacktestHistory history
history-IsBacktestHistory = record {
  one_market = history-IsHistory.one_market;
  one_currency = history-IsHistory.one_currency;
  distinct = history-IsHistory.distinct;
  late = (omega arith, (omega arith, (omega arith, tt)));
}

build_backtest_cases-total_example :
    (cases : List (Backtest.PreviousDayPersistenceBacktestCase ℕ)) × (Backtest.build_backtest_cases
        history
      ≡ ok cases)
build_backtest_cases-total_example = build_backtest_cases-total history history-IsBacktestHistory

abbrev request : DamPriceForecastModelRequest ℕ
request = record {
  forecast_run_id = "run";
  generated_at = 1_600_000_000_000;
  market_id = "AM";
  currency = "AMD";
  history = history;
  target_timestamps = 1_604_800_000_000 ∷ [];
}

abbrev point : ℕ → PriceForecastPoint ℕ
point amount = record {
  forecast_run_id = "run";
  market_id = "AM";
  generated_at = 1_600_000_000_000;
  target_timestamp = 1_604_800_000_000;
  price = record { amount_per_mwh = amount; currency = "AMD" };
}

point_for_target-backtest_example :
    Persistence.point_for_target request 1_604_800_000_000 ≡ ok (point 60)
point_for_target-backtest_example =
    point_for_target-backtest request backtest_case backtested (inl refl)

forecasted : Persistence.forecast request ≡ ok (point 60 ∷ [])
unfolding Persistence.forecast Persistence.point_for_target Persistence.unique_lag_observation minus
forecasted = refl

forecast-Copies_example : Each (Copies request) request.target_timestamps (point 60 ∷ [])
forecast-Copies_example = forecast-Copies request (point 60 ∷ []) forecasted

abbrev row : Timestamp → ℕ → ℕ → ℕ → DamPriceLag24h168hFeatureRow ℕ
row t lag_day lag_week target = record {
  market_id = "AM";
  currency = "AMD";
  target_timestamp = t;
  lag_24h_amount_per_mwh = lag_day;
  lag_168h_amount_per_mwh = lag_week;
  target_amount_per_mwh = target;
}

abbrev training_rows : List (DamPriceLag24h168hFeatureRow ℕ)
training_rows = row 10 3 0 9 ∷ row 20 0 3 6 ∷ row 30 0 0 0 ∷ []

abbrev rows : List (DamPriceLag24h168hFeatureRow ℕ)
rows = row 10 3 0 9 ∷ row 20 0 3 6 ∷ row 30 0 0 0 ∷ row 40 5 7 11 ∷ []

abbrev split : Split168h.DamPriceLag24h168hChronologicalFeatureSplit ℕ
split = record { training_rows = training_rows; evaluation_rows = row 40 5 7 11 ∷ [] }

was_split : Split168h.split_chronologically rows 40 ≡ ok split
unfolding Split168h.split_chronologically Split168h.require_single_market
    Split168h.require_single_currency Split168h.require_chronology require_single
    require_strict_chronology
was_split = refl

split_chronologically-partitions_example :
    (split.training_rows ++ split.evaluation_rows ≡ rows)
    × All (λ r. r.target_timestamp < 40) split.training_rows
    × All (λ r. 40 ≤ r.target_timestamp) split.evaluation_rows
split_chronologically-partitions_example = split_chronologically-partitions rows 40 was_split

abbrev fit : DamPriceLag24h168hLinearRegressionFit ℕ
fit = record { lag_24h_coefficient = 2; lag_168h_coefficient = 0; intercept_amount_per_mwh = 3 }

was_fitted : Fit168h.fit_linear_regression training_rows ≡ ok fit
unfolding Fit168h.fit_linear_regression Fit168h.require_single_market
    Fit168h.require_single_currency Fit168h.require_chronology Fit168h.require_finite_values
    Fit168h.compute_ols require_single require_strict_chronology mean
was_fitted = refl

fit_linear_regression-Fitted_example : Fitted training_rows fit
fit_linear_regression-Fitted_example = fit_linear_regression-Fitted training_rows was_fitted

abbrev prediction : DamPriceLag24h168hLinearRegressionPrediction ℕ
prediction = record {
  market_id = "AM";
  currency = "AMD";
  target_timestamp = 40;
  predicted_amount_per_mwh = 13;
  actual_amount_per_mwh = 11;
}

was_predicted : Predict168h.predict fit split.evaluation_rows ≡ ok (prediction ∷ [])
unfolding Predict168h.predict Predict168h.require_single_market Predict168h.require_single_currency
    Predict168h.require_chronology Predict168h.require_finite_fit Predict168h.prediction_for_row
    Predict168h.predicted_amount_per_mwh require_single require_strict_chronology
was_predicted = refl

predict-Predicts_example :
    IsCohort split.evaluation_rows × Each (Predicts fit) split.evaluation_rows (prediction ∷ [])
predict-Predicts_example =
    predict-Predicts fit split.evaluation_rows (prediction ∷ []) was_predicted

predict-split_example :
    (Predict168h.predict fit split.evaluation_rows
      ≡ traverse (Predict168h.prediction_for_row fit) split.evaluation_rows)
    × Raises RowError (Predict168h.predict fit split.evaluation_rows)
predict-split_example = predict-split training_rows rows 40 was_fitted was_split

evaluate_mae-Only_example :
    Only (Evaluate168h.message Reason.non_finite_mae) (Evaluate168h.evaluate_mae (prediction ∷ []))
evaluate_mae-Only_example = evaluate_mae-Only fit split.evaluation_rows was_predicted

abbrev built_prediction : DamPriceLag24h168hLinearRegressionPrediction ℕ
built_prediction = record {
  market_id = "AM";
  currency = "AMD";
  target_timestamp = 1_604_800_000_000;
  predicted_amount_per_mwh = 123;
  actual_amount_per_mwh = 70;
}

was_predicted_row : Predict168h.prediction_for_row fit built_row ≡ ok built_prediction
unfolding Predict168h.prediction_for_row Predict168h.predicted_amount_per_mwh
was_predicted_row = refl

point_for_target-prediction_for_row_example :
    OlsForecast.point_for_target fit request 1_604_800_000_000 ≡ ok (point 123)
point_for_target-prediction_for_row_example =
    point_for_target-prediction_for_row fit request built_row built (inl refl) was_predicted_row
