-- ===== src/ConsumerLoad/Tests.antt =====
-- The theorems on the consumer-load experiments at a small consumer.
use armenian_energy_trading.Base.{
  ◌≡◌, refl, ◌↔◌, inl, ◌++◌, List, [], ◌∷◌, ◌<◌, ◌≤◌, ℕ, All, Elem, true, false, ltb,
}
use armenian_energy_trading.Float.Whole.{whole_float}
use armenian_energy_trading.Domain.{
  ConsumptionRecord, LoadForecastPoint, ConsumerLoadForecastModelRequest,
}
use armenian_energy_trading.Ml.Errors.{Reason, ok, err}
use armenian_energy_trading.Ml.Cohort.{
  Timestamp, require_single, require_same, require_strict_chronology,
}
use armenian_energy_trading.Ml.Index.{minus, unique_timestamp_index, sorted, collect}
use armenian_energy_trading.ConsumerLoad.Backtest.{PreviousDayPersistenceBacktestCase}
use armenian_energy_trading.ConsumerLoad.Features168h as Features168h
use armenian_energy_trading.ConsumerLoad.Features168h.{ConsumerLoadLag24h168hFeatureRow}
use armenian_energy_trading.ConsumerLoad.Features168h.Exact.{TripleOf, build_feature_rows-TripleOf}
use armenian_energy_trading.ConsumerLoad.Split168h as Split168h
use armenian_energy_trading.ConsumerLoad.Split168h.Partition.{split_chronologically-cuts}
use armenian_energy_trading.ConsumerLoad.Fit168h.{ConsumerLoadLag24h168hLinearRegressionFit}
use armenian_energy_trading.ConsumerLoad.Predict24h.{ConsumerLoadLag24hLinearRegressionPrediction}
use armenian_energy_trading.ConsumerLoad.Predict168h as Predict168h
use armenian_energy_trading.ConsumerLoad.Predict168h.{
  ConsumerLoadLag24h168hLinearRegressionPrediction,
}
use armenian_energy_trading.ConsumerLoad.OlsForecast as OlsForecast
use armenian_energy_trading.ConsumerLoad.OlsForecast.Agreement.{point_for_target-checked_point}
use armenian_energy_trading.ConsumerLoad.PersistenceEvaluation as PersistenceEvaluation
use armenian_energy_trading.ConsumerLoad.Evaluate24h as Evaluate24h
use armenian_energy_trading.ConsumerLoad.Evaluate168h as Evaluate168h
use armenian_energy_trading.ConsumerLoad.ThreeWay as ThreeWay
use armenian_energy_trading.ConsumerLoad.ThreeWay.Compared.{
  ComparedLoads, compare_mae-ComparedLoads,
}

abbrev observed : Timestamp → ℕ → ConsumptionRecord ℕ
observed t value = record { consumer_id = "plant"; timestamp = t; value_mw = value }

-- Observations a week apart and a day apart, out of order.
abbrev history : List (ConsumptionRecord ℕ)
history =
    observed 1_604_800_000_000 70
    ∷ observed 1_000_000_000_000 50
    ∷ observed 1_518_400_000_000 60
    ∷ []

abbrev row : Timestamp → ConsumerLoadLag24h168hFeatureRow ℕ
row t = record {
  consumer_id = "plant";
  target_timestamp = t;
  lag_24h_mw = 60;
  lag_168h_mw = 50;
  target_value_mw = 70;
}

abbrev built_row : ConsumerLoadLag24h168hFeatureRow ℕ
built_row = row 1_604_800_000_000

built : Features168h.build_feature_rows history ≡ ok (built_row ∷ [])
unfolding Features168h.build_feature_rows Features168h.require_single_consumer
    Features168h.timestamp_index Features168h.has_lags Features168h.row_for_target require_single
    unique_timestamp_index minus sorted collect
built = refl

build_feature_rows-TripleOf_example : Elem built_row (built_row ∷ []) ↔ TripleOf history built_row
build_feature_rows-TripleOf_example = build_feature_rows-TripleOf history built built_row

abbrev split : Split168h.ConsumerLoadLag24h168hChronologicalFeatureSplit ℕ
split = record { training_rows = row 10 ∷ row 20 ∷ []; evaluation_rows = row 30 ∷ [] }

was_split : Split168h.split_chronologically (row 10 ∷ row 20 ∷ row 30 ∷ []) 30 ≡ ok split
unfolding Split168h.split_chronologically Split168h.require_single_consumer
    Split168h.require_chronology require_single require_strict_chronology
was_split = refl

split_chronologically-cuts_example :
    (split.training_rows ++ split.evaluation_rows ≡ row 10 ∷ row 20 ∷ row 30 ∷ [])
    × All (λ r. r.target_timestamp < 30) split.training_rows
    × All (λ r. 30 ≤ r.target_timestamp) split.evaluation_rows
split_chronologically-cuts_example =
    split_chronologically-cuts (row 10 ∷ row 20 ∷ row 30 ∷ []) 30 was_split

abbrev fit : ConsumerLoadLag24h168hLinearRegressionFit ℕ
fit = record { lag_24h_coefficient = 1; lag_168h_coefficient = 0; intercept_mw = 3 }

abbrev request : ConsumerLoadForecastModelRequest ℕ
request = record {
  forecast_run_id = "run";
  generated_at = 1_600_000_000_000;
  consumer_id = "plant";
  history = history;
  target_timestamps = 1_604_800_000_000 ∷ [];
}

abbrev two_lag_prediction : Timestamp → ConsumerLoadLag24h168hLinearRegressionPrediction ℕ
two_lag_prediction t = record {
  consumer_id = "plant";
  target_timestamp = t;
  predicted_value_mw = 63;
  actual_value_mw = 70;
}

was_predicted :
    Predict168h.prediction_for_row fit built_row ≡ ok (two_lag_prediction 1_604_800_000_000)
unfolding Predict168h.prediction_for_row Predict168h.predicted_value_mw
was_predicted = refl

abbrev point : LoadForecastPoint ℕ
point = record {
  forecast_run_id = "run";
  consumer_id = "plant";
  generated_at = 1_600_000_000_000;
  target_timestamp = 1_604_800_000_000;
  value_mw = 63;
}

point_for_target-checked_point_example :
    ((ltb 63 0 ≡ true)
      → OlsForecast.point_for_target fit request 1_604_800_000_000
        ≡ err (OlsForecast.message Reason.negative_prediction))
    × ((ltb 63 0 ≡ false) → OlsForecast.point_for_target fit request 1_604_800_000_000 ≡ ok point)
point_for_target-checked_point_example =
    point_for_target-checked_point fit request built_row built (inl refl) was_predicted

abbrev cases : List (PreviousDayPersistenceBacktestCase ℕ)
cases =
    record {
      consumer_id = "plant";
      target_timestamp = 10;
      predicted_value_mw = 60;
      actual_value_mw = 50;
    }
    ∷ record {
      consumer_id = "plant";
      target_timestamp = 20;
      predicted_value_mw = 76;
      actual_value_mw = 70;
    }
    ∷ []

abbrev one_lag_predictions : List (ConsumerLoadLag24hLinearRegressionPrediction ℕ)
one_lag_predictions =
    record {
      consumer_id = "plant";
      target_timestamp = 10;
      predicted_value_mw = 52;
      actual_value_mw = 50;
    }
    ∷ record {
      consumer_id = "plant";
      target_timestamp = 20;
      predicted_value_mw = 74;
      actual_value_mw = 70;
    }
    ∷ []

abbrev two_lag_predictions : List (ConsumerLoadLag24h168hLinearRegressionPrediction ℕ)
two_lag_predictions =
    record {
      consumer_id = "plant";
      target_timestamp = 10;
      predicted_value_mw = 51;
      actual_value_mw = 50;
    }
    ∷ record {
      consumer_id = "plant";
      target_timestamp = 20;
      predicted_value_mw = 73;
      actual_value_mw = 70;
    }
    ∷ []

abbrev comparison : ThreeWay.ConsumerLoadPersistenceVsLag24hVsLag24h168hOlsMaeComparison ℕ
comparison = record {
  case_count = 2;
  persistence_mae_mw = 8;
  lag_24h_mae_mw = 3;
  lag_24h_168h_mae_mw = 2;
}

was_compared : ThreeWay.compare_mae cases one_lag_predictions two_lag_predictions ≡ ok comparison
unfolding ThreeWay.compare_mae ThreeWay.require_nonempty_equal_cohort
    ThreeWay.require_single_shared_consumer ThreeWay.require_persistence_chronology
    ThreeWay.require_lag_24h_chronology ThreeWay.require_lag_24h_168h_chronology
    ThreeWay.require_three_way_alignment PersistenceEvaluation.evaluate_mae Evaluate24h.evaluate_mae
    Evaluate24h.require_single_consumer Evaluate24h.require_chronology Evaluate168h.evaluate_mae
    Evaluate168h.require_single_consumer Evaluate168h.require_chronology require_single require_same
    require_strict_chronology
was_compared = refl

compare_mae-ComparedLoads_example :
    ComparedLoads cases one_lag_predictions two_lag_predictions comparison
compare_mae-ComparedLoads_example =
    compare_mae-ComparedLoads cases one_lag_predictions two_lag_predictions was_compared
