-- ===== src/DamPrice/OlsForecast/Agreement.antt =====
-- The live forecast of src/energy_trading/ml/dam_price/lag_24h_168h_ols_forecast.py against the offline prediction of
-- src/energy_trading/ml/dam_price/lag_24h_168h_linear_regression_prediction.py.
use armenian_energy_trading.Base.{◌+◌, ◌≡◌, refl, sym, ap, ◌∙◌, List, map, Elem, Distinct, true}
use armenian_energy_trading.Decimal.{Decimal}
use armenian_energy_trading.Domain.{MarketPriceRecord, DamPriceForecastModelRequest}
use armenian_energy_trading.Ml.Errors.{Reason, ok}
use armenian_energy_trading.Ml.Index.{lag_24h, lag_168h}
use armenian_energy_trading.Ml.Index.Laws.{add-minus}
use armenian_energy_trading.Ml.Index.Unique.{keep-sole}
use armenian_energy_trading.DamPrice.Features168h.{DamPriceLag24h168hFeatureRow, build_feature_rows}
use armenian_energy_trading.DamPrice.Features168h.Exact.{
  stamp, row_of, build_feature_rows-Built, build_feature_rows-exact,
}
use armenian_energy_trading.DamPrice.Fit168h.{DamPriceLag24h168hLinearRegressionFit}
use armenian_energy_trading.DamPrice.Predict168h.{
  DamPriceLag24h168hLinearRegressionPrediction, fitted_value, prediction_for_row,
}
use armenian_energy_trading.DamPrice.Predict168h.Guards.{prediction_for_row-Predicts}
use armenian_energy_trading.DamPrice.OlsForecast.{
  unique_lag_observation, raw_prediction, point_for_target,
}

module _ {D : Type 0} where
  unique_lag_observation-Elem :
      (history : List (MarketPriceRecord D)) (r : MarketPriceRecord D) (missing duplicate : Reason)
      → Distinct (map stamp history)
      → Elem r history
      → unique_lag_observation history r.timestamp missing duplicate ≡ ok r
  unfolding unique_lag_observation
  unique_lag_observation-Elem history r missing duplicate d m =
      rw (keep-sole stamp history r d m) refl

module _ {D : Type 0} ⦃dec : Decimal D⦄ where
  -- The offline value of a row is the live value of the two observations that it was made from.
  fitted_value-row_of :
      (fit : DamPriceLag24h168hLinearRegressionFit D) (a l w : MarketPriceRecord D)
      → fitted_value fit (row_of a l w) ≡ raw_prediction fit l w
  unfolding fitted_value raw_prediction
  fitted_value-row_of fit a l w = refl

  point_for_target-found :
      (fit : DamPriceLag24h168hLinearRegressionFit D) (request : DamPriceForecastModelRequest D)
      (l w : MarketPriceRecord D) {amount : D} {target : _}
      → Distinct (map stamp request.history)
      → Elem l request.history
      → Elem w request.history
      → l.timestamp + lag_24h ≡ target
      → w.timestamp + lag_168h ≡ target
      → raw_prediction fit l w ≡ ok amount
      → dec.is_finite amount ≡ true
      → point_for_target fit request target
        ≡ ok (record {
          forecast_run_id = request.forecast_run_id;
          market_id = request.market_id;
          generated_at = request.generated_at;
          target_timestamp = target;
          price = record { amount_per_mwh = amount; currency = request.currency };
        })
  unfolding point_for_target
  point_for_target-found fit request l w {amount} {target} d l_in w_in at24 at168 made finite =
      rw
        (
          rw at24 at (add-minus l.timestamp lag_24h),
          unique_lag_observation-Elem request.history l _ _ d l_in,
          rw at168 at (add-minus w.timestamp lag_168h),
          unique_lag_observation-Elem request.history w _ _ d w_in,
          made,
          finite,
        )
        refl

  -- For a history from which the feature builder makes rows, whatever amount the offline prediction
  -- computes for a row with a fit, the live model with that fit forecasts for the row's timestamp from
  -- the same history.
  pub point_for_target-prediction_for_row :
      (fit : DamPriceLag24h168hLinearRegressionFit D) (request : DamPriceForecastModelRequest D)
      {rows : List (DamPriceLag24h168hFeatureRow D)} (row : DamPriceLag24h168hFeatureRow D)
      {p : DamPriceLag24h168hLinearRegressionPrediction D}
      → build_feature_rows request.history ≡ ok rows
      → Elem row rows
      → prediction_for_row fit row ≡ ok p
      → point_for_target fit request row.target_timestamp
        ≡ ok (record {
          forecast_run_id = request.forecast_run_id;
          market_id = request.market_id;
          generated_at = request.generated_at;
          target_timestamp = row.target_timestamp;
          price = record {
            amount_per_mwh = p.predicted_amount_per_mwh;
            currency = request.currency;
          };
        })
  point_for_target-prediction_for_row fit request row {p} h m made =
      let built = build_feature_rows-Built request.history h in
      let triple = (build_feature_rows-exact request.history h row).0 m in
      let predicts = prediction_for_row-Predicts fit row p made in
      let at_target = sym (ap (λ r. r.target_timestamp) triple.row_eq) in
      point_for_target-found fit request triple.lag_24h_record triple.lag_168h_record built.distinct
        triple.lag_24h_in triple.lag_168h_in (triple.lag_24h_at ∙ at_target)
        (triple.lag_168h_at ∙ at_target)
        (sym (fitted_value-row_of fit triple.target triple.lag_24h_record triple.lag_168h_record)
          ∙ ap (fitted_value fit) (sym triple.row_eq)
          ∙ predicts.predicted_eq)
        predicts.predicted_finite
