-- ===== src/DamPrice/Predict24h.antt =====
-- src/energy_trading/ml/dam_price/lag_24h_linear_regression_prediction.py: the fitted line at the evaluation rows.
use armenian_energy_trading.Base.{List, [], ◌∷◌, map, ◌&&◌, text_comparable, if◌then◌else◌}
use armenian_energy_trading.Decimal.{Decimal}
use armenian_energy_trading.Domain.{EntityId, CurrencyCode}
use armenian_energy_trading.Ml.Errors.{
  Stage, Reason, Error, invalid_request, Result, ok, err, ◌>>=◌, ◌>>◌, traverse,
}
use armenian_energy_trading.Ml.Cohort.{Timestamp, require_single, require_strict_chronology}
use armenian_energy_trading.Ml.Arithmetic.{guarded, add, mul}
use armenian_energy_trading.DamPrice.Features24h.{DamPriceLag24hFeatureRow}
use armenian_energy_trading.DamPrice.Fit24h.{DamPriceLag24hLinearRegressionFit}

abbrev pub message : Reason → Error
message = invalid_request Stage.predict_24h

pub record DamPriceLag24hLinearRegressionPrediction (D : Type 0) : Type 0 where
  pub market_id : EntityId
  pub currency : CurrencyCode
  pub target_timestamp : Timestamp
  pub predicted_amount_per_mwh : D
  pub actual_amount_per_mwh : D

module _ {D : Type 0} where
  unfoldable pub require_single_market : List (DamPriceLag24hFeatureRow D) → Result (Unit {0})
  require_single_market rows =
      require_single (message Reason.mixed_market) (map (λ r. r.market_id) rows)

  unfoldable pub require_single_currency : List (DamPriceLag24hFeatureRow D) → Result (Unit {0})
  require_single_currency rows =
      require_single (message Reason.mixed_currency) (map (λ r. r.currency) rows)

  unfoldable pub require_chronology : List (DamPriceLag24hFeatureRow D) → Result (Unit {0})
  require_chronology rows =
      require_strict_chronology (message Reason.duplicate_timestamp) (message Reason.out_of_order)
        (map (λ r. r.target_timestamp) rows)

module _ {D : Type 0} ⦃dec : Decimal D⦄ where
  unfoldable pub require_finite_fit : DamPriceLag24hLinearRegressionFit D → Result (Unit {0})
  require_finite_fit fit =
      if dec.is_finite fit.slope && dec.is_finite fit.intercept_amount_per_mwh
      then ok tt
      else err (message Reason.non_finite_fit)

  -- `fit.slope * row.lag_24h_amount_per_mwh + fit.intercept_amount_per_mwh`
  unfoldable pub fitted_value :
      DamPriceLag24hLinearRegressionFit D → DamPriceLag24hFeatureRow D → Result D
  fitted_value fit row = do
    add (← mul fit.slope row.lag_24h_amount_per_mwh) fit.intercept_amount_per_mwh

  unfoldable pub predicted_amount_per_mwh :
      DamPriceLag24hLinearRegressionFit D → DamPriceLag24hFeatureRow D → Result D
  unfolding fitted_value
  predicted_amount_per_mwh fit row =
      if dec.is_finite row.lag_24h_amount_per_mwh && dec.is_finite row.target_amount_per_mwh
      then guarded (message Reason.non_finite_prediction) (fitted_value fit row) >>= (λ amount.
        if dec.is_finite amount then ok amount else err (message Reason.non_finite_prediction))
      else err (message Reason.non_finite_input)

  unfoldable pub prediction_for_row :
      DamPriceLag24hLinearRegressionFit D
      → DamPriceLag24hFeatureRow D
      → Result (DamPriceLag24hLinearRegressionPrediction D)
  prediction_for_row fit row = do
    amount ← predicted_amount_per_mwh fit row
    ok (record {
      market_id = row.market_id;
      currency = row.currency;
      target_timestamp = row.target_timestamp;
      predicted_amount_per_mwh = amount;
      actual_amount_per_mwh = row.target_amount_per_mwh;
    })

  unfoldable pub predict :
      DamPriceLag24hLinearRegressionFit D
      → List (DamPriceLag24hFeatureRow D)
      → Result (List (DamPriceLag24hLinearRegressionPrediction D))
  predict fit [] = err (message Reason.empty_rows)
  predict fit (r ∷ rs) = do
    let evaluation_rows = r ∷ rs
    require_single_market evaluation_rows
    require_single_currency evaluation_rows
    require_chronology evaluation_rows
    require_finite_fit fit
    traverse (prediction_for_row fit) evaluation_rows
