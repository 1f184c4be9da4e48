-- ===== src/DamPrice/Evaluate168h.antt =====
-- src/energy_trading/ml/dam_price/lag_24h_168h_linear_regression_evaluation.py: the mean absolute error of the predictions.
pub mod Guards
use armenian_energy_trading.Base.{
  ℕ, List, [], ◌∷◌, map, length, ◌&&◌, text_comparable, if◌then◌else◌,
}
use armenian_energy_trading.Decimal.{Decimal}
use armenian_energy_trading.Domain.{CurrencyCode}
use armenian_energy_trading.Ml.Errors.{
  Stage, Reason, Error, invalid_request, index_error, Result, ok, err, ◌>>=◌, ◌>>◌,
}
use armenian_energy_trading.Ml.Cohort.{require_single, require_strict_chronology}
use armenian_energy_trading.Ml.Arithmetic.{guarded, div, absolute_error, absolute_errors_from}
use armenian_energy_trading.DamPrice.Predict168h.{DamPriceLag24h168hLinearRegressionPrediction}

abbrev pub message : Reason → Error
message = invalid_request Stage.mae_168h

pub record DamPriceLag24h168hLinearRegressionMaeResult (D : Type 0) : Type 0 where
  pub case_count : ℕ
  pub currency : CurrencyCode
  pub mae_amount_per_mwh : D

module _ {D : Type 0} where
  unfoldable pub require_single_market :
      List (DamPriceLag24h168hLinearRegressionPrediction D) → Result (Unit {0})
  require_single_market predictions =
      require_single (message Reason.mixed_market) (map (λ p. p.market_id) predictions)

  -- `next(iter(currencies))` is the one member of the set.
  unfoldable pub require_single_currency :
      List (DamPriceLag24h168hLinearRegressionPrediction D) → Result CurrencyCode
  require_single_currency [] = err index_error
  require_single_currency (p ∷ ps) = do
    require_single (message Reason.mixed_currency) (map (λ q. q.currency) (p ∷ ps))
    ok p.currency

  unfoldable pub require_chronology :
      List (DamPriceLag24h168hLinearRegressionPrediction D) → Result (Unit {0})
  require_chronology predictions =
      require_strict_chronology (message Reason.duplicate_timestamp) (message Reason.out_of_order)
        (map (λ p. p.target_timestamp) predictions)

module _ {D : Type 0} ⦃dec : Decimal D⦄ where
  unfoldable pub require_finite_values :
      List (DamPriceLag24h168hLinearRegressionPrediction D) → Result (Unit {0})
  require_finite_values [] = ok tt
  require_finite_values (p ∷ ps) =
      if dec.is_finite p.predicted_amount_per_mwh && dec.is_finite p.actual_amount_per_mwh
      then require_finite_values ps
      else err (message Reason.non_finite_values)

  abbrev pub amounts : DamPriceLag24h168hLinearRegressionPrediction D → D × D
  amounts p = (p.predicted_amount_per_mwh, p.actual_amount_per_mwh)

  unfoldable pub total_absolute_error :
      List (DamPriceLag24h168hLinearRegressionPrediction D) → Result D
  total_absolute_error [] = err index_error
  total_absolute_error (p ∷ ps) =
      guarded (message Reason.non_finite_mae)
        (absolute_error (amounts p) >>= λ first. absolute_errors_from first (map amounts ps))
      >>= (λ total. if dec.is_finite total then ok total else err (message Reason.non_finite_mae))

  -- The end of the evaluation, after its guards.
  unfoldable pub mean_error :
      CurrencyCode
      → List (DamPriceLag24h168hLinearRegressionPrediction D)
      → Result (DamPriceLag24h168hLinearRegressionMaeResult D)
  unfolding total_absolute_error
  mean_error currency predictions = do
    total_abs_error ← total_absolute_error predictions
    mae ←
        guarded (message Reason.non_finite_mae)
          (div total_abs_error (dec.of_ℕ (length predictions)))
    if dec.is_finite mae
        then ok (record {
          case_count = length predictions;
          currency = currency;
          mae_amount_per_mwh = mae;
        })
        else err (message Reason.non_finite_mae)

  unfoldable pub evaluate_mae :
      List (DamPriceLag24h168hLinearRegressionPrediction D)
      → Result (DamPriceLag24h168hLinearRegressionMaeResult D)
  evaluate_mae [] = err (message Reason.empty_predictions)
  evaluate_mae (p ∷ ps) = do
    let predictions = p ∷ ps
    require_single_market predictions
    currency ← require_single_currency predictions
    require_chronology predictions
    require_finite_values predictions
    mean_error currency predictions
