-- ===== src/DamPrice/Evaluate168h/Guards.antt =====
-- No guard of ml/dam_price/lag_24h_168h_linear_regression_evaluation.py fires on predictions that were
-- returned: only the arithmetic of the error itself can fail.
use armenian_energy_trading.Base.{
  ◌≡◌, refl, List, [], ◌∷◌, map, Bool, true, false, if◌then◌else◌, arith, text_comparable, ap₂, sym,
  subst,
}
use armenian_energy_trading.Decimal.{Decimal}
use armenian_energy_trading.Ml.Errors.{Reason, ok, err, Each}
use armenian_energy_trading.Ml.Cohort.Laws.{
  AllSame-require_single, Increasing-chronology, AllSame, Increasing,
}
use armenian_energy_trading.Domain.{CurrencyCode}
use armenian_energy_trading.Ml.Arithmetic.{guarded, absolute_error}
use armenian_energy_trading.Ml.Arithmetic.Laws.{
  Only, Only->>=, raised-Only, guarded-Only, absolute_error-Only, absolute_errors_from-Only,
}
use armenian_energy_trading.DamPrice.Features168h.{DamPriceLag24h168hFeatureRow}
use armenian_energy_trading.DamPrice.Fit168h.{DamPriceLag24h168hLinearRegressionFit}
use armenian_energy_trading.DamPrice.Predict168h.{
  DamPriceLag24h168hLinearRegressionPrediction, predict,
}
use armenian_energy_trading.DamPrice.Predict168h.Guards.{Predicts, predict-Predicts}
use armenian_energy_trading.DamPrice.Evaluate168h.{
  require_single_market, require_single_currency, require_chronology, require_finite_values,
  message, amounts, total_absolute_error, mean_error, evaluate_mae,
}

finite_or :
    {A : Type 0} (b : Bool) (a : A)
    → Only (message Reason.non_finite_mae) (if b then ok a else err (message Reason.non_finite_mae))
finite_or true a = tt
finite_or false a = refl

module _ {D : Type 0} ⦃dec : Decimal D⦄ where
  module _ (fit : DamPriceLag24h168hLinearRegressionFit D) {B : Type 0}
      (f : DamPriceLag24h168hFeatureRow D → B)
      (g : DamPriceLag24h168hLinearRegressionPrediction D → B)
      (same : (row : DamPriceLag24h168hFeatureRow D)
          (p : DamPriceLag24h168hLinearRegressionPrediction D)
        → Predicts fit row p
        → g p ≡ f row) where
    Each-map :
        (rows : List (DamPriceLag24h168hFeatureRow D))
        (ps : List (DamPriceLag24h168hLinearRegressionPrediction D))
        → Each (Predicts fit) rows ps
        → map f rows ≡ map g ps
    Each-map [] [] h = refl
    Each-map [] (p ∷ ps) h = absurd h
    Each-map (r ∷ rs) [] h = absurd h
    Each-map (r ∷ rs) (p ∷ ps) h = ap₂ (λ x xs. x ∷ xs) (sym (same r p h.0)) (Each-map rs ps h.1)

  Each-finite :
      (fit : DamPriceLag24h168hLinearRegressionFit D) (rows : List (DamPriceLag24h168hFeatureRow D))
      (ps : List (DamPriceLag24h168hLinearRegressionPrediction D))
      → Each (Predicts fit) rows ps
      → require_finite_values ps ≡ ok tt
  unfolding require_finite_values
  Each-finite fit rows [] h = refl
  Each-finite fit [] (p ∷ ps) h = absurd h
  Each-finite fit (r ∷ rs) (p ∷ ps) h =
      ground (arith, Each-finite fit rs ps h.1, h.0.predicted_finite)

  guards-pass :
      (p : DamPriceLag24h168hLinearRegressionPrediction D)
      (ps : List (DamPriceLag24h168hLinearRegressionPrediction D))
      → AllSame (map (λ q. q.market_id) (p ∷ ps))
      → AllSame (map (λ q. q.currency) (p ∷ ps))
      → Increasing (map (λ q. q.target_timestamp) (p ∷ ps))
      → require_finite_values (p ∷ ps) ≡ ok tt
      → evaluate_mae (p ∷ ps) ≡ mean_error p.currency (p ∷ ps)
  unfolding evaluate_mae require_single_market require_single_currency require_chronology
  guards-pass p ps markets currencies chronology finite =
      rw
        (
          AllSame-require_single _ (map (λ x. x.market_id) (p ∷ ps)) markets,
          AllSame-require_single _ (map (λ x. x.currency) (p ∷ ps)) currencies,
          Increasing-chronology _ _ p.target_timestamp (map (λ x. x.target_timestamp) ps)
              chronology,
          finite,
        )
        refl

  total_absolute_error-Only :
      (p : DamPriceLag24h168hLinearRegressionPrediction D)
      (ps : List (DamPriceLag24h168hLinearRegressionPrediction D))
      → Only (message Reason.non_finite_mae) (total_absolute_error (p ∷ ps))
  unfolding total_absolute_error
  total_absolute_error-Only p ps =
      Only->>= _ (guarded (message Reason.non_finite_mae) _) _
        (guarded-Only (message Reason.non_finite_mae) _ (
          Only->>= _ (absolute_error (amounts p)) _ (absolute_error-Only (amounts p))
            (λ first. absolute_errors_from-Only first (map amounts ps))))
        (λ total. finite_or (dec.is_finite total) total)

  mean_error-Only :
      (c : CurrencyCode) (p : DamPriceLag24h168hLinearRegressionPrediction D)
      (ps : List (DamPriceLag24h168hLinearRegressionPrediction D))
      → Only (message Reason.non_finite_mae) (mean_error c (p ∷ ps))
  unfolding mean_error
  mean_error-Only c p ps =
      Only->>= _ (total_absolute_error (p ∷ ps)) _ (total_absolute_error-Only p ps) (λ total.
        Only->>= _ (guarded (message Reason.non_finite_mae) _) _
          (guarded-Only (message Reason.non_finite_mae) _ (raised-Only (dec.div total _)))
          (λ mae. finite_or (dec.is_finite mae) _))

  -- On predictions that were returned for some rows every guard of the evaluator passes: the evaluation
  -- is that of the mean absolute error alone, in the currency of the first prediction.
  pub evaluate_mae-predict :
      (fit : DamPriceLag24h168hLinearRegressionFit D) (rows : List (DamPriceLag24h168hFeatureRow D))
      {p : DamPriceLag24h168hLinearRegressionPrediction D}
      {ps : List (DamPriceLag24h168hLinearRegressionPrediction D)}
      → predict fit rows ≡ ok (p ∷ ps)
      → evaluate_mae (p ∷ ps) ≡ mean_error p.currency (p ∷ ps)
  evaluate_mae-predict fit rows {p} {ps} h =
      let (cohort, each) = predict-Predicts fit rows (p ∷ ps) h in
      guards-pass p ps
        (subst AllSame
          (Each-map fit (λ r. r.market_id) (λ q. q.market_id) (λ r q e. e.market_eq) rows (p ∷ ps)
            each)
          cohort.one_market)
        (subst AllSame
          (Each-map fit (λ r. r.currency) (λ q. q.currency) (λ r q e. e.currency_eq) rows (p ∷ ps)
            each)
          cohort.one_currency)
        (subst Increasing
          (Each-map fit (λ r. r.target_timestamp) (λ q. q.target_timestamp)
            (λ r q e. e.timestamp_eq) rows (p ∷ ps) each)
          cohort.chronological)
        (Each-finite fit rows (p ∷ ps) each)

  -- The only error that the evaluation of returned predictions can raise is that of a mean absolute
  -- error which is not finite.
  pub evaluate_mae-Only :
      (fit : DamPriceLag24h168hLinearRegressionFit D) (rows : List (DamPriceLag24h168hFeatureRow D))
      {p : DamPriceLag24h168hLinearRegressionPrediction D}
      {ps : List (DamPriceLag24h168hLinearRegressionPrediction D)}
      → predict fit rows ≡ ok (p ∷ ps)
      → Only (message Reason.non_finite_mae) (evaluate_mae (p ∷ ps))
  evaluate_mae-Only fit rows {p} {ps} h =
      rw (evaluate_mae-predict fit rows h) (mean_error-Only p.currency p ps)
