-- ===== src/DamPrice/Fit168h/Guards.antt =====
-- What a returned fit of ml/dam_price/lag_24h_168h_linear_regression.py says of its rows and of itself.
use armenian_energy_trading.Base.{
  ◌≤◌, ◌≡◌, ◌∙◌, ap, subst, List, map, true, ltb, length, Bool-cases, inl, inr, arith,
  text_comparable, ltb-false,
}
use armenian_energy_trading.Decimal.{Decimal}
use armenian_energy_trading.Ml.Errors.{ok, >>-eq-ok, >>=-eq-ok}
use armenian_energy_trading.Ml.Cohort.Laws.{chronology-ok, require_single-ok}
use armenian_energy_trading.Ml.Arithmetic.{all_finite}
use armenian_energy_trading.DamPrice.Features168h.{DamPriceLag24h168hFeatureRow}
use armenian_energy_trading.DamPrice.Features168h.Exact.{IsCohort}
use armenian_energy_trading.DamPrice.Fit168h.{
  DamPriceLag24h168hLinearRegressionFit, require_single_market, require_single_currency,
  require_chronology, require_finite_values, compute_ols, require_finite_fit, fit_linear_regression,
}

module _ {D : Type 0} ⦃dec : Decimal D⦄ where
  pub record IsFinite (fit : DamPriceLag24h168hLinearRegressionFit D) : Type 0 where
    pub lag_24h_finite : dec.is_finite fit.lag_24h_coefficient ≡ true
    pub lag_168h_finite : dec.is_finite fit.lag_168h_coefficient ≡ true
    pub intercept_finite : dec.is_finite fit.intercept_amount_per_mwh ≡ true

  require_finite_fit-ok :
      (f fit : DamPriceLag24h168hLinearRegressionFit D)
      → require_finite_fit f ≡ ok fit
      → IsFinite f × (f ≡ fit)
  unfolding require_finite_fit
  require_finite_fit-ok f fit h = ground arith

  require_finite_values-ok :
      (xs ys zs : List D)
      → require_finite_values xs ys zs ≡ ok tt
      → (all_finite xs ≡ true) × (all_finite ys ≡ true) × (all_finite zs ≡ true)
  unfolding require_finite_values
  require_finite_values-ok xs ys zs h = ground arith

  abbrev pub lag_24h_values : List (DamPriceLag24h168hFeatureRow D) → List D
  lag_24h_values rows = map (λ r. r.lag_24h_amount_per_mwh) rows

  abbrev pub lag_168h_values : List (DamPriceLag24h168hFeatureRow D) → List D
  lag_168h_values rows = map (λ r. r.lag_168h_amount_per_mwh) rows

  abbrev pub targets : List (DamPriceLag24h168hFeatureRow D) → List D
  targets rows = map (λ r. r.target_amount_per_mwh) rows

  -- What a returned fit says of the rows that it was made from.
  pub record Fitted (rows : List (DamPriceLag24h168hFeatureRow D))
      (fit : DamPriceLag24h168hLinearRegressionFit D) : Type 0 where
    pub enough : 3 ≤ length rows
    pub cohort : IsCohort rows
    pub inputs :
        (all_finite (lag_24h_values rows) ≡ true)
        × (all_finite (lag_168h_values rows) ≡ true)
        × (all_finite (targets rows) ≡ true)
    pub finite : IsFinite fit
    pub computed : compute_ols (lag_24h_values rows) (lag_168h_values rows) (targets rows) ≡ ok fit

  -- A fit is returned only for at least three rows of one market and one currency in strictly
  -- increasing order, whose features and targets are finite; its two coefficients and its intercept
  -- are finite, and they are those that `_compute_ols` computes from the rows.
  pub fit_linear_regression-Fitted :
      (rows : List (DamPriceLag24h168hFeatureRow D)) {fit : DamPriceLag24h168hLinearRegressionFit D}
      → fit_linear_regression rows ≡ ok fit
      → Fitted rows fit
  unfolding fit_linear_regression require_single_market require_single_currency require_chronology
  fit_linear_regression-Fitted rows {fit} h = elim (Bool-cases (ltb (length rows) 3)) [
    | inl few ↦ cc (rw few at h)
    | inr enough ↦
        let (markets, h1) = >>-eq-ok _ _ (rw enough at h) in
        let (currencies, h2) = >>-eq-ok _ _ h1 in
        let (chronology, h3) = >>-eq-ok _ _ h2 in
        let (inputs, h4) = >>-eq-ok _ _ h3 in
        let (f, computed, h5) =
          >>=-eq-ok (compute_ols (lag_24h_values rows) (lag_168h_values rows) (targets rows)) _
            h4 in
        let (finite, same) = require_finite_fit-ok f fit h5 in
        record {
          enough = ltb-false (length rows) 3 enough;
          cohort = record {
            one_market = require_single-ok _ (map (λ x. x.market_id) rows) markets;
            one_currency = require_single-ok _ (map (λ x. x.currency) rows) currencies;
            chronological = chronology-ok _ _ (map (λ x. x.target_timestamp) rows) chronology;
          };
          inputs = require_finite_values-ok _ _ _ inputs;
          finite = subst IsFinite same finite;
          computed = computed ∙ ap ok same;
        }
  ]
