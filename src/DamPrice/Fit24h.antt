-- ===== src/DamPrice/Fit24h.antt =====
-- src/energy_trading/ml/dam_price/lag_24h_linear_regression.py: the least-squares fit on one lag.
use armenian_energy_trading.Base.{
  List, [], ◌∷◌, map, ltb, length, ◌&&◌, text_comparable, if◌then◌else◌,
}
use armenian_energy_trading.Decimal.{Decimal}
use armenian_energy_trading.Ml.Errors.{
  Stage, Reason, Error, invalid_request, index_error, Result, ok, err, ◌>>=◌, ◌>>◌,
}
use armenian_energy_trading.Ml.Cohort.{require_single, require_strict_chronology}
use armenian_energy_trading.Ml.Arithmetic.{guarded, add, sub, mul, div, mean, all_finite}
use armenian_energy_trading.DamPrice.Features24h.{DamPriceLag24hFeatureRow}

abbrev pub message : Reason → Error
message = invalid_request Stage.fit_24h

pub record DamPriceLag24hLinearRegressionFit (D : Type 0) : Type 0 where
  pub slope : D
  pub intercept_amount_per_mwh : D

module _ {D : Type 0} where
  unfoldable pub require_single_market : List (DamPriceLag24hFeatureRow D) → Result (Unit {0})
  require_single_market rows =
      require_single (message Reason.mixed_market) (map (λ r. r.market_id) rows)

  unfoldable pub require_single_currency : List (DamPriceLag24hFeatureRow D) → Result (Unit {0})
  require_single_currency rows =
      require_single (message Reason.mixed_currency) (map (λ r. r.currency) rows)

  unfoldable pub require_chronology : List (DamPriceLag24hFeatureRow D) → Result (Unit {0})
  require_chronology rows =
      require_strict_chronology (message Reason.duplicate_timestamp) (message Reason.out_of_order)
        (map (λ r. r.target_timestamp) rows)

-- The state of the loop of `_compute_ols`.
pub record Sums (D : Type 0) : Type 0 where
  pub numerator : D
  pub denominator : D

module _ {D : Type 0} ⦃dec : Decimal D⦄ where
  unfoldable pub require_finite_values : List D → List D → Result (Unit {0})
  require_finite_values features targets =
      if all_finite features && all_finite targets
      then ok tt
      else err (message Reason.non_finite_input)

  -- The loop over the indices of the features; `targets[index]` fails past the end of the targets.
  unfoldable pub sums_from : D → D → Sums D → List D → List D → Result (Sums D)
  sums_from x_mean y_mean sums [] targets = ok sums
  sums_from x_mean y_mean sums (x ∷ xs) [] = err index_error
  sums_from x_mean y_mean sums (x ∷ xs) (y ∷ ys) = do
    x_deviation ← sub x x_mean
    y_deviation ← sub y y_mean
    product ← mul x_deviation y_deviation
    numerator ← add sums.numerator product
    square ← mul x_deviation x_deviation
    denominator ← add sums.denominator square
    sums_from x_mean y_mean (record { numerator = numerator; denominator = denominator }) xs ys

  -- What the first `try` of `_compute_ols` computes: the two means and the sums.
  unfoldable pub centered_sums : List D → List D → Result (D × D × Sums D)
  unfolding sums_from
  centered_sums features targets = do
    let count = dec.of_ℕ (length features)
    x_mean ← mean features count
    y_mean ← mean targets count
    let zeros : Sums D = record { numerator = dec.of_ℕ 0; denominator = dec.of_ℕ 0 }
    sums ← sums_from x_mean y_mean zeros features targets
    ok (x_mean, y_mean, sums)

  -- What its second `try` computes: the slope and the intercept.
  unfoldable pub line_through : D → D → Sums D → Result (D × D)
  line_through x_mean y_mean sums = do
    slope ← div sums.numerator sums.denominator
    intercept ← sub y_mean (← mul slope x_mean)
    ok (slope, intercept)

  unfoldable pub compute_ols : List D → List D → Result (D × D)
  unfolding centered_sums line_through
  compute_ols features targets = do
    (x_mean, y_mean, sums) ←
        guarded (message Reason.non_finite_fit) (centered_sums features targets)
    if dec.equal sums.denominator (dec.of_ℕ 0)
        then err (message Reason.zero_variance)
        else guarded (message Reason.non_finite_fit) (line_through x_mean y_mean sums)

  unfoldable pub fit_parameters : List D → List D → Result (D × D)
  unfolding compute_ols
  fit_parameters features targets = do
    (slope, intercept) ← compute_ols features targets
    if dec.is_finite slope && dec.is_finite intercept
        then ok (slope, intercept)
        else err (message Reason.non_finite_fit)

  unfoldable pub fit_linear_regression :
      List (DamPriceLag24hFeatureRow D) → Result (DamPriceLag24hLinearRegressionFit D)
  fit_linear_regression training_rows =
      if ltb (length training_rows) 2 then err (message Reason.too_few_rows) else do
        require_single_market training_rows
        require_single_currency training_rows
        require_chronology training_rows
        let features = map (λ row. row.lag_24h_amount_per_mwh) training_rows
        let targets = map (λ row. row.target_amount_per_mwh) training_rows
        require_finite_values features targets
        (slope, intercept) ← fit_parameters features targets
        ok (record { slope = slope; intercept_amount_per_mwh = intercept })
