-- ===== src/DamPrice/Fit168h.antt =====
-- src/energy_trading/ml/dam_price/lag_24h_168h_linear_regression.py: the least-squares fit on two lags.
pub mod Guards
use armenian_energy_trading.Base.{
  List, [], ◌∷◌, map, ltb, length, ◌&&◌, text_comparable, if◌then◌else◌,
}
use armenian_energy_trading.Decimal.{Decimal}
use armenian_energy_trading.Ml.Errors.{
  Stage, Reason, Error, invalid_request, index_error, Result, ok, err, ◌>>=◌, ◌>>◌,
}
use armenian_energy_trading.Ml.Cohort.{require_single, require_strict_chronology}
use armenian_energy_trading.Ml.Arithmetic.{guarded, add, sub, mul, div, mean, all_finite}
use armenian_energy_trading.DamPrice.Features168h.{DamPriceLag24h168hFeatureRow}

abbrev pub message : Reason → Error
message = invalid_request Stage.fit_168h

pub record DamPriceLag24h168hLinearRegressionFit (D : Type 0) : Type 0 where
  pub lag_24h_coefficient : D
  pub lag_168h_coefficient : D
  pub intercept_amount_per_mwh : D

module _ {D : Type 0} where
  unfoldable pub require_single_market : List (DamPriceLag24h168hFeatureRow D) → Result (Unit {0})
  require_single_market rows =
      require_single (message Reason.mixed_market) (map (λ r. r.market_id) rows)

  unfoldable pub require_single_currency : List (DamPriceLag24h168hFeatureRow D) → Result (Unit {0})
  require_single_currency rows =
      require_single (message Reason.mixed_currency) (map (λ r. r.currency) rows)

  unfoldable pub require_chronology : List (DamPriceLag24h168hFeatureRow D) → Result (Unit {0})
  require_chronology rows =
      require_strict_chronology (message Reason.duplicate_timestamp) (message Reason.out_of_order)
        (map (λ r. r.target_timestamp) rows)

-- The state of the loop of `_compute_ols`.
pub record Sums (D : Type 0) : Type 0 where
  pub s11 : D
  pub s22 : D
  pub s12 : D
  pub t1 : D
  pub t2 : D

-- What the first `try` of `_compute_ols` leaves.
pub record Aggregates (D : Type 0) : Type 0 where
  pub x1_mean : D
  pub x2_mean : D
  pub y_mean : D
  pub sums : Sums D
  pub determinant : D

module _ {D : Type 0} ⦃dec : Decimal D⦄ where
  unfoldable pub require_finite_values : List D → List D → List D → Result (Unit {0})
  require_finite_values lag_24h_values lag_168h_values targets =
      if all_finite lag_24h_values && (all_finite lag_168h_values && all_finite targets)
      then ok tt
      else err (message Reason.non_finite_input)

  -- `total += a * b`
  abbrev pub accumulate : D → D → D → Result D
  accumulate total a b = do add total (← mul a b)

  -- One turn of the loop.
  unfoldable pub add_row : D → D → D → Sums D → Result (Sums D)
  add_row dx1 dx2 dy sums = do
    s11 ← accumulate sums.s11 dx1 dx1
    s22 ← accumulate sums.s22 dx2 dx2
    s12 ← accumulate sums.s12 dx1 dx2
    t1 ← accumulate sums.t1 dx1 dy
    t2 ← accumulate sums.t2 dx2 dy
    ok (record { s11 = s11; s22 = s22; s12 = s12; t1 = t1; t2 = t2 })

  -- The loop over the indices of the targets; the other two values fail past their ends.
  unfoldable pub sums_from : D → D → D → Sums D → List D → List D → List D → Result (Sums D)
  unfolding add_row
  sums_from x1_mean x2_mean y_mean sums [] x1s x2s = ok sums
  sums_from x1_mean x2_mean y_mean sums (y ∷ ys) [] x2s = err index_error
  sums_from x1_mean x2_mean y_mean sums (y ∷ ys) (x1 ∷ x1s) [] = err index_error
  sums_from x1_mean x2_mean y_mean sums (y ∷ ys) (x1 ∷ x1s) (x2 ∷ x2s) = do
    dx1 ← sub x1 x1_mean
    dx2 ← sub x2 x2_mean
    dy ← sub y y_mean
    sums' ← add_row dx1 dx2 dy sums
    sums_from x1_mean x2_mean y_mean sums' ys x1s x2s

  unfoldable pub centered_sums : List D → List D → List D → Result (Aggregates D)
  unfolding sums_from
  centered_sums lag_24h_values lag_168h_values targets = do
    let count = dec.of_ℕ (length targets)
    let zero = dec.of_ℕ 0
    x1_mean ← mean lag_24h_values count
    x2_mean ← mean lag_168h_values count
    y_mean ← mean targets count
    let zeros : Sums D = record { s11 = zero; s22 = zero; s12 = zero; t1 = zero; t2 = zero }
    sums ← sums_from x1_mean x2_mean y_mean zeros targets lag_24h_values lag_168h_values
    determinant ← sub (← mul sums.s11 sums.s22) (← mul sums.s12 sums.s12)
    ok (record {
      x1_mean = x1_mean;
      x2_mean = x2_mean;
      y_mean = y_mean;
      sums = sums;
      determinant = determinant;
    })

  unfoldable pub aggregates : Aggregates D → List D
  aggregates a =
      a.x1_mean ∷ a.x2_mean ∷ a.y_mean ∷ a.sums.s11 ∷ a.sums.s22 ∷ a.sums.s12 ∷ a.sums.t1
      ∷ a.sums.t2 ∷ a.determinant ∷ []

  -- What the second `try` computes: the two coefficients and the intercept.
  unfoldable pub plane_through : Aggregates D → Result (DamPriceLag24h168hLinearRegressionFit D)
  plane_through a = do
    let s = a.sums
    lag_24h_coefficient ← div (← sub (← mul s.t1 s.s22) (← mul s.t2 s.s12)) a.determinant
    lag_168h_coefficient ← div (← sub (← mul s.t2 s.s11) (← mul s.t1 s.s12)) a.determinant
    first ← sub a.y_mean (← mul lag_24h_coefficient a.x1_mean)
    intercept ← sub first (← mul lag_168h_coefficient a.x2_mean)
    ok (record {
      lag_24h_coefficient = lag_24h_coefficient;
      lag_168h_coefficient = lag_168h_coefficient;
      intercept_amount_per_mwh = intercept;
    })

  unfoldable pub compute_ols :
      List D → List D → List D → Result (DamPriceLag24h168hLinearRegressionFit D)
  unfolding centered_sums aggregates plane_through
  compute_ols lag_24h_values lag_168h_values targets = do
    a ←
        guarded (message Reason.non_finite_fit)
          (centered_sums lag_24h_values lag_168h_values targets)
    if all_finite (aggregates a)
        then (if dec.less_equal a.determinant (dec.of_ℕ 0)
            then err (message Reason.singular_design)
            else guarded (message Reason.non_finite_fit) (plane_through a))
        else err (message Reason.non_finite_fit)

  unfoldable pub require_finite_fit :
      DamPriceLag24h168hLinearRegressionFit D → Result (DamPriceLag24h168hLinearRegressionFit D)
  require_finite_fit fit =
      if dec.is_finite fit.lag_24h_coefficient
        && (dec.is_finite fit.lag_168h_coefficient && dec.is_finite fit.intercept_amount_per_mwh)
      then ok fit
      else err (message Reason.non_finite_fit)

  unfoldable pub fit_linear_regression :
      List (DamPriceLag24h168hFeatureRow D) → Result (DamPriceLag24h168hLinearRegressionFit D)
  unfolding require_finite_fit
  fit_linear_regression training_rows =
      if ltb (length training_rows) 3 then err (message Reason.too_few_rows) else do
        require_single_market training_rows
        require_single_currency training_rows
        require_chronology training_rows
        let lag_24h_values = map (λ row. row.lag_24h_amount_per_mwh) training_rows
        let lag_168h_values = map (λ row. row.lag_168h_amount_per_mwh) training_rows
        let targets = map (λ row. row.target_amount_per_mwh) training_rows
        require_finite_values lag_24h_values lag_168h_values targets
        require_finite_fit (← compute_ols lag_24h_values lag_168h_values targets)
