-- ===== src/ConsumerLoad/Fit168h.antt =====
-- src/energy_trading/ml/consumer_load/lag_24h_168h_linear_regression.py: the least-squares plane through the rows.
use armenian_energy_trading.Base.{
  List, [], ◌∷◌, Bool, true, false, ◌&&◌, map, length, ltb, if◌then◌else◌, text_comparable,
}
use armenian_energy_trading.Float.{Float}
use armenian_energy_trading.Ml.Errors.{
  Stage, Reason, Error, invalid_request, Result, ok, err, ◌>>=◌, ◌>>◌,
}
use armenian_energy_trading.Ml.Cohort.{require_single, require_strict_chronology}
use armenian_energy_trading.ConsumerLoad.Features168h.{ConsumerLoadLag24h168hFeatureRow}
use armenian_energy_trading.ConsumerLoad.PersistenceEvaluation.{quotient}

abbrev pub message : Reason → Error
message = invalid_request Stage.load_fit_168h

pub record ConsumerLoadLag24h168hLinearRegressionFit (F : Type 0) : Type 0 where
  pub lag_24h_coefficient : F
  pub lag_168h_coefficient : F
  pub intercept_mw : F

module _ {F : Type 0} where
  unfoldable pub require_single_consumer :
      List (ConsumerLoadLag24h168hFeatureRow F) → Result (Unit {0})
  require_single_consumer rows =
      require_single (message Reason.mixed_consumer) (map (λ r. r.consumer_id) rows)

  unfoldable pub require_chronology : List (ConsumerLoadLag24h168hFeatureRow F) → Result (Unit {0})
  require_chronology rows =
      require_strict_chronology (message Reason.duplicate_timestamp) (message Reason.out_of_order)
        (map (λ r. r.target_timestamp) rows)

-- The state of the loop.
pub record Sums (F : Type 0) : Type 0 where
  pub s11 : F
  pub s22 : F
  pub s12 : F
  pub t1 : F
  pub t2 : F

module _ {F : Type 0} ⦃float : Float F⦄ where
  -- One turn of the loop.
  unfoldable pub add_row : F → F → F → ConsumerLoadLag24h168hFeatureRow F → Sums F → Sums F
  add_row x1_mean x2_mean y_mean row sums =
      let dx1 = float.sub row.lag_24h_mw x1_mean in
      let dx2 = float.sub row.lag_168h_mw x2_mean in
      let dy = float.sub row.target_value_mw y_mean in
      record {
        s11 = float.add sums.s11 (float.mul dx1 dx1);
        s22 = float.add sums.s22 (float.mul dx2 dx2);
        s12 = float.add sums.s12 (float.mul dx1 dx2);
        t1 = float.add sums.t1 (float.mul dx1 dy);
        t2 = float.add sums.t2 (float.mul dx2 dy);
      }

  unfoldable pub sums_from : F → F → F → Sums F → List (ConsumerLoadLag24h168hFeatureRow F) → Sums F
  unfolding add_row
  sums_from x1_mean x2_mean y_mean sums [] = sums
  sums_from x1_mean x2_mean y_mean sums (row ∷ rows) =
      sums_from x1_mean x2_mean y_mean (add_row x1_mean x2_mean y_mean row sums) rows

  abbrev pub all_finite : List F → Bool
  all_finite [] = true
  all_finite (v ∷ vs) = if float.is_finite v then all_finite vs else false

  -- The two coefficients and the intercept, with the last test.
  unfoldable pub plane_through :
      F → F → F → Sums F → F → Result (ConsumerLoadLag24h168hLinearRegressionFit F)
  plane_through x1_mean x2_mean y_mean s determinant = do
    lag_24h_coefficient ←
        quotient (float.sub (float.mul s.t1 s.s22) (float.mul s.t2 s.s12)) determinant
    lag_168h_coefficient ←
        quotient (float.sub (float.mul s.t2 s.s11) (float.mul s.t1 s.s12)) determinant
    let intercept_mw =
        float.sub (float.sub y_mean (float.mul lag_24h_coefficient x1_mean))
          (float.mul lag_168h_coefficient x2_mean)
    if float.is_finite lag_24h_coefficient
          && (float.is_finite lag_168h_coefficient && float.is_finite intercept_mw)
        then ok (record {
          lag_24h_coefficient = lag_24h_coefficient;
          lag_168h_coefficient = lag_168h_coefficient;
          intercept_mw = intercept_mw;
        })
        else err (message Reason.non_finite)

  unfoldable pub fit_linear_regression :
      List (ConsumerLoadLag24h168hFeatureRow F)
      → Result (ConsumerLoadLag24h168hLinearRegressionFit F)
  unfolding sums_from plane_through
  fit_linear_regression training_rows =
      if ltb (length training_rows) 3 then err (message Reason.too_few_rows) else do
        require_single_consumer training_rows
        require_chronology training_rows
        let count = float.of_ℕ (length training_rows)
        x1_mean ← quotient (float.total (map (λ row. row.lag_24h_mw) training_rows)) count
        x2_mean ← quotient (float.total (map (λ row. row.lag_168h_mw) training_rows)) count
        y_mean ← quotient (float.total (map (λ row. row.target_value_mw) training_rows)) count
        let zero = float.of_ℕ 0
        let zeros : Sums F = record { s11 = zero; s22 = zero; s12 = zero; t1 = zero; t2 = zero }
        let s = sums_from x1_mean x2_mean y_mean zeros training_rows
        let determinant = float.sub (float.mul s.s11 s.s22) (float.mul s.s12 s.s12)
        let values =
            x1_mean ∷ x2_mean ∷ y_mean ∷ s.s11 ∷ s.s22 ∷ s.s12 ∷ s.t1 ∷ s.t2 ∷ determinant ∷ []
        if all_finite values
            then (if float.less_equal determinant zero
                then err (message Reason.singular_design)
                else plane_through x1_mean x2_mean y_mean s determinant)
            else err (message Reason.non_finite)
