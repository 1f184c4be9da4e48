-- ===== src/ConsumerLoad/Fit24h.antt =====
-- src/energy_trading/ml/consumer_load/lag_24h_linear_regression.py: the least-squares line through the rows.
use armenian_energy_trading.Base.{
  List, [], ◌∷◌, ◌&&◌, map, length, ltb, if◌then◌else◌, text_comparable, none, some,
}
use armenian_energy_trading.Float.{Float}
use armenian_energy_trading.Ml.Errors.{
  Stage, Reason, Error, invalid_request, overflow_error, Result, ok, err, ◌>>=◌, ◌>>◌, traverse,
}
use armenian_energy_trading.Ml.Cohort.{require_single, require_strict_chronology}
use armenian_energy_trading.ConsumerLoad.Features24h.{ConsumerLoadLag24hFeatureRow}
use armenian_energy_trading.ConsumerLoad.PersistenceEvaluation.{quotient}

abbrev pub message : Reason → Error
message = invalid_request Stage.load_fit_24h

pub record ConsumerLoadLag24hLinearRegressionFit (F : Type 0) : Type 0 where
  pub slope : F
  pub intercept_mw : F

module _ {F : Type 0} where
  unfoldable pub require_single_consumer : List (ConsumerLoadLag24hFeatureRow F) → Result (Unit {0})
  require_single_consumer rows =
      require_single (message Reason.mixed_consumer) (map (λ r. r.consumer_id) rows)

  unfoldable pub require_chronology : List (ConsumerLoadLag24hFeatureRow F) → Result (Unit {0})
  require_chronology rows =
      require_strict_chronology (message Reason.duplicate_timestamp) (message Reason.out_of_order)
        (map (λ r. r.target_timestamp) rows)

module _ {F : Type 0} ⦃float : Float F⦄ where
  -- The products that `numerator` sums.
  unfoldable pub products : F → F → List (F × F) → List F
  products x_mean y_mean [] = []
  products x_mean y_mean ((x, y) ∷ rest) =
      float.mul (float.sub x x_mean) (float.sub y y_mean) ∷ products x_mean y_mean rest

  -- `(x_i - x_mean) ** 2`
  unfoldable pub squared_deviation : F → F → Result F
  squared_deviation x_mean x = elim (float.square (float.sub x x_mean)) [
    | none ↦ err overflow_error
    | some s ↦ ok s
  ]

  unfoldable pub fit_linear_regression :
      List (ConsumerLoadLag24hFeatureRow F) → Result (ConsumerLoadLag24hLinearRegressionFit F)
  unfolding products squared_deviation
  fit_linear_regression training_rows =
      if ltb (length training_rows) 2 then err (message Reason.too_few_rows) else do
        require_single_consumer training_rows
        require_chronology training_rows
        let features = map (λ row. row.lag_24h_mw) training_rows
        let targets = map (λ row. row.target_value_mw) training_rows
        let count = float.of_ℕ (length training_rows)
        x_mean ← quotient (float.total features) count
        y_mean ← quotient (float.total targets) count
        let pairs = map (λ row. (row.lag_24h_mw, row.target_value_mw)) training_rows
        let numerator = float.total (products x_mean y_mean pairs)
        squares ← traverse (squared_deviation x_mean) features
        let denominator = float.total squares
        if float.equal denominator (float.of_ℕ 0) then err (message Reason.zero_variance) else do
          slope ← quotient numerator denominator
          let intercept_mw = float.sub y_mean (float.mul slope x_mean)
          if float.is_finite slope && float.is_finite intercept_mw
              then ok (record { slope = slope; intercept_mw = intercept_mw })
              else err (message Reason.non_finite)
