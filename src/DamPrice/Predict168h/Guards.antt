-- ===== src/DamPrice/Predict168h/Guards.antt =====
-- What the predictions of ml/dam_price/lag_24h_168h_linear_regression_prediction.py are, and what they
-- can raise on the evaluation rows of a split with a fit that was returned.
use armenian_energy_trading.Base.{
  ◌≡◌, ◌≢◌, ◌⊎◌, inl, inr, refl, Bool, false, if◌then◌else◌, List, [], ◌∷◌, map, true, arith,
  text_comparable,
}
use armenian_energy_trading.Decimal.{Decimal}
use armenian_energy_trading.Ml.Errors.{
  Error, Reason, decimal_exception, Result, err, ok, >>-eq-ok, traverse, Each, traverse-Each,
}
use armenian_energy_trading.Ml.Arithmetic.{raised, guarded}
use armenian_energy_trading.Ml.Arithmetic.Laws.{
  Only, Only->>=, raised-Only, guarded-Only, Raises, Raises->>=, Raises-traverse, Raises-Only,
}
use armenian_energy_trading.Ml.Cohort.{Timestamp}
use armenian_energy_trading.Ml.Cohort.Laws.{
  AllSame-require_single, Increasing-chronology, require_single-ok, chronology-ok,
}
use armenian_energy_trading.DamPrice.Features168h.{DamPriceLag24h168hFeatureRow}
use armenian_energy_trading.DamPrice.Features168h.Exact.{IsCohort}
use armenian_energy_trading.DamPrice.Split168h.{
  DamPriceLag24h168hChronologicalFeatureSplit, split_chronologically,
}
use armenian_energy_trading.DamPrice.Split168h.Partition.{
  split_chronologically-IsCohort, split_chronologically-nonempty,
}
use armenian_energy_trading.DamPrice.Fit168h.{
  DamPriceLag24h168hLinearRegressionFit, fit_linear_regression,
}
use armenian_energy_trading.DamPrice.Fit168h.Guards.{IsFinite, fit_linear_regression-Fitted}
use armenian_energy_trading.DamPrice.Predict168h.{
  DamPriceLag24h168hLinearRegressionPrediction, require_single_market, require_single_currency,
  message, require_chronology, require_finite_fit, fitted_value, predicted_amount_per_mwh,
  prediction_for_row, predict,
}

-- What a row can raise: one of its values, or its prediction, is not finite.
abbrev pub RowError : Error → Type 0
RowError e = (e ≡ message Reason.non_finite_input) ⊎ (e ≡ message Reason.non_finite_prediction)

module _ {D : Type 0} ⦃dec : Decimal D⦄ where
  -- A prediction for a row: the row's market, currency, timestamp and observed amount, and a finite
  -- fitted value.
  pub record Predicts (fit : DamPriceLag24h168hLinearRegressionFit D)
      (row : DamPriceLag24h168hFeatureRow D) (p : DamPriceLag24h168hLinearRegressionPrediction D)
      : Type 0 where
    pub market_eq : p.market_id ≡ row.market_id
    pub currency_eq : p.currency ≡ row.currency
    pub timestamp_eq : p.target_timestamp ≡ row.target_timestamp
    pub actual_eq : p.actual_amount_per_mwh ≡ row.target_amount_per_mwh
    pub actual_finite : dec.is_finite p.actual_amount_per_mwh ≡ true
    pub predicted_finite : dec.is_finite p.predicted_amount_per_mwh ≡ true
    pub predicted_eq : fitted_value fit row ≡ ok p.predicted_amount_per_mwh

  pub prediction_for_row-Predicts :
      (fit : DamPriceLag24h168hLinearRegressionFit D) (row : DamPriceLag24h168hFeatureRow D)
      (p : DamPriceLag24h168hLinearRegressionPrediction D)
      → prediction_for_row fit row ≡ ok p
      → Predicts fit row p
  unfolding prediction_for_row predicted_amount_per_mwh
  prediction_for_row-Predicts fit row p h = ground arith

  Each-Predicts :
      (fit : DamPriceLag24h168hLinearRegressionFit D) (rows : List (DamPriceLag24h168hFeatureRow D))
      (ps : List (DamPriceLag24h168hLinearRegressionPrediction D))
      → Each (λ row p. prediction_for_row fit row ≡ ok p) rows ps
      → Each (Predicts fit) rows ps
  Each-Predicts fit [] [] h = tt
  Each-Predicts fit [] (p ∷ ps) h = absurd h
  Each-Predicts fit (r ∷ rs) [] h = absurd h
  Each-Predicts fit (r ∷ rs) (p ∷ ps) h =
      (prediction_for_row-Predicts fit r p h.0, Each-Predicts fit rs ps h.1)

  -- Predictions that are returned stand one to a row, in the order of the rows, and the rows are of one
  -- market and one currency in strictly increasing order.
  pub predict-Predicts :
      (fit : DamPriceLag24h168hLinearRegressionFit D) (rows : List (DamPriceLag24h168hFeatureRow D))
      (ps : List (DamPriceLag24h168hLinearRegressionPrediction D))
      → predict fit rows ≡ ok ps
      → IsCohort rows × Each (Predicts fit) rows ps
  unfolding predict require_single_market require_single_currency require_chronology
  predict-Predicts fit [] ps h = cc
  predict-Predicts fit (r ∷ rs) ps h =
      let (markets, h1) = >>-eq-ok _ _ h in
      let (currencies, h2) = >>-eq-ok _ _ h1 in
      let (chronology, h3) = >>-eq-ok _ _ h2 in
      let (finite, h4) = >>-eq-ok _ _ h3 in
      (
        record {
          one_market = require_single-ok _ (map (λ x. x.market_id) (r ∷ rs)) markets;
          one_currency = require_single-ok _ (map (λ x. x.currency) (r ∷ rs)) currencies;
          chronological = chronology-ok _ _ (map (λ x. x.target_timestamp) (r ∷ rs)) chronology;
        },
        Each-Predicts fit (r ∷ rs) ps (traverse-Each (prediction_for_row fit) (r ∷ rs) ps h4),
      )

  IsCohort-predict :
      (fit : DamPriceLag24h168hLinearRegressionFit D) (rows : List (DamPriceLag24h168hFeatureRow D))
      → rows ≢ []
      → IsCohort rows
      → IsFinite fit
      → predict fit rows ≡ traverse (prediction_for_row fit) rows
  unfolding predict require_single_market require_single_currency require_chronology
      require_finite_fit
  IsCohort-predict fit [] ne cohort finite = absurd (ne refl)
  IsCohort-predict fit (r ∷ rs) ne cohort finite =
      rw
        (
          AllSame-require_single _ (map (λ x. x.market_id) (r ∷ rs)) cohort.one_market,
          AllSame-require_single _ (map (λ x. x.currency) (r ∷ rs)) cohort.one_currency,
          Increasing-chronology _ _ r.target_timestamp (map (λ x. x.target_timestamp) rs)
              cohort.chronological,
          finite.lag_24h_finite,
          finite.lag_168h_finite,
          finite.intercept_finite,
        )
        refl

  fitted_value-Only :
      (fit : DamPriceLag24h168hLinearRegressionFit D) (row : DamPriceLag24h168hFeatureRow D)
      → Only decimal_exception (fitted_value fit row)
  unfolding fitted_value
  fitted_value-Only fit row =
      Only->>= _ (raised (dec.mul fit.lag_24h_coefficient row.lag_24h_amount_per_mwh)) _
        (raised-Only _)
        (λ first.
          Only->>= _ (raised (dec.mul fit.lag_168h_coefficient row.lag_168h_amount_per_mwh)) _
            (raised-Only _)
            (λ second.
              Only->>= _ (raised (dec.add first second)) _ (raised-Only _) (λ sum. raised-Only _)))

  finite_prediction :
      (b : Bool) (amount : D)
      → Raises RowError (if b then ok amount else err (message Reason.non_finite_prediction))
  finite_prediction true amount = tt
  finite_prediction false amount = inr refl

  finite_input :
      (b : Bool) (m : Result D)
      → Raises RowError m
      → Raises RowError (if b then m else err (message Reason.non_finite_input))
  finite_input true m h = h
  finite_input false m h = inl refl

  prediction_for_row-RowError :
      (fit : DamPriceLag24h168hLinearRegressionFit D) (row : DamPriceLag24h168hFeatureRow D)
      → Raises RowError (prediction_for_row fit row)
  unfolding prediction_for_row predicted_amount_per_mwh
  prediction_for_row-RowError fit row =
      Raises->>= RowError (predicted_amount_per_mwh fit row) _
        (finite_input _ _ (
          Raises->>= RowError
            (guarded (message Reason.non_finite_prediction) (fitted_value fit row)) _
            (Raises-Only RowError (message Reason.non_finite_prediction) _ (inr refl)
              (guarded-Only _ (fitted_value fit row) (fitted_value-Only fit row)))
            (λ amount. finite_prediction (dec.is_finite amount) amount)))
        (λ amount. tt)

  -- With a fit that was returned for some training rows, and the evaluation rows of a split that was
  -- returned, no guard of the prediction on the fit or on the cohort of rows fires: it predicts row by
  -- row, and the only errors that it can raise are that a value of a row, or the prediction for a row,
  -- is not finite.
  pub predict-split :
      (training rows : List (DamPriceLag24h168hFeatureRow D)) (cutoff : Timestamp)
      {fit : DamPriceLag24h168hLinearRegressionFit D}
      {s : DamPriceLag24h168hChronologicalFeatureSplit D}
      → fit_linear_regression training ≡ ok fit
      → split_chronologically rows cutoff ≡ ok s
      → (predict fit s.evaluation_rows ≡ traverse (prediction_for_row fit) s.evaluation_rows)
        × Raises RowError (predict fit s.evaluation_rows)
  predict-split training rows cutoff {fit} {s} fitted cut =
      let row_by_row =
        IsCohort-predict fit s.evaluation_rows (split_chronologically-nonempty rows cutoff cut).1
          (split_chronologically-IsCohort rows cutoff cut).1
          (fit_linear_regression-Fitted training fitted).finite in
      (
        row_by_row,
        rw row_by_row (
            Raises-traverse RowError (prediction_for_row fit) s.evaluation_rows
              (prediction_for_row-RowError fit)),
      )
