-- ===== src/DamPrice/ThreeWay/Compared.antt =====
-- What src/energy_trading/ml/dam_price/persistence_vs_lag_24h_vs_lag_24h_168h_ols_comparison.py
-- has checked of its cohorts when it returns.
use armenian_energy_trading.Base.{
  ◌≡◌, ◌≢◌, refl, sym, ap, String, List, [], inl, inr, subst, ◌∙◌, ◌==◌, Bool-cases, ◌∷◌, map,
  length, true, All, arith, text_comparable,
}
use armenian_energy_trading.Decimal.{Decimal}
use armenian_energy_trading.Domain.{EntityId, CurrencyCode}
use armenian_energy_trading.Ml.Errors.{ok, ok-injective, >>=-eq-ok, >>-eq-ok}
use armenian_energy_trading.Ml.Cohort.Laws.{Increasing, require_single-ok, chronology-ok}
use armenian_energy_trading.Ml.Cohort.Same.{require_same-All}
use armenian_energy_trading.DamPrice.Backtest.{PreviousDayPersistenceBacktestCase}
use armenian_energy_trading.DamPrice.Predict24h.{DamPriceLag24hLinearRegressionPrediction}
use armenian_energy_trading.DamPrice.Predict168h.{DamPriceLag24h168hLinearRegressionPrediction}
use armenian_energy_trading.DamPrice.PersistenceEvaluation as PersistenceEvaluation
use armenian_energy_trading.DamPrice.Evaluate24h as Evaluate24h
use armenian_energy_trading.DamPrice.Evaluate168h as Evaluate168h
use armenian_energy_trading.DamPrice.ThreeWay.{
  DamPricePersistenceVsLag24hVsLag24h168hOlsMaeComparison, require_nonempty_equal_cohort,
  require_single_shared_market_and_currency, require_currency_coherence,
  require_persistence_chronology, require_three_way_alignment, compare_mae,
}

-- Every row carries the text.
abbrev pub AllAt : {A : Type 0} → (A → String) → String → List A → Type 0
AllAt f text rows = All (λ x. x ≡ text) (map f rows)

module _ {D : Type 0} where
  -- The three cohorts are of one market and one currency, the predicted prices of the baseline too.
  pub record Shared (market : EntityId) (currency : CurrencyCode)
      (cs : List (PreviousDayPersistenceBacktestCase D))
      (ps : List (DamPriceLag24hLinearRegressionPrediction D))
      (qs : List (DamPriceLag24h168hLinearRegressionPrediction D)) : Type 0 where
    pub case_markets : AllAt (λ c. c.market_id) market cs
    pub lag_24h_markets : AllAt (λ p. p.market_id) market ps
    pub lag_24h_168h_markets : AllAt (λ q. q.market_id) market qs
    pub actual_currencies : AllAt (λ c. c.actual_price.currency) currency cs
    pub predicted_currencies : AllAt (λ c. c.predicted_price.currency) currency cs
    pub lag_24h_currencies : AllAt (λ p. p.currency) currency ps
    pub lag_24h_168h_currencies : AllAt (λ q. q.currency) currency qs

  empty_cohort :
      (ps : List (DamPriceLag24hLinearRegressionPrediction D))
      (qs : List (DamPriceLag24h168hLinearRegressionPrediction D))
      → require_nonempty_equal_cohort [] ps qs ≢ ok tt
  unfolding require_nonempty_equal_cohort
  empty_cohort [] [] h = cc
  empty_cohort [] (q ∷ qs) h = cc
  empty_cohort (p ∷ ps) [] h = cc
  empty_cohort (p ∷ ps) (q ∷ qs) h = cc

  equal_lengths :
      (c : PreviousDayPersistenceBacktestCase D) (cs : List (PreviousDayPersistenceBacktestCase D))
      (ps : List (DamPriceLag24hLinearRegressionPrediction D))
      (qs : List (DamPriceLag24h168hLinearRegressionPrediction D))
      → require_nonempty_equal_cohort (c ∷ cs) ps qs ≡ ok tt
      → (length (c ∷ cs) ≡ length ps) × (length (c ∷ cs) ≡ length qs)
  unfolding require_nonempty_equal_cohort
  equal_lengths c cs [] qs h = cc
  equal_lengths c cs (p ∷ ps) [] h = cc
  equal_lengths c cs (p ∷ ps) (q ∷ qs) h = ground arith

  coherent :
      (currency : CurrencyCode) (cs : List (PreviousDayPersistenceBacktestCase D))
      → require_currency_coherence cs ≡ ok tt
      → AllAt (λ c. c.actual_price.currency) currency cs
      → AllAt (λ c. c.predicted_price.currency) currency cs
  unfolding require_currency_coherence
  coherent currency [] h all = tt
  coherent currency (c ∷ cs) h all =
      elim (Bool-cases (c.predicted_price.currency == c.actual_price.currency)) [
        | inl same ↦ (
          (text_comparable.same_iff _ _).0 same ∙ all.0,
          coherent currency cs (rw same at h) all.1,
        )
        | inr other ↦ cc (rw other at h)
      ]

  shared :
      (c : PreviousDayPersistenceBacktestCase D) (cs : List (PreviousDayPersistenceBacktestCase D))
      (ps : List (DamPriceLag24hLinearRegressionPrediction D))
      (qs : List (DamPriceLag24h168hLinearRegressionPrediction D)) {currency : CurrencyCode}
      → require_single_shared_market_and_currency (c ∷ cs) ps qs ≡ ok currency
      → Shared c.market_id currency (c ∷ cs) ps qs
  unfolding require_single_shared_market_and_currency
  shared c cs ps qs {currency} h =
      let (single, h1) = >>-eq-ok _ _ h in
      let (_, h2) = >>-eq-ok _ _ h1 in
      let (_, h3) = >>-eq-ok _ _ h2 in
      let (same, h4) = >>-eq-ok _ _ h3 in
      let (same', h5) = >>-eq-ok _ _ h4 in
      let (_, h6) = >>-eq-ok _ _ h5 in
      let (coherence, h7) = >>-eq-ok _ _ h6 in
      let (single', h8) = >>-eq-ok _ _ h7 in
      let (_, h9) = >>-eq-ok _ _ h8 in
      let (_, h10) = >>-eq-ok _ _ h9 in
      let (equal, h11) = >>-eq-ok _ _ h10 in
      let (equal', h12) = >>-eq-ok _ _ h11 in
      let (_, h13) = >>-eq-ok _ _ h12 in
      let returned : c.actual_price.currency ≡ currency = ok-injective h13 in
      let markets = map (λ r. r.market_id) (c ∷ cs) in
      let currencies = map (λ r. r.actual_price.currency) (c ∷ cs) in
      let one_market : All (λ x. x ≡ c.market_id) markets =
        (refl, require_single-ok _ markets single) in
      let one_currency : All (λ x. x ≡ currency) currencies =
        subst (λ y. All (λ x. x ≡ y) currencies) returned
          (refl, require_single-ok _ currencies single') in
      record {
        case_markets = one_market;
        lag_24h_markets =
            require_same-All c.market_id _ markets (map (λ r. r.market_id) ps) same one_market;
        lag_24h_168h_markets =
            require_same-All c.market_id _ markets (map (λ r. r.market_id) qs) same' one_market;
        actual_currencies = one_currency;
        predicted_currencies = coherent currency (c ∷ cs) coherence one_currency;
        lag_24h_currencies =
            require_same-All currency _ currencies (map (λ r. r.currency) ps) equal one_currency;
        lag_24h_168h_currencies =
            require_same-All currency _ currencies (map (λ r. r.currency) qs) equal' one_currency;
      }

module _ {D : Type 0} ⦃dec : Decimal D⦄ where
  -- The cohorts have equal lengths, and at each place equal timestamps and equal actual values.
  abbrev pub Aligned :
      List (PreviousDayPersistenceBacktestCase D)
      → List (DamPriceLag24hLinearRegressionPrediction D)
      → List (DamPriceLag24h168hLinearRegressionPrediction D)
      → Type 0
  Aligned [] [] [] = Unit
  Aligned (c ∷ cs) (p ∷ ps) (q ∷ qs) =
      (p.target_timestamp ≡ c.target_timestamp)
      × (q.target_timestamp ≡ c.target_timestamp)
      × (dec.equal c.actual_price.amount_per_mwh p.actual_amount_per_mwh ≡ true)
      × (dec.equal c.actual_price.amount_per_mwh q.actual_amount_per_mwh ≡ true)
      × (dec.equal p.actual_amount_per_mwh q.actual_amount_per_mwh ≡ true)
      × Aligned cs ps qs
  Aligned _ _ _ = ⊥

  alignment-Aligned :
      (cs : List (PreviousDayPersistenceBacktestCase D))
      (ps : List (DamPriceLag24hLinearRegressionPrediction D))
      (qs : List (DamPriceLag24h168hLinearRegressionPrediction D))
      → length cs ≡ length ps
      → length cs ≡ length qs
      → require_three_way_alignment cs ps qs ≡ ok tt
      → Aligned cs ps qs
  unfolding require_three_way_alignment
  alignment-Aligned [] [] [] e e' h = tt
  alignment-Aligned [] [] (q ∷ qs) e e' h = absurd (omega (arith, e'))
  alignment-Aligned [] (p ∷ ps) qs e e' h = absurd (omega (arith, e))
  alignment-Aligned (c ∷ cs) [] qs e e' h = cc
  alignment-Aligned (c ∷ cs) (p ∷ ps) [] e e' h = cc
  alignment-Aligned (c ∷ cs) (p ∷ ps) (q ∷ qs) e e' h =
      let shorter : length cs ≡ length ps = omega (arith, e) in
      let shorter' : length cs ≡ length qs = omega (arith, e') in
      ground (arith, alignment-Aligned cs ps qs shorter shorter')

  -- What a comparison that was returned has checked and computed.
  pub record Compared (cs : List (PreviousDayPersistenceBacktestCase D))
      (ps : List (DamPriceLag24hLinearRegressionPrediction D))
      (qs : List (DamPriceLag24h168hLinearRegressionPrediction D))
      (r : DamPricePersistenceVsLag24hVsLag24h168hOlsMaeComparison D) : Type 0 where
    pub market : EntityId
    pub of_one_market : Shared market r.currency cs ps qs
    pub aligned : Aligned cs ps qs
    pub chronological : Increasing (map (λ c. c.target_timestamp) cs)
    pub count_eq : r.case_count ≡ length cs
    pub persistence : PersistenceEvaluation.PreviousDayPersistenceMaeResult D
    pub persistence_made : PersistenceEvaluation.evaluate_mae cs ≡ ok persistence
    pub persistence_eq : r.persistence_mae_amount_per_mwh ≡ persistence.mae_amount_per_mwh
    pub one_lag : Evaluate24h.DamPriceLag24hLinearRegressionMaeResult D
    pub one_lag_made : Evaluate24h.evaluate_mae ps ≡ ok one_lag
    pub one_lag_eq : r.lag_24h_mae_amount_per_mwh ≡ one_lag.mae_amount_per_mwh
    pub two_lag : Evaluate168h.DamPriceLag24h168hLinearRegressionMaeResult D
    pub two_lag_made : Evaluate168h.evaluate_mae qs ≡ ok two_lag
    pub two_lag_eq : r.lag_24h_168h_mae_amount_per_mwh ≡ two_lag.mae_amount_per_mwh

  -- A three-way comparison that is returned is of three cohorts of one market and of its currency that agree place by
  -- place in timestamp and actual value, in strictly increasing order; its errors are those of the
  -- three evaluators on these cohorts, and its count is that of the cases.
  pub compare_mae-Compared :
      (cs : List (PreviousDayPersistenceBacktestCase D))
      (ps : List (DamPriceLag24hLinearRegressionPrediction D))
      (qs : List (DamPriceLag24h168hLinearRegressionPrediction D))
      {r : DamPricePersistenceVsLag24hVsLag24h168hOlsMaeComparison D}
      → compare_mae cs ps qs ≡ ok r
      → Compared cs ps qs r
  unfolding compare_mae require_persistence_chronology
  compare_mae-Compared [] ps qs h = absurd (empty_cohort ps qs (>>-eq-ok _ _ h).0)
  compare_mae-Compared (c ∷ cs) ps qs h =
      let (cohort, h1) = >>-eq-ok _ _ h in
      let (equal_ps, equal_qs) = equal_lengths c cs ps qs cohort in
      let (currency, agreed, h2) = >>=-eq-ok _ _ h1 in
      let (chronology, h3) = >>-eq-ok _ _ h2 in
      let (_, h4) = >>-eq-ok _ _ h3 in
      let (_, h5) = >>-eq-ok _ _ h4 in
      let (alignment, h6) = >>-eq-ok _ _ h5 in
      let (persistence, made, h7) = >>=-eq-ok _ _ h6 in
      let (one_lag, made', h8) = >>=-eq-ok _ _ h7 in
      let (two_lag, made'', h9) = >>=-eq-ok _ _ h8 in
      let result = sym (ok-injective h9) in
      record {
        market = c.market_id;
        of_one_market =
            subst (λ y. Shared c.market_id y (c ∷ cs) ps qs) (sym (ap (λ x. x.currency) result))
              (shared c cs ps qs agreed);
        aligned = alignment-Aligned (c ∷ cs) ps qs equal_ps equal_qs alignment;
        chronological = chronology-ok _ _ (map (λ x. x.target_timestamp) (c ∷ cs)) chronology;
        count_eq = ap (λ x. x.case_count) result;
        persistence = persistence;
        persistence_made = made;
        persistence_eq = ap (λ x. x.persistence_mae_amount_per_mwh) result;
        one_lag = one_lag;
        one_lag_made = made';
        one_lag_eq = ap (λ x. x.lag_24h_mae_amount_per_mwh) result;
        two_lag = two_lag;
        two_lag_made = made'';
        two_lag_eq = ap (λ x. x.lag_24h_168h_mae_amount_per_mwh) result;
      }
