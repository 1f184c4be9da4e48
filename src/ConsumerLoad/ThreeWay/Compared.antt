-- ===== src/ConsumerLoad/ThreeWay/Compared.antt =====
-- What src/energy_trading/ml/consumer_load/persistence_vs_lag_24h_vs_lag_24h_168h_ols_comparison.py
-- has checked of its cohorts when it returns.
use armenian_energy_trading.Base.{
  ◌≡◌, ◌≢◌, refl, sym, ap, List, [], ◌∷◌, map, length, true, All, arith, text_comparable,
}
use armenian_energy_trading.Float.{Float}
use armenian_energy_trading.Domain.{EntityId}
use armenian_energy_trading.Ml.Errors.{ok, ok-injective, >>=-eq-ok, >>-eq-ok}
use armenian_energy_trading.Ml.Cohort.Laws.{Increasing, require_single-ok, chronology-ok}
use armenian_energy_trading.Ml.Cohort.Same.{require_same-All}
use armenian_energy_trading.ConsumerLoad.Backtest.{PreviousDayPersistenceBacktestCase}
use armenian_energy_trading.ConsumerLoad.Predict24h.{ConsumerLoadLag24hLinearRegressionPrediction}
use armenian_energy_trading.ConsumerLoad.Predict168h.{
  ConsumerLoadLag24h168hLinearRegressionPrediction,
}
use armenian_energy_trading.ConsumerLoad.PersistenceEvaluation as PersistenceEvaluation
use armenian_energy_trading.ConsumerLoad.Evaluate24h as Evaluate24h
use armenian_energy_trading.ConsumerLoad.Evaluate168h as Evaluate168h
use armenian_energy_trading.ConsumerLoad.ThreeWay.{
  ConsumerLoadPersistenceVsLag24hVsLag24h168hOlsMaeComparison, require_nonempty_equal_cohort,
  require_single_shared_consumer, require_persistence_chronology, require_three_way_alignment,
  compare_mae,
}

-- Every row carries the identifier.
abbrev pub AllAt : {A : Type 0} → (A → EntityId) → EntityId → List A → Type 0
AllAt f consumer rows = All (λ x. x ≡ consumer) (map f rows)

module _ {F : Type 0} where
  -- The three cohorts are of one consumer.
  abbrev pub OneConsumer :
      EntityId
      → List (PreviousDayPersistenceBacktestCase F)
      → List (ConsumerLoadLag24hLinearRegressionPrediction F)
      → List (ConsumerLoadLag24h168hLinearRegressionPrediction F)
      → Type 0
  OneConsumer consumer cs ps qs =
      AllAt (λ c. c.consumer_id) consumer cs
      × AllAt (λ p. p.consumer_id) consumer ps
      × AllAt (λ q. q.consumer_id) consumer qs

  empty_cohort :
      (ps : List (ConsumerLoadLag24hLinearRegressionPrediction F))
      (qs : List (ConsumerLoadLag24h168hLinearRegressionPrediction F))
      → require_nonempty_equal_cohort [] ps qs ≢ ok tt
  unfolding require_nonempty_equal_cohort
  empty_cohort [] [] h = cc
  empty_cohort [] (q ∷ qs) h = cc
  empty_cohort (p ∷ ps) [] h = cc
  empty_cohort (p ∷ ps) (q ∷ qs) h = cc

  shared_consumer :
      (c : PreviousDayPersistenceBacktestCase F) (cs : List (PreviousDayPersistenceBacktestCase F))
      (ps : List (ConsumerLoadLag24hLinearRegressionPrediction F))
      (qs : List (ConsumerLoadLag24h168hLinearRegressionPrediction F))
      → require_single_shared_consumer (c ∷ cs) ps qs ≡ ok tt
      → OneConsumer c.consumer_id (c ∷ cs) ps qs
  unfolding require_single_shared_consumer
  shared_consumer c cs ps qs h =
      let (single, h1) = >>-eq-ok _ _ h in
      let (_, h2) = >>-eq-ok _ _ h1 in
      let (_, h3) = >>-eq-ok _ _ h2 in
      let (same, h4) = >>-eq-ok _ _ h3 in
      let (same', _) = >>-eq-ok _ _ h4 in
      let ids = map (λ r. r.consumer_id) (c ∷ cs) in
      let all : All (λ x. x ≡ c.consumer_id) ids = (refl, require_single-ok _ ids single) in
      (
        all,
        require_same-All c.consumer_id _ ids (map (λ r. r.consumer_id) ps) same all,
        require_same-All c.consumer_id _ ids (map (λ r. r.consumer_id) qs) same' all,
      )

module _ {F : Type 0} ⦃float : Float F⦄ where
  -- The cohorts have equal lengths, and at each place equal timestamps and equal actual values.
  abbrev pub Aligned :
      List (PreviousDayPersistenceBacktestCase F)
      → List (ConsumerLoadLag24hLinearRegressionPrediction F)
      → List (ConsumerLoadLag24h168hLinearRegressionPrediction F)
      → Type 0
  Aligned [] [] [] = Unit
  Aligned (c ∷ cs) (p ∷ ps) (q ∷ qs) =
      (p.target_timestamp ≡ c.target_timestamp)
      × (q.target_timestamp ≡ c.target_timestamp)
      × (float.equal c.actual_value_mw p.actual_value_mw ≡ true)
      × (float.equal c.actual_value_mw q.actual_value_mw ≡ true)
      × (float.equal p.actual_value_mw q.actual_value_mw ≡ true)
      × Aligned cs ps qs
  Aligned _ _ _ = ⊥

  alignment-Aligned :
      (cs : List (PreviousDayPersistenceBacktestCase F))
      (ps : List (ConsumerLoadLag24hLinearRegressionPrediction F))
      (qs : List (ConsumerLoadLag24h168hLinearRegressionPrediction F))
      → require_three_way_alignment cs ps qs ≡ ok tt
      → Aligned cs ps qs
  unfolding require_three_way_alignment
  alignment-Aligned [] [] [] h = tt
  alignment-Aligned [] [] (q ∷ qs) h = cc
  alignment-Aligned [] (p ∷ ps) qs h = cc
  alignment-Aligned (c ∷ cs) [] qs h = cc
  alignment-Aligned (c ∷ cs) (p ∷ ps) [] h = cc
  alignment-Aligned (c ∷ cs) (p ∷ ps) (q ∷ qs) h = ground (arith, alignment-Aligned cs ps qs)

  -- What a comparison that was returned has checked and computed.
  pub record ComparedLoads (cs : List (PreviousDayPersistenceBacktestCase F))
      (ps : List (ConsumerLoadLag24hLinearRegressionPrediction F))
      (qs : List (ConsumerLoadLag24h168hLinearRegressionPrediction F))
      (r : ConsumerLoadPersistenceVsLag24hVsLag24h168hOlsMaeComparison F) : Type 0 where
    pub consumer : EntityId
    pub one_consumer : OneConsumer consumer cs ps qs
    pub aligned : Aligned cs ps qs
    pub chronological : Increasing (map (λ c. c.target_timestamp) cs)
    pub count_eq : r.case_count ≡ length cs
    pub persistence : PersistenceEvaluation.PreviousDayPersistenceMaeResult F
    pub persistence_made : PersistenceEvaluation.evaluate_mae cs ≡ ok persistence
    pub persistence_eq : r.persistence_mae_mw ≡ persistence.mae_mw
    pub one_lag : Evaluate24h.ConsumerLoadLag24hLinearRegressionMaeResult F
    pub one_lag_made : Evaluate24h.evaluate_mae ps ≡ ok one_lag
    pub one_lag_eq : r.lag_24h_mae_mw ≡ one_lag.mae_mw
    pub two_lag : Evaluate168h.ConsumerLoadLag24h168hLinearRegressionMaeResult F
    pub two_lag_made : Evaluate168h.evaluate_mae qs ≡ ok two_lag
    pub two_lag_eq : r.lag_24h_168h_mae_mw ≡ two_lag.mae_mw

  -- A three-way comparison that is returned is of three cohorts of one consumer that agree place by
  -- place in timestamp and actual value, in strictly increasing order; its errors are those of the
  -- three evaluators on these cohorts, and its count is that of the cases.
  pub compare_mae-ComparedLoads :
      (cs : List (PreviousDayPersistenceBacktestCase F))
      (ps : List (ConsumerLoadLag24hLinearRegressionPrediction F))
      (qs : List (ConsumerLoadLag24h168hLinearRegressionPrediction F))
      {r : ConsumerLoadPersistenceVsLag24hVsLag24h168hOlsMaeComparison F}
      → compare_mae cs ps qs ≡ ok r
      → ComparedLoads cs ps qs r
  unfolding compare_mae require_persistence_chronology
  compare_mae-ComparedLoads [] ps qs h = absurd (empty_cohort ps qs (>>-eq-ok _ _ h).0)
  compare_mae-ComparedLoads (c ∷ cs) ps qs h =
      let (_, h1) = >>-eq-ok _ _ h in
      let (shared, h2) = >>-eq-ok _ _ h1 in
      let (chronology, h3) = >>-eq-ok _ _ h2 in
      let (_, h4) = >>-eq-ok _ _ h3 in
      let (_, h5) = >>-eq-ok _ _ h4 in
      let (alignment, h6) = >>-eq-ok _ _ h5 in
      let (persistence, made, h7) = >>=-eq-ok _ _ h6 in
      let (one_lag, made', h8) = >>=-eq-ok _ _ h7 in
      let (two_lag, made'', h9) = >>=-eq-ok _ _ h8 in
      let result = sym (ok-injective h9) in
      record {
        consumer = c.consumer_id;
        one_consumer = shared_consumer c cs ps qs shared;
        aligned = alignment-Aligned (c ∷ cs) ps qs alignment;
        chronological = chronology-ok _ _ (map (λ x. x.target_timestamp) (c ∷ cs)) chronology;
        count_eq = ap (λ x. x.case_count) result;
        persistence = persistence;
        persistence_made = made;
        persistence_eq = ap (λ x. x.persistence_mae_mw) result;
        one_lag = one_lag;
        one_lag_made = made';
        one_lag_eq = ap (λ x. x.lag_24h_mae_mw) result;
        two_lag = two_lag;
        two_lag_made = made'';
        two_lag_eq = ap (λ x. x.lag_24h_168h_mae_mw) result;
      }
