-- ===== src/DamPrice/Persistence/Agreement.antt =====
-- The live baseline of ml/dam_price/previous_day_persistence.py: when it forecasts, and its agreement
-- with ml/dam_price/previous_day_persistence_backtest.py.
use armenian_energy_trading.Base.{
  ◌+◌, ◌≡◌, refl, sym, ap, ◌∙◌, List, map, subst, All, true, Elem, Distinct, nat_beq, nat_beq_iff,
  keep, [], ◌∷◌,
}
use armenian_energy_trading.Domain.{
  MarketPriceRecord, PriceForecastPoint, DamPriceForecastModelRequest,
}
use armenian_energy_trading.Ml.Errors.{Error, ok, >>=-eq-ok, ok-injective, Each, traverse-Each}
use armenian_energy_trading.Ml.Cohort.{Timestamp, sole}
use armenian_energy_trading.Ml.Cohort.Partition.{keep-All}
use armenian_energy_trading.Ml.Index.{lag_24h, minus}
use armenian_energy_trading.Ml.Index.Laws.{add-minus, minus-ok}
use armenian_energy_trading.Ml.Index.Unique.{keep-sole}
use armenian_energy_trading.DamPrice.Backtest.{
  PreviousDayPersistenceBacktestCase, build_backtest_cases,
}
use armenian_energy_trading.DamPrice.Backtest.Exact.{
  stamp, build_backtest_cases-Built, build_backtest_cases-exact,
}
use armenian_energy_trading.DamPrice.Persistence.{
  unique_lag_observation, point_for_target, forecast,
}

sole-ok :
    {A : Type 0} (missing duplicate : Error) (xs : List A) {a : A}
    → sole missing duplicate xs ≡ ok a
    → xs ≡ a ∷ []
unfolding sole
sole-ok m d [] h = cc
sole-ok m d (x ∷ []) h = cc
sole-ok m d (x ∷ y ∷ xs) h = cc

module _ {D : Type 0} where
  abbrev pub matches : Timestamp → List (MarketPriceRecord D) → List (MarketPriceRecord D)
  matches t history = keep (λ r. nat_beq r.timestamp t) history

  -- A point that copies the price of the one observation 24 hours before the target.
  pub record Copies (request : DamPriceForecastModelRequest D) (target : Timestamp)
      (point : PriceForecastPoint D) : Type 0 where
    pub source : MarketPriceRecord D
    pub source_at : source.timestamp + lag_24h ≡ target
    pub source_only : matches source.timestamp request.history ≡ source ∷ []
    pub point_eq : point ≡ record {
      forecast_run_id = request.forecast_run_id;
      market_id = request.market_id;
      generated_at = request.generated_at;
      target_timestamp = target;
      price = source.price;
    }

  point_for_target-Copies :
      (request : DamPriceForecastModelRequest D) (target : Timestamp) (point : PriceForecastPoint D)
      → point_for_target request target ≡ ok point
      → Copies request target point
  unfolding point_for_target unique_lag_observation
  point_for_target-Copies request target point h =
      let (reference, at_ref, h1) = >>=-eq-ok (minus target lag_24h) _ h in
      let (source, found, h2) = >>=-eq-ok (unique_lag_observation request.history reference) _ h1 in
      let only = sole-ok _ _ (matches reference request.history) found in
      let at_source =
        (nat_beq_iff source.timestamp reference).0
          (subst (All (λ r. nat_beq r.timestamp reference ≡ true)) only
            (keep-All (λ r. nat_beq r.timestamp reference) request.history)).0 in
      record {
        source = source;
        source_at = ap (λ t. t + lag_24h) at_source ∙ minus-ok target lag_24h at_ref;
        source_only = subst (λ t. matches t request.history ≡ source ∷ []) (sym at_source) only;
        point_eq = ok-injective (sym h2);
      }

  -- The live baseline on a pair of observations of its history.
  point_for_target-found :
      (request : DamPriceForecastModelRequest D) (l : MarketPriceRecord D) {target : Timestamp}
      → Distinct (map stamp request.history)
      → Elem l request.history
      → l.timestamp + lag_24h ≡ target
      → point_for_target request target
        ≡ ok (record {
          forecast_run_id = request.forecast_run_id;
          market_id = request.market_id;
          generated_at = request.generated_at;
          target_timestamp = target;
          price = l.price;
        })
  unfolding point_for_target unique_lag_observation
  point_for_target-found request l d l_in at24 =
      rw (rw at24 at (add-minus l.timestamp lag_24h), keep-sole stamp request.history l d l_in) refl

  Each-Copies :
      (request : DamPriceForecastModelRequest D) (targets : List Timestamp)
      (points : List (PriceForecastPoint D))
      → Each (λ t point. point_for_target request t ≡ ok point) targets points
      → Each (Copies request) targets points
  Each-Copies request [] [] h = tt
  Each-Copies request [] (p ∷ ps) h = absurd h
  Each-Copies request (t ∷ ts) [] h = absurd h
  Each-Copies request (t ∷ ts) (p ∷ ps) h =
      (point_for_target-Copies request t p h.0, Each-Copies request ts ps h.1)

  -- A forecast that is returned has one point for each target, in the order of the targets, and each
  -- point copies the price of the only observation of the history 24 hours before its target.
  pub forecast-Copies :
      (request : DamPriceForecastModelRequest D) (points : List (PriceForecastPoint D))
      → forecast request ≡ ok points
      → Each (Copies request) request.target_timestamps points
  unfolding forecast
  forecast-Copies request points h =
      Each-Copies request request.target_timestamps points
        (traverse-Each (point_for_target request) request.target_timestamps points h)

  -- The price that the backtest has predicted for a case is the price that the live baseline forecasts
  -- for the case's timestamp from the same history.
  pub point_for_target-backtest :
      (request : DamPriceForecastModelRequest D)
      {cases : List (PreviousDayPersistenceBacktestCase D)}
      (c : PreviousDayPersistenceBacktestCase D)
      → build_backtest_cases request.history ≡ ok cases
      → Elem c cases
      → point_for_target request c.target_timestamp
        ≡ ok (record {
          forecast_run_id = request.forecast_run_id;
          market_id = request.market_id;
          generated_at = request.generated_at;
          target_timestamp = c.target_timestamp;
          price = c.predicted_price;
        })
  point_for_target-backtest request c h m =
      let built = build_backtest_cases-Built request.history h in
      let pair = (build_backtest_cases-exact request.history h c).0 m in
      rw pair.row_eq
        (point_for_target-found request pair.lag_record built.distinct pair.lag_in pair.lag_at)
