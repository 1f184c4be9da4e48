-- ===== src/DamPrice/Features24h/Agreement.antt =====
-- The rows of ml/dam_price/lag_24h_features.py beside the cases of previous_day_persistence_backtest.py.
use armenian_energy_trading.Base.{◌≡◌, ap, sym, subst, List, [], ◌∷◌, map, text_comparable, Bool}
use armenian_energy_trading.Domain.{MarketPriceRecord}
use armenian_energy_trading.Ml.Errors.{ok, ok-injective, >>=-eq-ok}
use armenian_energy_trading.Ml.Cohort.{Timestamp}
use armenian_energy_trading.Ml.Cohort.Laws.{AllSame-require_single}
use armenian_energy_trading.Ml.Index.{Index, item, lag_24h, minus, sorted, collect}
use armenian_energy_trading.Ml.Index.Laws.{entries, keys-entries, Distinct-unique_timestamp_index}
use armenian_energy_trading.Ml.Index.Collect.{collect-map}
use armenian_energy_trading.DamPrice.Backtest as Backtest
use armenian_energy_trading.DamPrice.Backtest.{PreviousDayPersistenceBacktestCase}
use armenian_energy_trading.DamPrice.Backtest.Exact.{stamp, Built, build_backtest_cases-Built}
use armenian_energy_trading.DamPrice.Features24h.{
  DamPriceLag24hFeatureRow, require_single_market, require_single_currency, timestamp_index,
  row_for_target, has_lag, build_feature_rows,
}

module _ {D : Type 0} where
  -- The supervised row whose lag is what the case predicted and whose target is what it observed.
  abbrev pub row_of_case : PreviousDayPersistenceBacktestCase D → DamPriceLag24hFeatureRow D
  row_of_case c = record {
    market_id = c.market_id;
    currency = c.actual_price.currency;
    target_timestamp = c.target_timestamp;
    lag_24h_amount_per_mwh = c.predicted_price.amount_per_mwh;
    target_amount_per_mwh = c.actual_price.amount_per_mwh;
  }

  has_lag-agrees :
      (d : Index (MarketPriceRecord D)) (t : Timestamp) (wanted : Bool)
      → Backtest.has_lag d t ≡ ok wanted
      → has_lag d t ≡ ok wanted
  unfolding has_lag Backtest.has_lag
  has_lag-agrees d t wanted h = h

  row_for_target-agrees :
      (d : Index (MarketPriceRecord D)) (t : Timestamp) (c : PreviousDayPersistenceBacktestCase D)
      → Backtest.case_for_target d t ≡ ok c
      → row_for_target d t ≡ ok (row_of_case c)
  unfolding row_for_target Backtest.case_for_target
  row_for_target-agrees d t c h =
      let (a, found_a, h1) = >>=-eq-ok (item d t) _ h in
      let (reference, at_ref, h2) = >>=-eq-ok (minus t lag_24h) _ h1 in
      let (l, found_l, h3) = >>=-eq-ok (item d reference) _ h2 in
      rw (found_a, at_ref, found_l) (ap (λ x. ok (row_of_case x)) (ok-injective h3))

  -- When the backtest of a history returns cases, the builder of one-lag rows returns, from the same
  -- history, one row for each case, in order, with the case's market, timestamp and amounts and with
  -- the currency of its observed price.
  pub build_feature_rows-build_backtest_cases :
      (history : List (MarketPriceRecord D)) {cases : List (PreviousDayPersistenceBacktestCase D)}
      → Backtest.build_backtest_cases history ≡ ok cases
      → build_feature_rows history ≡ ok (map row_of_case cases)
  unfolding build_feature_rows require_single_market require_single_currency timestamp_index
      Backtest.build_backtest_cases
  build_feature_rows-build_backtest_cases [] h = ap (λ cs. ok (map row_of_case cs)) (ok-injective h)
  build_feature_rows-build_backtest_cases (r ∷ rs) {cases} h =
      let history : List (MarketPriceRecord D) = r ∷ rs in
      let built : Built history cases = build_backtest_cases-Built history h in
      let d : Index (MarketPriceRecord D) = entries stamp history in
      let collected : collect (has_lag d) (row_for_target d) (sorted (map stamp history))
          ≡ ok (map row_of_case cases) =
        collect-map (Backtest.has_lag d) (Backtest.case_for_target d) (has_lag d) (row_for_target d)
          row_of_case (has_lag-agrees d) (row_for_target-agrees d) (sorted (map stamp history))
          built.collected in
      rw
        (
          AllSame-require_single _ (map (λ x. x.market_id) (r ∷ rs)) built.one_market,
          AllSame-require_single _ (map (λ x. x.price.currency) (r ∷ rs)) built.one_currency,
          Distinct-unique_timestamp_index _ stamp (r ∷ rs) built.distinct,
        )
        (subst
          (λ ts. collect (has_lag d) (row_for_target d) (sorted ts) ≡ ok (map row_of_case cases))
          (sym (keys-entries stamp history)) collected)
