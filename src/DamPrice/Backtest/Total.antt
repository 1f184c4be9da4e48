-- ===== src/DamPrice/Backtest/Total.antt =====
-- Histories for which src/energy_trading/ml/dam_price/previous_day_persistence_backtest.py returns.
use armenian_energy_trading.Base.{
  ◌-◌, ◌≤◌, ◌≡◌, ◌⊎◌, inl, inr, subst, sym, some, List, [], ◌∷◌, map, true, false, map-Elem,
  Elem-All, All, Distinct, Option-cases, arith, text_comparable, refl,
}
use armenian_energy_trading.Domain.{MarketPriceRecord}
use armenian_energy_trading.Ml.Errors.{ok}
use armenian_energy_trading.Ml.Cohort.{Timestamp}
use armenian_energy_trading.Ml.Cohort.Laws.{AllSame, AllSame-require_single}
use armenian_energy_trading.Ml.Index.{Index, lag_24h, lookup, minus, sorted, collect}
use armenian_energy_trading.Ml.Index.Laws.{
  entries, keys-entries, lookup-entries, Distinct-unique_timestamp_index, le-minus,
}
use armenian_energy_trading.Ml.Index.Sorted.{sorted-Elem}
use armenian_energy_trading.Ml.Index.Collect.{collect-total}
use armenian_energy_trading.DamPrice.Backtest.{
  PreviousDayPersistenceBacktestCase, require_single_market, require_single_currency,
  timestamp_index, case_for_target, has_lag, build_backtest_cases,
}
use armenian_energy_trading.DamPrice.Backtest.Exact.{stamp, has_lag-found}

module _ {D : Type 0} where
  -- One market, one currency, no timestamp twice, and none in the first day that a datetime can name.
  pub record IsBacktestHistory (history : List (MarketPriceRecord D)) : Type 0 where
    pub one_market : AllSame (map (λ r. r.market_id) history)
    pub one_currency : AllSame (map (λ r. r.price.currency) history)
    pub distinct : Distinct (map stamp history)
    pub late : All (λ r. lag_24h ≤ stamp r) history

  target-decided :
      (d : Index (MarketPriceRecord D)) (t : Timestamp) {a : MarketPriceRecord D}
      → lookup t d ≡ some a
      → lag_24h ≤ t
      → (has_lag d t ≡ ok false)
        ⊎ ((r : PreviousDayPersistenceBacktestCase D) × (has_lag d t ≡ ok true)
            × (case_for_target d t ≡ ok r))
  unfolding has_lag
  target-decided d t found late =
      let day : minus t lag_24h ≡ ok (t - lag_24h) = le-minus t lag_24h late in
      elim (Option-cases (lookup (t - lag_24h) d)) [
        | inl absent ↦ inl (ground arith)
        | inr (l, found_l) ↦
            let (wanted, made) = has_lag-found d t (t - lag_24h) found found_l (omega arith) in
            inr (_, wanted, made)
      ]

  -- For a history of one market and one currency with distinct timestamps, none of them in the first
  -- day that a datetime can name, the backtest returns cases.
  pub build_backtest_cases-total :
      (history : List (MarketPriceRecord D))
      → IsBacktestHistory history
      → (cases : List (PreviousDayPersistenceBacktestCase D)) × (build_backtest_cases history
          ≡ ok cases)
  unfolding build_backtest_cases require_single_market require_single_currency timestamp_index
  build_backtest_cases-total [] valid = ([], refl)
  build_backtest_cases-total (r ∷ rs) valid =
      let history : List (MarketPriceRecord D) = r ∷ rs in
      let d : Index (MarketPriceRecord D) = entries stamp history in
      let (cases, collected) =
        collect-total (has_lag d) (case_for_target d) (sorted (map stamp history)) (λ t m.
          let (a, at_a, e) = map-Elem stamp t history (sorted-Elem t (map stamp history) m) in
          target-decided d t
            (subst (λ u. lookup u d ≡ some a) (sym e)
              (lookup-entries stamp history a valid.distinct at_a))
            (subst (λ u. lag_24h ≤ u) (sym e)
              (Elem-All (λ x. lag_24h ≤ stamp x) a history valid.late at_a))) in
      (
        cases,
        rw
            (
              AllSame-require_single _ (map (λ x. x.market_id) (r ∷ rs)) valid.one_market,
              AllSame-require_single _ (map (λ x. x.price.currency) (r ∷ rs)) valid.one_currency,
              Distinct-unique_timestamp_index _ stamp (r ∷ rs) valid.distinct,
            )
            (subst (λ ts. collect (has_lag d) (case_for_target d) (sorted ts) ≡ ok cases)
              (sym (keys-entries stamp history)) collected),
      )
