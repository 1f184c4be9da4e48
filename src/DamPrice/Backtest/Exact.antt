-- ===== src/DamPrice/Backtest/Exact.antt =====
-- The cases of ml/dam_price/previous_day_persistence_backtest.py are exactly those of the pairs of the
-- history.
use armenian_energy_trading.Base.{
  ◌+◌, ◌≡◌, sym, ◌∙◌, ap, subst, some, List, [], ◌∷◌, map, true, Elem, Elem-map, ◌↔◌, Distinct,
  arith, text_comparable,
}
use armenian_energy_trading.Domain.{MarketPriceRecord}
use armenian_energy_trading.Ml.Errors.{ok, ok-injective, >>=-eq-ok, >>-eq-ok}
use armenian_energy_trading.Ml.Cohort.{Timestamp}
use armenian_energy_trading.Ml.Cohort.Laws.{AllSame, Increasing, require_single-ok}
use armenian_energy_trading.Ml.Index.{Index, item, minus, lag_24h, lookup, sorted, collect}
use armenian_energy_trading.Ml.Index.Laws.{
  entries, lookup-entries, entries-lookup, unique_timestamp_index-ok, minus-ok, add-minus, item-ok,
  collect-entries,
}
use armenian_energy_trading.Ml.Index.Sorted.{Elem-sorted, Increasing-sorted}
use armenian_energy_trading.Ml.Index.Collect.{collect-Elem, Elem-collect, Increasing-collect}
use armenian_energy_trading.DamPrice.Backtest.{
  PreviousDayPersistenceBacktestCase, require_single_market, require_single_currency,
  timestamp_index, case_for_target, has_lag, build_backtest_cases,
}

module _ {D : Type 0} where
  abbrev pub stamp : MarketPriceRecord D → Timestamp
  stamp r = r.timestamp

  -- What a run of the builder that did not raise has checked and computed.
  pub record Built (history : List (MarketPriceRecord D))
      (cases : List (PreviousDayPersistenceBacktestCase D)) : Type 0 where
    pub one_market : AllSame (map (λ r. r.market_id) history)
    pub one_currency : AllSame (map (λ r. r.price.currency) history)
    pub distinct : Distinct (map stamp history)
    pub collected :
        collect
          (has_lag (entries stamp history))
          (case_for_target (entries stamp history))
          (sorted (map stamp history))
        ≡ ok cases

  pub build_backtest_cases-Built :
      (history : List (MarketPriceRecord D)) {cases : List (PreviousDayPersistenceBacktestCase D)}
      → build_backtest_cases history ≡ ok cases
      → Built history cases
  unfolding build_backtest_cases require_single_market require_single_currency timestamp_index
      sorted collect
  build_backtest_cases-Built [] h = record {
    one_market = tt;
    one_currency = tt;
    distinct = tt;
    collected = h;
  }
  build_backtest_cases-Built (r ∷ rs) h =
      let (markets, h') = >>-eq-ok _ _ h in
      let (currencies, h'') = >>-eq-ok _ _ h' in
      let (by_timestamp, indexed, rest) = >>=-eq-ok _ _ h'' in
      let (e, d) = unique_timestamp_index-ok _ stamp (r ∷ rs) indexed in
      record {
        one_market = require_single-ok _ (map (λ x. x.market_id) (r ∷ rs)) markets;
        one_currency = require_single-ok _ (map (λ x. x.price.currency) (r ∷ rs)) currencies;
        distinct = d;
        collected = collect-entries stamp has_lag case_for_target (r ∷ rs) e rest;
      }

  -- The case of a target observation and of the one that it lags.
  abbrev pub case_of :
      MarketPriceRecord D → MarketPriceRecord D → PreviousDayPersistenceBacktestCase D
  case_of target lag_record = record {
    market_id = target.market_id;
    target_timestamp = target.timestamp;
    predicted_price = lag_record.price;
    actual_price = target.price;
  }

  -- A pair of observations of the history, at T and T - 24h, and its case.
  pub record PairOf (history : List (MarketPriceRecord D))
      (row : PreviousDayPersistenceBacktestCase D) : Type 0 where
    pub target : MarketPriceRecord D
    pub lag_record : MarketPriceRecord D
    pub target_in : Elem target history
    pub lag_in : Elem lag_record history
    pub lag_at : lag_record.timestamp + lag_24h ≡ target.timestamp
    pub row_eq : row ≡ case_of target lag_record

  case_for_target-PairOf :
      (history : List (MarketPriceRecord D)) (t : Timestamp)
      (row : PreviousDayPersistenceBacktestCase D)
      → case_for_target (entries stamp history) t ≡ ok row
      → PairOf history row
  unfolding case_for_target
  case_for_target-PairOf history t row h =
      let d : Index (MarketPriceRecord D) = entries stamp history in
      let (a, found_a, h1) = >>=-eq-ok (item d t) _ h in
      let (reference, at_ref, h2) = >>=-eq-ok (minus t lag_24h) _ h1 in
      let (l, found_l, h3) = >>=-eq-ok (item d reference) _ h2 in
      let (a_in, a_at) = entries-lookup stamp history t a (item-ok d t found_a) in
      let (l_in, l_at) = entries-lookup stamp history reference l (item-ok d reference found_l) in
      record {
        target = a;
        lag_record = l;
        target_in = a_in;
        lag_in = l_in;
        lag_at = omega (arith, minus-ok t lag_24h at_ref);
        row_eq =
            ok-injective (sym h3) ∙ ap (λ u. record (case_of a l) { target_timestamp = u }) a_at;
      }

  -- The test and the case of a target whose lag is found.
  pub has_lag-found :
      (d : Index (MarketPriceRecord D)) (t reference : Timestamp) {a l : MarketPriceRecord D}
      → lookup t d ≡ some a
      → lookup reference d ≡ some l
      → reference + lag_24h ≡ t
      → (has_lag d t ≡ ok true)
        × (case_for_target d t ≡ ok (record (case_of a l) { target_timestamp = t }))
  unfolding has_lag case_for_target
  has_lag-found d t reference found_a found_l at_ref =
      let e : minus t lag_24h ≡ ok reference = rw (← at_ref) (add-minus reference lag_24h) in
      (ground arith, ground arith)

  case_for_target-stamp :
      (d : Index (MarketPriceRecord D)) (t : Timestamp) (row : PreviousDayPersistenceBacktestCase D)
      → case_for_target d t ≡ ok row
      → row.target_timestamp ≡ t
  unfolding case_for_target
  case_for_target-stamp d t row h = ground arith

  -- When the backtest does not raise, a case is among its cases exactly when the history has
  -- observations at some T and at T - 24h from which the case takes its market, its timestamp, the
  -- observed price and the predicted price.
  pub build_backtest_cases-exact :
      (history : List (MarketPriceRecord D)) {cases : List (PreviousDayPersistenceBacktestCase D)}
      → build_backtest_cases history ≡ ok cases
      → (row : PreviousDayPersistenceBacktestCase D) → Elem row cases ↔ PairOf history row
  build_backtest_cases-exact history {cases} h row = (sound, complete)
    where
      built : Built history cases
      built = build_backtest_cases-Built history h

      d : Index (MarketPriceRecord D)
      d = entries stamp history

      sound : Elem row cases → PairOf history row
      sound m =
          let (t, _, _, made) =
            collect-Elem (has_lag d) (case_for_target d) (sorted (map stamp history)) row
              built.collected m in
          case_for_target-PairOf history t row made

      complete : PairOf history row → Elem row cases
      complete pair =
          let (wanted, made) =
            has_lag-found d pair.target.timestamp pair.lag_record.timestamp
              (lookup-entries stamp history pair.target built.distinct pair.target_in)
              (lookup-entries stamp history pair.lag_record built.distinct pair.lag_in)
              pair.lag_at in
          let (r, made', at_r) =
            Elem-collect (has_lag d) (case_for_target d) (sorted (map stamp history))
              pair.target.timestamp built.collected
              (Elem-sorted pair.target.timestamp (map stamp history)
                (Elem-map stamp pair.target history pair.target_in))
              wanted in
          let same : r ≡ row = ok-injective (sym made' ∙ made) ∙ sym pair.row_eq in
          subst (λ x. Elem x cases) same at_r

  -- The cases come out in strictly increasing order of their timestamps.
  pub build_backtest_cases-Increasing :
      (history : List (MarketPriceRecord D)) {cases : List (PreviousDayPersistenceBacktestCase D)}
      → build_backtest_cases history ≡ ok cases
      → Increasing (map (λ r. r.target_timestamp) cases)
  build_backtest_cases-Increasing history h =
      let built = build_backtest_cases-Built history h in
      let d : Index (MarketPriceRecord D) = entries stamp history in
      Increasing-collect (has_lag d) (case_for_target d) (λ r. r.target_timestamp)
        (case_for_target-stamp d) (sorted (map stamp history)) built.collected
        (Increasing-sorted (map stamp history) built.distinct)
