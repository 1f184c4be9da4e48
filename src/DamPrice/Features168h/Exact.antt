-- ===== src/DamPrice/Features168h/Exact.antt =====
-- The rows of ml/dam_price/lag_24h_168h_features.py are exactly those of the complete triples of the
-- history.
use armenian_energy_trading.Base.{
  ◌+◌, ◌≡◌, sym, ◌∙◌, ap, subst, some, List, [], ◌∷◌, map, keep, Bool, true, Elem, Elem-map, ◌↔◌,
  Distinct, arith, text_comparable,
}
use armenian_energy_trading.Domain.{MarketPriceRecord}
use armenian_energy_trading.Ml.Errors.{ok, ok-injective, >>=-eq-ok, >>-eq-ok}
use armenian_energy_trading.Ml.Cohort.{Timestamp}
use armenian_energy_trading.Ml.Cohort.Laws.{
  AllSame, Increasing, require_single-ok, AllSame-pairwise, pairwise-AllSame,
}
use armenian_energy_trading.Ml.Cohort.Partition.{Increasing-keep, AllSame-keep}
use armenian_energy_trading.Ml.Index.{
  Index, item, minus, lag_24h, lag_168h, lookup, sorted, collect,
}
use armenian_energy_trading.Ml.Index.Laws.{
  entries, lookup-entries, entries-lookup, unique_timestamp_index-ok, minus-ok, add-minus, item-ok,
  collect-entries,
}
use armenian_energy_trading.Ml.Index.Sorted.{Elem-sorted, Increasing-sorted}
use armenian_energy_trading.Ml.Index.Collect.{collect-Elem, Elem-collect, Increasing-collect}
use armenian_energy_trading.DamPrice.Features168h.{
  DamPriceLag24h168hFeatureRow, require_single_market, require_single_currency, timestamp_index,
  row_for_target, has_lags, build_feature_rows,
}

module _ {D : Type 0} where
  abbrev pub stamp : MarketPriceRecord D → Timestamp
  stamp r = r.timestamp

  -- What a run of the builder that did not raise has checked and computed.
  pub record Built (history : List (MarketPriceRecord D))
      (rows : List (DamPriceLag24h168hFeatureRow D)) : Type 0 where
    pub one_market : AllSame (map (λ r. r.market_id) history)
    pub one_currency : AllSame (map (λ r. r.price.currency) history)
    pub distinct : Distinct (map stamp history)
    pub collected :
        collect
          (has_lags (entries stamp history))
          (row_for_target (entries stamp history))
          (sorted (map stamp history))
        ≡ ok rows

  pub build_feature_rows-Built :
      (history : List (MarketPriceRecord D)) {rows : List (DamPriceLag24h168hFeatureRow D)}
      → build_feature_rows history ≡ ok rows
      → Built history rows
  unfolding build_feature_rows require_single_market require_single_currency timestamp_index sorted
      collect
  build_feature_rows-Built [] h = record {
    one_market = tt;
    one_currency = tt;
    distinct = tt;
    collected = h;
  }
  build_feature_rows-Built (r ∷ rs) h =
      let (markets, h') = >>-eq-ok _ _ h in
      let (currencies, h'') = >>-eq-ok _ _ h' in
      let (by_timestamp, indexed, rest) = >>=-eq-ok _ _ h'' in
      let (e, d) = unique_timestamp_index-ok _ stamp (r ∷ rs) indexed in
      record {
        one_market = require_single-ok _ (map (λ x. x.market_id) (r ∷ rs)) markets;
        one_currency = require_single-ok _ (map (λ x. x.price.currency) (r ∷ rs)) currencies;
        distinct = d;
        collected = collect-entries stamp has_lags row_for_target (r ∷ rs) e rest;
      }

  -- The row of a target observation and of the two that it lags.
  abbrev pub row_of :
      MarketPriceRecord D
      → MarketPriceRecord D
      → MarketPriceRecord D
      → DamPriceLag24h168hFeatureRow D
  row_of target lag_24h_record lag_168h_record = record {
    market_id = target.market_id;
    currency = target.price.currency;
    target_timestamp = target.timestamp;
    lag_24h_amount_per_mwh = lag_24h_record.price.amount_per_mwh;
    lag_168h_amount_per_mwh = lag_168h_record.price.amount_per_mwh;
    target_amount_per_mwh = target.price.amount_per_mwh;
  }

  -- A triple of observations of the history, at T, T - 24h and T - 168h, and its row.
  pub record TripleOf (history : List (MarketPriceRecord D)) (row : DamPriceLag24h168hFeatureRow D)
      : Type 0 where
    pub target : MarketPriceRecord D
    pub lag_24h_record : MarketPriceRecord D
    pub lag_168h_record : MarketPriceRecord D
    pub target_in : Elem target history
    pub lag_24h_in : Elem lag_24h_record history
    pub lag_168h_in : Elem lag_168h_record history
    pub lag_24h_at : lag_24h_record.timestamp + lag_24h ≡ target.timestamp
    pub lag_168h_at : lag_168h_record.timestamp + lag_168h ≡ target.timestamp
    pub row_eq : row ≡ row_of target lag_24h_record lag_168h_record

  row_for_target-TripleOf :
      (history : List (MarketPriceRecord D)) (t : Timestamp) (row : DamPriceLag24h168hFeatureRow D)
      → row_for_target (entries stamp history) t ≡ ok row
      → TripleOf history row
  unfolding row_for_target
  row_for_target-TripleOf history t row h =
      let d : Index (MarketPriceRecord D) = entries stamp history in
      let (a, found_a, h1) = >>=-eq-ok (item d t) _ h in
      let (r24, at24, h2) = >>=-eq-ok (minus t lag_24h) _ h1 in
      let (l, found_l, h3) = >>=-eq-ok (item d r24) _ h2 in
      let (r168, at168, h4) = >>=-eq-ok (minus t lag_168h) _ h3 in
      let (w, found_w, h5) = >>=-eq-ok (item d r168) _ h4 in
      let (a_in, a_at) = entries-lookup stamp history t a (item-ok d t found_a) in
      let (l_in, l_at) = entries-lookup stamp history r24 l (item-ok d r24 found_l) in
      let (w_in, w_at) = entries-lookup stamp history r168 w (item-ok d r168 found_w) in
      record {
        target = a;
        lag_24h_record = l;
        lag_168h_record = w;
        target_in = a_in;
        lag_24h_in = l_in;
        lag_168h_in = w_in;
        lag_24h_at = omega (arith, minus-ok t lag_24h at24);
        lag_168h_at = omega (arith, minus-ok t lag_168h at168);
        row_eq =
            ok-injective (sym h5) ∙ ap (λ u. record (row_of a l w) { target_timestamp = u }) a_at;
      }

  -- The test and the row of a target whose lags are found.
  pub has_lags-found :
      (d : Index (MarketPriceRecord D)) (t r24 r168 : Timestamp) {a l w : MarketPriceRecord D}
      → lookup t d ≡ some a
      → lookup r24 d ≡ some l
      → lookup r168 d ≡ some w
      → r24 + lag_24h ≡ t
      → r168 + lag_168h ≡ t
      → (has_lags d t ≡ ok true)
        × (row_for_target d t ≡ ok (record (row_of a l w) { target_timestamp = t }))
  unfolding has_lags row_for_target
  has_lags-found d t r24 r168 found_a found_l found_w at24 at168 =
      let e24 : minus t lag_24h ≡ ok r24 = rw (← at24) (add-minus r24 lag_24h) in
      let e168 : minus t lag_168h ≡ ok r168 = rw (← at168) (add-minus r168 lag_168h) in
      (ground arith, ground arith)

  row_for_target-stamp :
      (d : Index (MarketPriceRecord D)) (t : Timestamp) (row : DamPriceLag24h168hFeatureRow D)
      → row_for_target d t ≡ ok row
      → row.target_timestamp ≡ t
  unfolding row_for_target
  row_for_target-stamp d t row h = ground arith

  -- When the builder of 24-hour and 168-hour lag rows does not raise, a row is among its rows exactly
  -- when the history has observations at some T, at T - 24h and at T - 168h from which the row takes
  -- its market, currency, timestamp and three amounts.
  pub build_feature_rows-exact :
      (history : List (MarketPriceRecord D)) {rows : List (DamPriceLag24h168hFeatureRow D)}
      → build_feature_rows history ≡ ok rows
      → (row : DamPriceLag24h168hFeatureRow D) → Elem row rows ↔ TripleOf history row
  build_feature_rows-exact history {rows} h row = (sound, complete)
    where
      built : Built history rows
      built = build_feature_rows-Built history h

      d : Index (MarketPriceRecord D)
      d = entries stamp history

      sound : Elem row rows → TripleOf history row
      sound m =
          let (t, _, _, made) =
            collect-Elem (has_lags d) (row_for_target d) (sorted (map stamp history)) row
              built.collected m in
          row_for_target-TripleOf history t row made

      complete : TripleOf history row → Elem row rows
      complete triple =
          let (wanted, made) =
            has_lags-found d triple.target.timestamp triple.lag_24h_record.timestamp
              triple.lag_168h_record.timestamp
              (lookup-entries stamp history triple.target built.distinct triple.target_in)
              (lookup-entries stamp history triple.lag_24h_record built.distinct triple.lag_24h_in)
              (lookup-entries stamp history triple.lag_168h_record built.distinct
                triple.lag_168h_in)
              triple.lag_24h_at triple.lag_168h_at in
          let (r, made', at_r) =
            Elem-collect (has_lags d) (row_for_target d) (sorted (map stamp history))
              triple.target.timestamp built.collected
              (Elem-sorted triple.target.timestamp (map stamp history)
                (Elem-map stamp triple.target history triple.target_in))
              wanted in
          let same : r ≡ row = ok-injective (sym made' ∙ made) ∙ sym triple.row_eq in
          subst (λ x. Elem x rows) same at_r

  -- The rows come out in strictly increasing order of their timestamps.
  pub build_feature_rows-Increasing :
      (history : List (MarketPriceRecord D)) {rows : List (DamPriceLag24h168hFeatureRow D)}
      → build_feature_rows history ≡ ok rows
      → Increasing (map (λ r. r.target_timestamp) rows)
  build_feature_rows-Increasing history h =
      let built = build_feature_rows-Built history h in
      let d : Index (MarketPriceRecord D) = entries stamp history in
      Increasing-collect (has_lags d) (row_for_target d) (λ r. r.target_timestamp)
        (row_for_target-stamp d) (sorted (map stamp history)) built.collected
        (Increasing-sorted (map stamp history) built.distinct)

  -- The rows are of one market and one currency.
  pub build_feature_rows-AllSame :
      (history : List (MarketPriceRecord D)) {rows : List (DamPriceLag24h168hFeatureRow D)}
      → build_feature_rows history ≡ ok rows
      → AllSame (map (λ r. r.market_id) rows) × AllSame (map (λ r. r.currency) rows)
  build_feature_rows-AllSame history {rows} h = (
    pairwise-AllSame (λ r. r.market_id) rows
        (λ a b at_a at_b.
          let x = triple a at_a in
          let y = triple b at_b in
          ap (λ r. r.market_id) x.row_eq
          ∙ AllSame-pairwise (λ r. r.market_id) history x.target y.target built.one_market
              x.target_in y.target_in
          ∙ sym (ap (λ r. r.market_id) y.row_eq)),
    pairwise-AllSame (λ r. r.currency) rows
        (λ a b at_a at_b.
          let x = triple a at_a in
          let y = triple b at_b in
          ap (λ r. r.currency) x.row_eq
          ∙ AllSame-pairwise (λ r. r.price.currency) history x.target y.target built.one_currency
              x.target_in y.target_in
          ∙ sym (ap (λ r. r.currency) y.row_eq)),
  )
    where
      built : Built history rows
      built = build_feature_rows-Built history h

      triple : (row : DamPriceLag24h168hFeatureRow D) → Elem row rows → TripleOf history row
      triple row m = (build_feature_rows-exact history h row).0 m

  -- Rows of one market and one currency in strictly increasing order.
  pub record IsCohort (rows : List (DamPriceLag24h168hFeatureRow D)) : Type 0 where
    pub one_market : AllSame (map (λ r. r.market_id) rows)
    pub one_currency : AllSame (map (λ r. r.currency) rows)
    pub chronological : Increasing (map (λ r. r.target_timestamp) rows)

  pub build_feature_rows-IsCohort :
      (history : List (MarketPriceRecord D)) {rows : List (DamPriceLag24h168hFeatureRow D)}
      → build_feature_rows history ≡ ok rows
      → IsCohort rows
  build_feature_rows-IsCohort history h =
      let (markets, currencies) = build_feature_rows-AllSame history h in
      record {
        one_market = markets;
        one_currency = currencies;
        chronological = build_feature_rows-Increasing history h;
      }

  pub IsCohort-keep :
      (p : DamPriceLag24h168hFeatureRow D → Bool) (rows : List (DamPriceLag24h168hFeatureRow D))
      → IsCohort rows
      → IsCohort (keep p rows)
  IsCohort-keep p rows c = record {
    one_market = AllSame-keep (λ r. r.market_id) p rows c.one_market;
    one_currency = AllSame-keep (λ r. r.currency) p rows c.one_currency;
    chronological = Increasing-keep (λ r. r.target_timestamp) p rows c.chronological;
  }
