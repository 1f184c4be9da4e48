-- ===== src/DamPrice/Features168h/Total.antt =====
-- Histories for which the builder of src/energy_trading/ml/dam_price/lag_24h_168h_features.py returns.
use armenian_energy_trading.Base.{
  ◌-◌, ◌≤◌, ◌≡◌, ◌⊎◌, inl, inr, subst, sym, some, List, [], ◌∷◌, map, true, false, map-Elem,
  Elem-All, All, Distinct, Option-cases, arith, text_comparable, refl,
}
use armenian_energy_trading.Domain.{MarketPriceRecord}
use armenian_energy_trading.Ml.Errors.{ok}
use armenian_energy_trading.Ml.Cohort.{Timestamp}
use armenian_energy_trading.Ml.Cohort.Laws.{AllSame, AllSame-require_single}
use armenian_energy_trading.Ml.Index.{Index, lag_24h, lag_168h, lookup, minus, sorted, collect}
use armenian_energy_trading.Ml.Index.Laws.{
  entries, keys-entries, lookup-entries, Distinct-unique_timestamp_index, le-minus,
}
use armenian_energy_trading.Ml.Index.Sorted.{sorted-Elem}
use armenian_energy_trading.Ml.Index.Collect.{collect-total}
use armenian_energy_trading.DamPrice.Features168h.{
  DamPriceLag24h168hFeatureRow, require_single_market, require_single_currency, timestamp_index,
  row_for_target, has_lags, build_feature_rows,
}
use armenian_energy_trading.DamPrice.Features168h.Exact.{stamp, has_lags-found}

module _ {D : Type 0} where
  -- One market, one currency, no timestamp twice, and none in the first week that a datetime can name.
  pub record IsHistory (history : List (MarketPriceRecord D)) : Type 0 where
    pub one_market : AllSame (map (λ r. r.market_id) history)
    pub one_currency : AllSame (map (λ r. r.price.currency) history)
    pub distinct : Distinct (map stamp history)
    pub late : All (λ r. lag_168h ≤ stamp r) history

  target-decided :
      (d : Index (MarketPriceRecord D)) (t : Timestamp) {a : MarketPriceRecord D}
      → lookup t d ≡ some a
      → lag_168h ≤ t
      → (has_lags d t ≡ ok false)
        ⊎ ((r : DamPriceLag24h168hFeatureRow D) × (has_lags d t ≡ ok true)
            × (row_for_target d t ≡ ok r))
  unfolding has_lags
  target-decided d t found late =
      let day : minus t lag_24h ≡ ok (t - lag_24h) = le-minus t lag_24h (omega arith) in
      let week : minus t lag_168h ≡ ok (t - lag_168h) = le-minus t lag_168h late in
      elim (Option-cases (lookup (t - lag_24h) d)) [
        | inl absent ↦ inl (ground arith)
        | inr (l, found_l) ↦ elim (Option-cases (lookup (t - lag_168h) d)) [
          | inl absent ↦ inl (ground arith)
          | inr (w, found_w) ↦
              let (wanted, made) =
                has_lags-found d t (t - lag_24h) (t - lag_168h) found found_l found_w (omega arith)
                  (omega arith) in
              inr (_, wanted, made)
        ]
      ]

  -- For a history of one market and one currency with distinct timestamps, none of them in the first
  -- week that a datetime can name, the builder returns rows.
  pub build_feature_rows-total :
      (history : List (MarketPriceRecord D))
      → IsHistory history
      → (rows : List (DamPriceLag24h168hFeatureRow D)) × (build_feature_rows history ≡ ok rows)
  unfolding build_feature_rows require_single_market require_single_currency timestamp_index
  build_feature_rows-total [] valid = ([], refl)
  build_feature_rows-total (r ∷ rs) valid =
      let history : List (MarketPriceRecord D) = r ∷ rs in
      let d : Index (MarketPriceRecord D) = entries stamp history in
      let (rows, collected) =
        collect-total (has_lags d) (row_for_target d) (sorted (map stamp history)) (λ t m.
          let (a, at_a, e) = map-Elem stamp t history (sorted-Elem t (map stamp history) m) in
          target-decided d t
            (subst (λ u. lookup u d ≡ some a) (sym e)
              (lookup-entries stamp history a valid.distinct at_a))
            (subst (λ u. lag_168h ≤ u) (sym e)
              (Elem-All (λ x. lag_168h ≤ stamp x) a history valid.late at_a))) in
      (
        rows,
        rw
            (
              AllSame-require_single _ (map (λ x. x.market_id) (r ∷ rs)) valid.one_market,
              AllSame-require_single _ (map (λ x. x.price.currency) (r ∷ rs)) valid.one_currency,
              Distinct-unique_timestamp_index _ stamp (r ∷ rs) valid.distinct,
            )
            (subst (λ ts. collect (has_lags d) (row_for_target d) (sorted ts) ≡ ok rows)
              (sym (keys-entries stamp history)) collected),
      )
