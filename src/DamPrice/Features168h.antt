-- ===== src/DamPrice/Features168h.antt =====
-- src/energy_trading/ml/dam_price/lag_24h_168h_features.py: one supervised row for each exact triple of observations.
pub mod Exact
pub mod Total
use armenian_energy_trading.Base.{List, [], ◌∷◌, Bool, false, map, if◌then◌else◌, text_comparable}
use armenian_energy_trading.Domain.{EntityId, CurrencyCode, MarketPriceRecord}
use armenian_energy_trading.Ml.Errors.{
  Stage, Reason, Error, invalid_request, Result, ok, ◌>>=◌, ◌>>◌,
}
use armenian_energy_trading.Ml.Cohort.{Timestamp, require_single}
use armenian_energy_trading.Ml.Index.{
  Index, lag_24h, lag_168h, minus, contains_key, item, keys, unique_timestamp_index, sorted,
  collect,
}

abbrev pub message : Reason → Error
message = invalid_request Stage.features_168h

pub record DamPriceLag24h168hFeatureRow (D : Type 0) : Type 0 where
  pub market_id : EntityId
  pub currency : CurrencyCode
  pub target_timestamp : Timestamp
  pub lag_24h_amount_per_mwh : D
  pub lag_168h_amount_per_mwh : D
  pub target_amount_per_mwh : D

module _ {D : Type 0} where
  unfoldable pub require_single_market : List (MarketPriceRecord D) → Result (Unit {0})
  require_single_market history =
      require_single (message Reason.mixed_market) (map (λ r. r.market_id) history)

  unfoldable pub require_single_currency : List (MarketPriceRecord D) → Result (Unit {0})
  require_single_currency history =
      require_single (message Reason.mixed_currency) (map (λ r. r.price.currency) history)

  unfoldable pub timestamp_index : List (MarketPriceRecord D) → Result (Index (MarketPriceRecord D))
  timestamp_index history =
      unique_timestamp_index (message Reason.duplicate_timestamp) (λ r. r.timestamp) history

  unfoldable pub row_for_target :
      Index (MarketPriceRecord D) → Timestamp → Result (DamPriceLag24h168hFeatureRow D)
  row_for_target by_timestamp target = do
    target_record ← item by_timestamp target
    reference_24h ← minus target lag_24h
    lag_24h_record ← item by_timestamp reference_24h
    reference_168h ← minus target lag_168h
    lag_168h_record ← item by_timestamp reference_168h
    ok (record {
      market_id = target_record.market_id;
      currency = target_record.price.currency;
      target_timestamp = target;
      lag_24h_amount_per_mwh = lag_24h_record.price.amount_per_mwh;
      lag_168h_amount_per_mwh = lag_168h_record.price.amount_per_mwh;
      target_amount_per_mwh = target_record.price.amount_per_mwh;
    })

  -- The comprehension's test: the second lag is computed only where the first is present.
  unfoldable pub has_lags : Index (MarketPriceRecord D) → Timestamp → Result Bool
  has_lags by_timestamp target = do
    reference_24h ← minus target lag_24h
    if contains_key reference_24h by_timestamp
        then minus target lag_168h
          >>= (λ reference_168h. ok (contains_key reference_168h by_timestamp))
        else ok false

  unfoldable pub build_feature_rows :
      List (MarketPriceRecord D) → Result (List (DamPriceLag24h168hFeatureRow D))
  build_feature_rows [] = ok []
  build_feature_rows (r ∷ rs) = do
    let history = r ∷ rs
    require_single_market history
    require_single_currency history
    by_timestamp ← timestamp_index history
    collect (has_lags by_timestamp) (row_for_target by_timestamp) (sorted (keys by_timestamp))
