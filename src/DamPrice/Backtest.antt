-- ===== src/DamPrice/Backtest.antt =====
-- src/energy_trading/ml/dam_price/previous_day_persistence_backtest.py: yesterday's price beside each observed one.
pub mod Exact
pub mod Total
use armenian_energy_trading.Base.{List, [], ◌∷◌, Bool, map, text_comparable}
use armenian_energy_trading.Domain.{EntityId, EnergyPrice, MarketPriceRecord}
use armenian_energy_trading.Ml.Errors.{
  Stage, Reason, Error, invalid_request, Result, ok, ◌>>=◌, ◌>>◌,
}
use armenian_energy_trading.Ml.Cohort.{Timestamp, require_single}
use armenian_energy_trading.Ml.Index.{
  Index, lag_24h, minus, contains_key, item, keys, unique_timestamp_index, sorted, collect,
}

abbrev pub message : Reason → Error
message = invalid_request Stage.backtest

pub record PreviousDayPersistenceBacktestCase (D : Type 0) : Type 0 where
  pub market_id : EntityId
  pub target_timestamp : Timestamp
  pub predicted_price : EnergyPrice D
  pub actual_price : EnergyPrice D

module _ {D : Type 0} where
  unfoldable pub require_single_market : List (MarketPriceRecord D) → Result (Unit {0})
  require_single_market history =
      require_single (message Reason.mixed_market) (map (λ r. r.market_id) history)

  unfoldable pub require_single_currency : List (MarketPriceRecord D) → Result (Unit {0})
  require_single_currency history =
      require_single (message Reason.mixed_currency) (map (λ r. r.price.currency) history)

  unfoldable pub timestamp_index : List (MarketPriceRecord D) → Result (Index (MarketPriceRecord D))
  timestamp_index history =
      unique_timestamp_index (message Reason.duplicate_timestamp) (λ r. r.timestamp) history

  unfoldable pub case_for_target :
      Index (MarketPriceRecord D) → Timestamp → Result (PreviousDayPersistenceBacktestCase D)
  case_for_target by_timestamp target = do
    actual ← item by_timestamp target
    reference ← minus target lag_24h
    predicted ← item by_timestamp reference
    ok (record {
      market_id = actual.market_id;
      target_timestamp = target;
      predicted_price = predicted.price;
      actual_price = actual.price;
    })

  -- The comprehension's test, `(target - _LAG) in by_timestamp`.
  unfoldable pub has_lag : Index (MarketPriceRecord D) → Timestamp → Result Bool
  has_lag by_timestamp target = do
    reference ← minus target lag_24h
    ok (contains_key reference by_timestamp)

  unfoldable pub build_backtest_cases :
      List (MarketPriceRecord D) → Result (List (PreviousDayPersistenceBacktestCase D))
  build_backtest_cases [] = ok []
  build_backtest_cases (r ∷ rs) = do
    let history = r ∷ rs
    require_single_market history
    require_single_currency history
    by_timestamp ← timestamp_index history
    collect (has_lag by_timestamp) (case_for_target by_timestamp) (sorted (keys by_timestamp))
