-- ===== src/DamPrice.antt =====
-- The DAM price experiments of src/energy_trading/ml/dam_price, a module to a source file.
pub mod Persistence
pub mod Backtest
pub mod Features24h
pub mod Features168h
pub mod Split24h
pub mod Split168h
pub mod Fit24h
pub mod Predict24h
pub mod Fit168h
pub mod Predict168h
pub mod Evaluate24h
pub mod Evaluate168h
pub mod PersistenceEvaluation
pub mod OlsForecast
pub mod PersistenceVsTrained
pub mod PersistenceVsTwoLag
pub mod ThreeWay
pub mod OneLagVsTwoLag
mod Tests
