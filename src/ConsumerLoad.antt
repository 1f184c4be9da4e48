-- ===== src/ConsumerLoad.antt =====
-- The consumer-load experiments of src/energy_trading/ml/consumer_load, a module to a source file.
pub mod Persistence
pub mod Backtest
pub mod PersistenceEvaluation
pub mod Features24h
pub mod Features168h
pub mod Split24h
pub mod Split168h
pub mod Fit24h
pub mod Fit168h
pub mod Predict24h
pub mod Evaluate24h
pub mod Predict168h
pub mod Evaluate168h
pub mod OlsForecast
pub mod PersistenceVsTrained
pub mod PersistenceVsTwoLag
pub mod ThreeWay
pub mod OneLagVsTwoLag
mod Tests
