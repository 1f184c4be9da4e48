-- ===== src/Ml.antt =====
-- The offline and live forecasting code under src/energy_trading/ml.
pub mod Errors
pub mod Cohort
pub mod Index
pub mod Arithmetic
