-- ===== src/Domain.antt =====
-- The canonical records of src/energy_trading/domain that the forecasting code reads and makes. A value
-- is one that pydantic has validated: identifiers are non-empty texts, timestamps are UTC.
use armenian_energy_trading.Base.{String, List}
use armenian_energy_trading.Ml.Cohort.{Timestamp}

abbrev pub EntityId : Type 0
EntityId = String

abbrev pub CurrencyCode : Type 0
CurrencyCode = String

pub record EnergyPrice (D : Type 0) : Type 0 where
  pub amount_per_mwh : D
  pub currency : CurrencyCode

-- Less `volume_mwh`, an optional float that no modelled code reads.
pub record MarketPriceRecord (D : Type 0) : Type 0 where
  pub market_id : EntityId
  pub timestamp : Timestamp
  pub price : EnergyPrice D

pub record PriceForecastPoint (D : Type 0) : Type 0 where
  pub forecast_run_id : EntityId
  pub market_id : EntityId
  pub generated_at : Timestamp
  pub target_timestamp : Timestamp
  pub price : EnergyPrice D

-- What a `DAMPriceForecastModelRequest` holds once its checks have passed.
pub record DamPriceForecastModelRequest (D : Type 0) : Type 0 where
  pub forecast_run_id : EntityId
  pub generated_at : Timestamp
  pub market_id : EntityId
  pub currency : CurrencyCode
  pub history : List (MarketPriceRecord D)
  pub target_timestamps : List Timestamp

-- `F` stands for the floats; `NonNegativeMW` is a finite float that is not negative.
pub record ConsumptionRecord (F : Type 0) : Type 0 where
  pub consumer_id : EntityId
  pub timestamp : Timestamp
  pub value_mw : F

pub record LoadForecastPoint (F : Type 0) : Type 0 where
  pub forecast_run_id : EntityId
  pub consumer_id : EntityId
  pub generated_at : Timestamp
  pub target_timestamp : Timestamp
  pub value_mw : F

-- What a `ConsumerLoadForecastModelRequest` holds once its checks have passed.
pub record ConsumerLoadForecastModelRequest (F : Type 0) : Type 0 where
  pub forecast_run_id : EntityId
  pub generated_at : Timestamp
  pub consumer_id : EntityId
  pub history : List (ConsumptionRecord F)
  pub target_timestamps : List Timestamp
