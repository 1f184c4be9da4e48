-- ===== src/Requests.antt =====
-- The checks that a forecast request makes when it is built: application/ports/consumer_load_forecast_model.py
-- and application/ports/dam_price_forecast_model.py. Arguments have the types that the source wants.
pub mod Laws
mod Tests
use Prim.Native.Char.{code}
use armenian_energy_trading.Base.{
  ℕ, suc, String, Bool, true, false, not, ◌&&◌, ◌||◌, List, [], ◌∷◌, all, leb, ltb, nat_beq,
  if◌then◌else◌, ◌==◌, text_comparable,
}
use armenian_energy_trading.Domain.{
  ConsumptionRecord, ConsumerLoadForecastModelRequest, MarketPriceRecord,
  DamPriceForecastModelRequest,
}
use armenian_energy_trading.Ml.Cohort.{Timestamp}
use armenian_energy_trading.Orchestration.Exceptions.{Outcome, returned, raised, error}
use armenian_energy_trading.Orchestration.Effects.{and_then}
use armenian_energy_trading.Orchestration.Text.{before}
use armenian_energy_trading.Orchestration.State.{require_non_empty}

-- A `datetime`: without a zone, or with one, by its instant in UTC; in some zones this instant is before
-- the least or after the greatest `datetime`.
pub data Datetime : Type 0 where
  naive : Datetime
  aware : Timestamp → Datetime
  aware_out_of_range : Datetime

unfoldable pub require_aware_utc : String → Datetime → Outcome Timestamp
require_aware_utc field_name naive = raised (error (before field_name " must be timezone-aware"))
require_aware_utc field_name (aware instant) = returned instant
require_aware_utc field_name aware_out_of_range = raised (error "date value out of range")

abbrev pub each_aware_utc : List Datetime → Outcome (List Timestamp)
each_aware_utc [] = returned []
each_aware_utc (d ∷ ds) =
    and_then (require_aware_utc "target_timestamps" d)
      λ t. and_then (each_aware_utc ds) λ ts. returned (t ∷ ts)

unfoldable pub require_target_timestamps : List Datetime → Outcome (List Timestamp)
require_target_timestamps [] =
    raised (error "target_timestamps must contain at least one timestamp")
require_target_timestamps (d ∷ ds) = each_aware_utc (d ∷ ds)

abbrev pub guard : Bool → String → Outcome (Unit {0})
guard true text = returned tt
guard false text = raised (error text)

-- The length of a text, and whether each character has a code between two bounds.
abbrev pub text_length : String → ℕ
text_length String.[] = 0
text_length (String.◌∷◌ c s) = suc (text_length s)

abbrev pub codes_within : ℕ → ℕ → String → Bool
codes_within low high String.[] = true
codes_within low high (String.◌∷◌ c s) =
    let rest = codes_within low high s in
    if leb low (code c) && leb (code c) high then rest else false

-- `len(value) == 3`, `value.isascii()`, and `isalpha` with `isupper` of an ASCII text, which hold
-- together where each of its characters, at least one, is a capital letter.
unfoldable pub is_currency_code : String → Bool
is_currency_code value =
    nat_beq (text_length value) 3 && (codes_within 0 127 value && codes_within 65 90 value)

-- The arguments of the constructors.
pub record ConsumerLoadArguments (F : Type 0) : Type 0 where
  pub forecast_run_id : String
  pub generated_at : Datetime
  pub consumer_id : String
  pub history : List (ConsumptionRecord F)
  pub target_timestamps : List Datetime

module _ {F : Type 0} where
  unfoldable pub require_history_matches_consumer :
      String → List (ConsumptionRecord F) → Outcome (Unit {0})
  require_history_matches_consumer consumer_id history =
      guard (all (λ item. item.consumer_id == consumer_id) history)
        "history consumer_id must match request consumer_id"

  unfoldable pub consumer_load_request :
      ConsumerLoadArguments F → Outcome (ConsumerLoadForecastModelRequest F)
  consumer_load_request given =
      and_then (require_non_empty "forecast_run_id" given.forecast_run_id) λ forecast_run_id.
        and_then (require_aware_utc "generated_at" given.generated_at) λ generated_at.
          and_then (require_non_empty "consumer_id" given.consumer_id) λ consumer_id.
            and_then (require_history_matches_consumer consumer_id given.history) λ _.
              and_then (require_target_timestamps given.target_timestamps) λ target_timestamps.
                returned (record {
                  forecast_run_id = forecast_run_id;
                  generated_at = generated_at;
                  consumer_id = consumer_id;
                  history = given.history;
                  target_timestamps = target_timestamps;
                })

pub record DamPriceArguments (D : Type 0) : Type 0 where
  pub forecast_run_id : String
  pub generated_at : Datetime
  pub market_id : String
  pub currency : String
  pub history : List (MarketPriceRecord D)
  pub target_timestamps : List Datetime

module _ {D : Type 0} where
  unfoldable pub require_history_matches_market :
      String → List (MarketPriceRecord D) → Outcome (Unit {0})
  require_history_matches_market market_id history =
      guard (all (λ item. item.market_id == market_id) history)
        "history market_id must match request market_id"

  unfoldable pub require_history_matches_currency :
      String → List (MarketPriceRecord D) → Outcome (Unit {0})
  require_history_matches_currency currency history =
      guard (all (λ item. item.price.currency == currency) history)
        "history currency must match request currency"

  unfoldable pub dam_price_request : DamPriceArguments D → Outcome (DamPriceForecastModelRequest D)
  dam_price_request given =
      and_then (require_non_empty "forecast_run_id" given.forecast_run_id) λ forecast_run_id.
        and_then (require_aware_utc "generated_at" given.generated_at) λ generated_at.
          and_then (require_non_empty "market_id" given.market_id) λ market_id.
            and_then
              (guard (is_currency_code given.currency)
                "currency must be a three-letter uppercase currency code")
              λ _. and_then (require_history_matches_market market_id given.history) λ _.
                and_then (require_history_matches_currency given.currency given.history) λ _.
                  and_then (require_target_timestamps given.target_timestamps) λ target_timestamps.
                    returned (record {
                      forecast_run_id = forecast_run_id;
                      generated_at = generated_at;
                      market_id = market_id;
                      currency = given.currency;
                      history = given.history;
                      target_timestamps = target_timestamps;
                    })
