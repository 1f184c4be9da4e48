-- ===== src/Requests/Tests.antt =====
-- The theorem on price requests at a small history.
use armenian_energy_trading.Base.{◌≡◌, refl, ℕ, [], ◌∷◌}
use armenian_energy_trading.Domain.{DamPriceForecastModelRequest}
use armenian_energy_trading.Orchestration.Exceptions.{returned}
use armenian_energy_trading.Orchestration.State.{require_non_empty}
use armenian_energy_trading.Orchestration.Text.{strip, lstrip, rstrip, is_space}
use armenian_energy_trading.Requests.{
  aware, DamPriceArguments, dam_price_request, require_aware_utc, require_target_timestamps,
  is_currency_code, require_history_matches_market, require_history_matches_currency,
}
use armenian_energy_trading.Requests.Laws.{IsPriceRequest, dam_price_request-IsPriceRequest}

abbrev given : DamPriceArguments ℕ
given = record {
  forecast_run_id = " run ";
  generated_at = aware 5;
  market_id = "AM";
  currency = "AMD";
  history =
      record {
        market_id = "AM";
        timestamp = 3;
        price = record { amount_per_mwh = 70; currency = "AMD" };
      }
      ∷ [];
  target_timestamps = aware 9 ∷ [];
}

abbrev request : DamPriceForecastModelRequest ℕ
request = record {
  forecast_run_id = "run";
  generated_at = 5;
  market_id = "AM";
  currency = "AMD";
  history = given.history;
  target_timestamps = 9 ∷ [];
}

was_built : dam_price_request given ≡ returned request
unfolding dam_price_request require_non_empty require_aware_utc require_target_timestamps
    is_currency_code require_history_matches_market require_history_matches_currency strip lstrip
    rstrip is_space
was_built = refl

dam_price_request-IsPriceRequest_example : IsPriceRequest request
dam_price_request-IsPriceRequest_example = dam_price_request-IsPriceRequest given was_built
