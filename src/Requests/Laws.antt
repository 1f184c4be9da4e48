-- ===== src/Requests/Laws.antt =====
-- What a forecast request that was built has, and which guards of the builders of rows it passes.
use armenian_energy_trading.Base.{
  String, Bool, Bool-cases, true, false, List, [], ◌∷◌, map, all, ◌≡◌, ◌≢◌, refl, subst, inl, inr,
  All, ◌==◌, text_comparable,
}
use armenian_energy_trading.Domain.{DamPriceForecastModelRequest}
use armenian_energy_trading.Ml.Errors.{ok}
use armenian_energy_trading.Ml.Cohort.{Timestamp}
use armenian_energy_trading.Ml.Cohort.Laws.{AllSame, AllSame-require_single}
use armenian_energy_trading.Orchestration.Exceptions.{returned}
use armenian_energy_trading.Orchestration.Effects.{and_then-eq-returned, returned-injective}
use armenian_energy_trading.Orchestration.State.{IsClean, require_non_empty}
use armenian_energy_trading.Orchestration.State.Laws.{require_non_empty-IsClean}
use armenian_energy_trading.Requests.{
  Datetime, require_aware_utc, each_aware_utc, require_target_timestamps, guard, is_currency_code,
  DamPriceArguments, require_history_matches_market, require_history_matches_currency,
  dam_price_request,
}
use armenian_energy_trading.DamPrice.Features168h as Features168h

guard-true : (b : Bool) (text : String) {u : Unit {0}} → guard b text ≡ returned u → b ≡ true
guard-true true text h = refl
guard-true false text h = cc

all-All :
    {A : Type 0} (f : A → String) (text : String) (xs : List A)
    → all (λ x. f x == text) xs ≡ true
    → All (λ x. x ≡ text) (map f xs)
all-All f text [] h = tt
all-All f text (x ∷ xs) h = elim (Bool-cases (f x == text)) [
  | inl same ↦ ((text_comparable.same_iff (f x) text).0 same, all-All f text xs (rw same at h))
  | inr other ↦ cc (rw other at h)
]

All-AllSame : (text : String) (xs : List String) → All (λ x. x ≡ text) xs → AllSame xs
All-AllSame text [] h = tt
All-AllSame text (x ∷ xs) h = rw h.0 h.1

targets-nonempty :
    (ds : List Datetime) {ts : List Timestamp}
    → require_target_timestamps ds ≡ returned ts
    → ts ≢ []
unfolding require_target_timestamps
targets-nonempty [] h e = cc
targets-nonempty (d ∷ ds) h e =
    let (t, _, h1) = and_then-eq-returned (require_aware_utc "target_timestamps" d) _ h in
    let (ts, _, h2) = and_then-eq-returned (each_aware_utc ds) _ h1 in cc (returned-injective h2, e)

module _ {D : Type 0} where
  -- What a price request has once it is built.
  pub record IsPriceRequest (r : DamPriceForecastModelRequest D) : Type 0 where
    pub run_clean : IsClean r.forecast_run_id
    pub market_clean : IsClean r.market_id
    pub currency_code : is_currency_code r.currency ≡ true
    pub of_market : All (λ x. x ≡ r.market_id) (map (λ item. item.market_id) r.history)
    pub of_currency : All (λ x. x ≡ r.currency) (map (λ item. item.price.currency) r.history)
    pub targets : r.target_timestamps ≢ []
    pub market_guard : Features168h.require_single_market r.history ≡ ok tt
    pub currency_guard : Features168h.require_single_currency r.history ≡ ok tt

  -- A price request that is built has identifiers without outer spaces that are not empty, a currency
  -- code, a history of its market and its currency, and a target; the guards of the two-lag builder on
  -- market and currency pass for its history.
  pub dam_price_request-IsPriceRequest :
      (given : DamPriceArguments D) {r : DamPriceForecastModelRequest D}
      → dam_price_request given ≡ returned r
      → IsPriceRequest r
  unfolding dam_price_request require_history_matches_market require_history_matches_currency
      Features168h.require_single_market Features168h.require_single_currency
  dam_price_request-IsPriceRequest given {r} h =
      let (run, at_run, h1) =
        and_then-eq-returned (require_non_empty "forecast_run_id" given.forecast_run_id) _ h in
      let (_, _, h2) =
        and_then-eq-returned (require_aware_utc "generated_at" given.generated_at) _ h1 in
      let (market, at_market, h3) =
        and_then-eq-returned (require_non_empty "market_id" given.market_id) _ h2 in
      let (_, code, h4) =
        and_then-eq-returned
          (guard (is_currency_code given.currency)
            "currency must be a three-letter uppercase currency code")
          _ h3 in
      let (_, markets, h5) =
        and_then-eq-returned (require_history_matches_market market given.history) _ h4 in
      let (_, currencies, h6) =
        and_then-eq-returned (require_history_matches_currency given.currency given.history) _ h5 in
      let (targets, at_targets, h7) =
        and_then-eq-returned (require_target_timestamps given.target_timestamps) _ h6 in
      let of_market =
        all-All (λ x. x.market_id) market given.history
          (guard-true _ "history market_id must match request market_id" markets) in
      let of_currency =
        all-All (λ x. x.price.currency) given.currency given.history
          (guard-true _ "history currency must match request currency" currencies) in
      subst IsPriceRequest (returned-injective h7) (record {
        run_clean = require_non_empty-IsClean "forecast_run_id" given.forecast_run_id at_run;
        market_clean = require_non_empty-IsClean "market_id" given.market_id at_market;
        currency_code = guard-true _ "currency must be a three-letter uppercase currency code" code;
        of_market = of_market;
        of_currency = of_currency;
        targets = targets-nonempty given.target_timestamps at_targets;
        market_guard =
            AllSame-require_single _ _
              (All-AllSame market (map (λ x. x.market_id) given.history) of_market);
        currency_guard =
            AllSame-require_single _ _
              (All-AllSame given.currency (map (λ x. x.price.currency) given.history) of_currency);
      })
