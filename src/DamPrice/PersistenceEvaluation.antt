-- ===== src/DamPrice/PersistenceEvaluation.antt =====
-- src/energy_trading/ml/dam_price/previous_day_persistence_evaluation.py: the mean absolute error of the backtest. Unlike
-- the other evaluators it translates no `DecimalException` and tests no value for finiteness.
use armenian_energy_trading.Base.{
  ℕ, List, [], ◌∷◌, map, length, ◌==◌, text_comparable, if◌then◌else◌,
}
use armenian_energy_trading.Decimal.{Decimal}
use armenian_energy_trading.Domain.{CurrencyCode}
use armenian_energy_trading.Ml.Errors.{
  Stage, Reason, Error, invalid_request, index_error, Result, ok, err, ◌>>=◌, ◌>>◌,
}
use armenian_energy_trading.Ml.Cohort.{require_single, require_strict_chronology}
use armenian_energy_trading.Ml.Arithmetic.{div, absolute_error, absolute_errors_from}
use armenian_energy_trading.DamPrice.Backtest.{PreviousDayPersistenceBacktestCase}

abbrev pub message : Reason → Error
message = invalid_request Stage.persistence_mae

pub record PreviousDayPersistenceMaeResult (D : Type 0) : Type 0 where
  pub case_count : ℕ
  pub currency : CurrencyCode
  pub mae_amount_per_mwh : D

module _ {D : Type 0} where
  unfoldable pub require_single_market :
      List (PreviousDayPersistenceBacktestCase D) → Result (Unit {0})
  require_single_market cases =
      require_single (message Reason.mixed_market) (map (λ c. c.market_id) cases)

  -- The loop of `_require_single_currency`: both prices of a case share their currency.
  unfoldable pub require_case_currencies :
      List (PreviousDayPersistenceBacktestCase D) → Result (Unit {0})
  require_case_currencies [] = ok tt
  require_case_currencies (c ∷ cs) =
      if c.predicted_price.currency == c.actual_price.currency
      then require_case_currencies cs
      else err (message Reason.case_currency_mismatch)

  unfoldable pub require_single_currency :
      List (PreviousDayPersistenceBacktestCase D) → Result CurrencyCode
  unfolding require_case_currencies
  require_single_currency [] = err index_error
  require_single_currency (c ∷ cs) = do
    require_case_currencies (c ∷ cs)
    require_single (message Reason.mixed_currency) (map (λ d. d.actual_price.currency) (c ∷ cs))
    ok c.actual_price.currency

  unfoldable pub require_chronology :
      List (PreviousDayPersistenceBacktestCase D) → Result (Unit {0})
  require_chronology cases =
      require_strict_chronology (message Reason.duplicate_timestamp) (message Reason.out_of_order)
        (map (λ c. c.target_timestamp) cases)

  abbrev pub amounts : PreviousDayPersistenceBacktestCase D → D × D
  amounts c = (c.predicted_price.amount_per_mwh, c.actual_price.amount_per_mwh)

module _ {D : Type 0} ⦃dec : Decimal D⦄ where
  unfoldable pub evaluate_mae :
      List (PreviousDayPersistenceBacktestCase D) → Result (PreviousDayPersistenceMaeResult D)
  evaluate_mae [] = err (message Reason.empty_cases)
  evaluate_mae (c ∷ cs) = do
    let cases = c ∷ cs
    require_single_market cases
    currency ← require_single_currency cases
    require_chronology cases
    first ← absolute_error (amounts c)
    total_abs_error ← absolute_errors_from first (map amounts cs)
    mae ← div total_abs_error (dec.of_ℕ (length cases))
    ok (record { case_count = length cases; currency = currency; mae_amount_per_mwh = mae })
