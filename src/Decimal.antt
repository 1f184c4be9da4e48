-- ===== src/Decimal.antt =====
-- `decimal.Decimal` as src/energy_trading/ml uses it. The module is Python's own; its numbers enter
-- as a type with these operations. An operation is `none` where Python raises a `DecimalException`.
pub mod Whole
use armenian_energy_trading.Base.{ℕ, Bool, Option}

pub record Decimal (D : Type 0) : Type 0 where
  -- `Decimal(n)`
  pub of_ℕ : ℕ → D
  pub add : D → D → Option D
  pub sub : D → D → Option D
  pub mul : D → D → Option D
  pub div : D → D → Option D
  pub absolute : D → Option D
  pub is_finite : D → Bool
  -- `a == b` and `a <= b`
  pub equal : D → D → Bool
  pub less_equal : D → D → Bool
