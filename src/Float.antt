-- ===== src/Float.antt =====
-- Python's `float` as src/energy_trading/ml/consumer_load uses it. The arithmetic is the machine's; its
-- numbers enter as a type with these operations. Nothing is supposed of rounding.
pub mod Whole
use armenian_energy_trading.Base.{ℕ, Bool, Option, List}

pub record Float (F : Type 0) : Type 0 where
  -- The float of an `int`.
  pub of_ℕ : ℕ → F
  pub add : F → F → F
  pub sub : F → F → F
  pub mul : F → F → F
  -- `none` where Python raises a ZeroDivisionError.
  pub div : F → F → Option F
  -- `x ** 2`, with `none` where Python raises an OverflowError.
  pub square : F → Option F
  pub absolute : F → F
  -- `sum(...)` of floats, which compensates for rounding.
  pub total : List F → F
  pub is_finite : F → Bool
  pub equal : F → F → Bool
  pub less : F → F → Bool
  pub less_equal : F → F → Bool
