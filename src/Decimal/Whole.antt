-- ===== src/Decimal/Whole.antt =====
-- Whole numbers as decimals, to run the definitions on: subtraction stops at zero, and division rounds
-- down and refuses zero.
use armenian_energy_trading.Base.{ℕ, ◌+◌, ◌-◌, ◌*◌, true, none, some, leb, nat_beq, if◌then◌else◌}
use Prim.Native.Nat.{◌/◌}
use armenian_energy_trading.Decimal.{Decimal}

instance abbrev pub whole : Decimal ℕ
whole = record {
  of_ℕ = λ n. n;
  add = λ a b. some (a + b);
  sub = λ a b. some (a - b);
  mul = λ a b. some (a * b);
  div = λ a b. if nat_beq b 0 then none else some (a / b);
  absolute = λ a. some a;
  is_finite = λ a. true;
  equal = nat_beq;
  less_equal = leb;
}
