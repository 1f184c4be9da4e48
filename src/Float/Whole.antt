-- ===== src/Float/Whole.antt =====
-- Whole numbers as floats, to run the definitions on: subtraction stops at zero, division rounds down.
use armenian_energy_trading.Base.{
  ℕ, ◌+◌, ◌-◌, ◌*◌, true, none, some, List, [], ◌∷◌, leb, ltb, nat_beq, if◌then◌else◌,
}
use Prim.Native.Nat.{◌/◌}
use armenian_energy_trading.Float.{Float}

abbrev sum : List ℕ → ℕ
sum [] = 0
sum (n ∷ ns) = n + sum ns

instance abbrev pub whole_float : Float ℕ
whole_float = record {
  of_ℕ = λ n. n;
  add = λ a b. a + b;
  sub = λ a b. a - b;
  mul = λ a b. a * b;
  div = λ a b. if nat_beq b 0 then none else some (a / b);
  square = λ a. some (a * a);
  absolute = λ a. a;
  total = sum;
  is_finite = λ a. true;
  equal = nat_beq;
  less = ltb;
  less_equal = leb;
}
