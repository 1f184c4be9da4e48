-- ===== src/Base/Equality.antt =====
-- Types whose values the source compares by `==`: numbers and texts.
use Prim.Native.Nat.{ℕ}
use Prim.Native.String.{String}
use mathlib.Core.Bool.{Bool, true}
use mathlib.Core.Logic.{◌↔◌}
use mathlib.Core.Path.{◌≡◌}
use text.Mathlib.Text.{◌==◌ as texts_equal}
use text.Mathlib.TextEquality.{eq_iff}
use armenian_energy_trading.Base.Tests.{nat_beq, nat_beq_iff}

pub record Comparable (A : Type 0) : Type 0 where
  pub same : A → A → Bool
  pub same_iff : (x y : A) → (same x y ≡ true) ↔ (x ≡ y)

instance abbrev pub text_comparable : Comparable String
text_comparable = record { same = texts_equal; same_iff = eq_iff }

instance abbrev pub number_comparable : Comparable ℕ
number_comparable = record { same = nat_beq; same_iff = nat_beq_iff }

infix 50 ◌==◌
abbrev pub ◌==◌ : {A : Type 0} ⦃c : Comparable A⦄ → A → A → Bool
◌==◌ ⦃c⦄ x y = c.same x y
