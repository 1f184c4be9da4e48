-- ===== src/Orchestration/Effects.antt =====
-- Calls that raise, and calls that also read and write what lies outside of the workflow state: `M W A` is
-- an awaited call over a world of type W. A call that raises keeps what it wrote before.
use armenian_energy_trading.Base.{◌≡◌, refl}
use armenian_energy_trading.Orchestration.Exceptions.{Outcome, returned, raised}

abbrev pub M : Type 0 → Type 0 → Type 0
M W A = W → Outcome A × W

abbrev pub continue : {W A B : Type 0} → (A → M W B) → Outcome A × W → Outcome B × W
continue next (returned value, world) = next value world
continue next (raised e, world) = (raised e, world)

infixl 5 ◌>>=◌ ◌>>◌
abbrev pub ◌>>=◌ : {W A B : Type 0} → M W A → (A → M W B) → M W B
◌>>=◌ call next world = continue next (call world)

abbrev pub ◌>>◌ : {W B : Type 0} → M W (Unit {0}) → M W B → M W B
call >> next = call >>= λ _. next

abbrev pub pure : {W A : Type 0} → A → M W A
pure value world = (returned value, world)

-- A call that does not touch the world.
abbrev pub sync : {W A : Type 0} → Outcome A → M W A
sync outcome world = (outcome, world)

abbrev pub and_then : {A B : Type 0} → Outcome A → (A → Outcome B) → Outcome B
and_then (returned value) next = next value
and_then (raised e) next = raised e

module _ {A B : Type 0} where
  pub and_then-eq-returned :
      (call : Outcome A) (next : A → Outcome B) {result : B}
      → and_then call next ≡ returned result
      → (value : A) × (call ≡ returned value) × (next value ≡ returned result)
  and_then-eq-returned (returned value) next h = (value, refl, h)
  and_then-eq-returned (raised e) next h = cc

pub returned-injective : {A : Type 0} {a b : A} → returned a ≡ returned b → a ≡ b
returned-injective h = cc
