-- ===== src/Base/Lists.antt =====
-- Lists measured by native numbers, and the list operations of the source's comprehensions.
use Prim.Native.Nat.{ℕ, suc, ◌+◌}
use mathlib.Core.Path.{◌≡◌, refl, ap, sym, subst}
use mathlib.Core.Bool.{Bool, true, false}
use mathlib.Core.List.{List, [], ◌∷◌, ◌++◌, map}
use mathlib.Core.Logic.{◌⊎◌, inl, inr}
use native.Mathlib.Omega.{arith}
use armenian_energy_trading.Base.Tests.{if◌then◌else◌}

module _ {ℓ} {A : Type ℓ} where
  abbrev pub length : List A → ℕ
  length [] = 0
  length (x ∷ xs) = suc (length xs)

  pub length-append : (xs ys : List A) → length (xs ++ ys) ≡ length xs + length ys
  length-append [] ys = omega arith
  length-append (x ∷ xs) ys = omega (arith, length-append xs ys)

  -- `tuple(x for x in xs if p(x))`
  abbrev pub keep : (A → Bool) → List A → List A
  keep p [] = []
  keep p (x ∷ xs) = if p x then x ∷ keep p xs else keep p xs

  abbrev pub all : (A → Bool) → List A → Bool
  all p [] = true
  all p (x ∷ xs) = if p x then all p xs else false

module _ {ℓ κ} {A : Type ℓ} where
  abbrev pub All : (A → Type κ) → List A → Type κ
  All P [] = Unit
  All P (x ∷ xs) = P x × All P xs

module _ {ℓ κ} {A : Type ℓ} {B : Type κ} where
  pub length-map : (f : A → B) (xs : List A) → length (map f xs) ≡ length xs
  length-map f [] = refl
  length-map f (x ∷ xs) = ap suc (length-map f xs)

module _ {A : Type 0} where
  -- Membership with the place kept, so that it can be matched.
  abbrev pub Elem : A → List A → Type 0
  Elem a [] = ⊥
  Elem a (x ∷ xs) = (a ≡ x) ⊎ Elem a xs

  -- No value stands twice.
  abbrev pub Distinct : List A → Type 0
  Distinct [] = Unit
  Distinct (x ∷ xs) = ¬ Elem x xs × Distinct xs

  pub All-Elem : (P : A → Type 0) (xs : List A) → ((a : A) → Elem a xs → P a) → All P xs
  All-Elem P [] h = tt
  All-Elem P (x ∷ xs) h = (h x (inl refl), All-Elem P xs (λ a m. h a (inr m)))

  pub Elem-All : (P : A → Type 0) (a : A) (xs : List A) → All P xs → Elem a xs → P a
  Elem-All P a [] h m = absurd m
  Elem-All P a (x ∷ xs) h (inl e) = subst P (sym e) h.0
  Elem-All P a (x ∷ xs) h (inr m) = Elem-All P a xs h.1 m

module _ {A B : Type 0} where
  pub Elem-map : (f : A → B) (a : A) (xs : List A) → Elem a xs → Elem (f a) (map f xs)
  Elem-map f a [] m = absurd m
  Elem-map f a (x ∷ xs) (inl e) = inl (ap f e)
  Elem-map f a (x ∷ xs) (inr m) = inr (Elem-map f a xs m)

  pub map-Elem :
      (f : A → B) (b : B) (xs : List A) → Elem b (map f xs) → (a : A) × Elem a xs × (b ≡ f a)
  map-Elem f b [] m = absurd m
  map-Elem f b (x ∷ xs) (inl e) = (x, inl refl, e)
  map-Elem f b (x ∷ xs) (inr m) = let (a, at_a, e) = map-Elem f b xs m in (a, inr at_a, e)
