-- ===== src/Ml/Cohort/Same.antt =====
-- What the comparison of two sets of a cohort's values accepts.
use armenian_energy_trading.Base.{
  ◌≡◌, inl, inr, List, [], ◌∷◌, true, All, Comparable, ◌==◌, Bool-cases, arith,
}
use armenian_energy_trading.Ml.Errors.{Error, ok}
use armenian_energy_trading.Ml.Cohort.{contains, subset, require_same}

module _ {A : Type 0} ⦃e : Comparable A⦄ (x : A) where
  contains-All : (y : A) (xs : List A) → contains y xs ≡ true → All (λ z. z ≡ x) xs → y ≡ x
  contains-All y [] h all = cc
  contains-All y (z ∷ zs) h all = elim (Bool-cases (y == z)) [
    | inl same ↦ rw ((e.same_iff y z).0 same) all.0
    | inr other ↦ contains-All y zs (rw other at h) all.1
  ]

  subset-All : (ys xs : List A) → subset ys xs ≡ true → All (λ z. z ≡ x) xs → All (λ z. z ≡ x) ys
  subset-All [] xs h all = tt
  subset-All (y ∷ ys) xs h all = elim (Bool-cases (contains y xs)) [
    | inl member ↦ (contains-All y xs member all, subset-All ys xs (rw member at h) all)
    | inr other ↦ cc (rw other at h)
  ]

  require_same-subset :
      (err : Error) (xs ys : List A) → require_same err xs ys ≡ ok tt → subset ys xs ≡ true
  unfolding require_same
  require_same-subset err xs ys h = ground arith

  -- A sequence whose set is that of a sequence of one value is of this value.
  pub require_same-All :
      (err : Error) (xs ys : List A)
      → require_same err xs ys ≡ ok tt
      → All (λ z. z ≡ x) xs
      → All (λ z. z ≡ x) ys
  require_same-All err xs ys h all = subset-All ys xs (require_same-subset err xs ys h) all
