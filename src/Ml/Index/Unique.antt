-- ===== src/Ml/Index/Unique.antt =====
-- In a history with distinct timestamps the one observation at a timestamp is found.
use armenian_energy_trading.Base.{
  ◌≡◌, refl, subst, sym, inl, inr, List, [], ◌∷◌, map, nat_beq, keep, Elem, Elem-map, Distinct,
  arith,
}
use armenian_energy_trading.Ml.Cohort.{Timestamp}

module _ {A : Type 0} (stamp : A → Timestamp) where
  keep-none :
      (t : Timestamp) (xs : List A)
      → ¬ Elem t (map stamp xs)
      → keep (λ x. nat_beq (stamp x) t) xs ≡ []
  keep-none t [] h = refl
  keep-none t (x ∷ xs) h =
      grind (arith, keep-none t xs (λ m. h (inr m)), λ (e : t ≡ stamp x). h (inl e))

  pub keep-sole :
      (xs : List A) (r : A)
      → Distinct (map stamp xs)
      → Elem r xs
      → keep (λ x. nat_beq (stamp x) (stamp r)) xs ≡ r ∷ []
  keep-sole [] r d m = absurd m
  keep-sole (x ∷ xs) r d (inl e) =
      subst (λ y. keep (λ z. nat_beq (stamp z) (stamp y)) (x ∷ xs) ≡ y ∷ []) (sym e)
        (head (keep-none (stamp x) xs d.0))
    where
      head :
          keep (λ z. nat_beq (stamp z) (stamp x)) xs ≡ []
          → keep (λ z. nat_beq (stamp z) (stamp x)) (x ∷ xs) ≡ x ∷ []
      head h = ground arith
  keep-sole (x ∷ xs) r d (inr m) =
      tail (λ e. d.0 (subst (λ t. Elem t (map stamp xs)) e (Elem-map stamp r xs m)))
        (keep-sole xs r d.1 m)
    where
      tail :
          ¬ (stamp r ≡ stamp x)
          → keep (λ z. nat_beq (stamp z) (stamp r)) xs ≡ r ∷ []
          → keep (λ z. nat_beq (stamp z) (stamp r)) (x ∷ xs) ≡ r ∷ []
      tail ne h = ground arith
