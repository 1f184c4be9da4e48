-- ===== src/Ml/Cohort/Partition.antt =====
-- Cutting rows in chronological order at a timestamp.
use armenian_energy_trading.Base.{
  ◌≤◌, ◌≡◌, refl, inl, inr, List, [], ◌∷◌, ◌++◌, map, ltb, leb, keep, All, Elem, arith, Bool, true,
  Bool-cases,
}
use armenian_energy_trading.Ml.Cohort.{Timestamp}
use armenian_energy_trading.Ml.Cohort.Laws.{
  AllSame, AllSame-pairwise, pairwise-AllSame, IncreasingFrom, Increasing, IncreasingFrom-below,
  IncreasingFrom-Increasing,
}

module _ {A : Type 0} (p : A → Bool) where
  pub keep-All : (xs : List A) → All (λ x. p x ≡ true) (keep p xs)
  keep-All [] = tt
  keep-All (x ∷ xs) = elim (Bool-cases (p x)) [
    | inl yes_x ↦ rw yes_x (yes_x, keep-All xs)
    | inr no_x ↦ rw no_x (keep-All xs)
  ]

  pub keep-Elem : (a : A) (xs : List A) → Elem a (keep p xs) → Elem a xs
  keep-Elem a [] m = m
  keep-Elem a (x ∷ xs) m = ground (arith, keep-Elem a xs)

pub AllSame-keep :
    {A B : Type 0} (f : A → B) (p : A → Bool) (xs : List A)
    → AllSame (map f xs)
    → AllSame (map f (keep p xs))
AllSame-keep f p xs h =
    pairwise-AllSame f (keep p xs)
      (λ a b at_a at_b. AllSame-pairwise f xs a b h (keep-Elem p a xs at_a) (keep-Elem p b xs at_b))

module _ {A : Type 0} (stamp : A → Timestamp) where
  IncreasingFrom-keep :
      (p : A → Bool) (t : Timestamp) (xs : List A)
      → IncreasingFrom t (map stamp xs)
      → IncreasingFrom t (map stamp (keep p xs))
  IncreasingFrom-keep p t [] h = tt
  IncreasingFrom-keep p t (x ∷ xs) h = elim (Bool-cases (p x)) [
    | inl kept ↦ rw kept (h.0, IncreasingFrom-keep p (stamp x) xs h.1)
    | inr dropped ↦
        rw dropped
          (IncreasingFrom-keep p t xs (IncreasingFrom-below t (stamp x) (map stamp xs) h.0 h.1))
  ]

  -- Rows that are left of chronological rows are chronological.
  pub Increasing-keep :
      (p : A → Bool) (xs : List A) → Increasing (map stamp xs) → Increasing (map stamp (keep p xs))
  Increasing-keep p [] h = tt
  Increasing-keep p (x ∷ xs) h = elim (Bool-cases (p x)) [
    | inl kept ↦ rw kept (IncreasingFrom-keep p (stamp x) xs h)
    | inr dropped ↦
        rw dropped (Increasing-keep p xs (IncreasingFrom-Increasing (stamp x) (map stamp xs) h))
  ]

  module _ (cutoff : Timestamp) where
    abbrev pub before : A → Bool
    before x = ltb (stamp x) cutoff

    abbrev pub from_cutoff : A → Bool
    from_cutoff x = leb cutoff (stamp x)

    after-cutoff :
        (t : Timestamp) (xs : List A)
        → cutoff ≤ t
        → IncreasingFrom t (map stamp xs)
        → (keep before xs ≡ []) × (keep from_cutoff xs ≡ xs)
    after-cutoff t [] late h = (refl, refl)
    after-cutoff t (x ∷ xs) late h = ground (arith, after-cutoff (stamp x) xs)

    -- The two partitions, one behind the other, are the rows.
    pub keep-append-keep :
        (xs : List A) → Increasing (map stamp xs) → keep before xs ++ keep from_cutoff xs ≡ xs
    keep-append-keep [] h = refl
    keep-append-keep (x ∷ xs) h = ground (
      arith,
      after-cutoff (stamp x) xs,
      keep-append-keep xs (IncreasingFrom-Increasing (stamp x) (map stamp xs) h),
    )
