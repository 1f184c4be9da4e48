-- ===== src/Ml/Cohort/Laws.antt =====
-- What the guards on a cohort accept.
use armenian_energy_trading.Base.{
  ℕ, ◌<◌, ◌≤◌, ◌≡◌, refl, sym, ◌∙◌, subst, inl, inr, List, [], ◌∷◌, true, ltb, length, Comparable,
  ◌==◌, if◌then◌else◌, arith, All, Elem, map, ap, All-Elem, Elem-All, Elem-map, map-Elem,
  Bool-cases,
}
use armenian_energy_trading.Ml.Errors.{Error, ok, err}
use armenian_energy_trading.Ml.Cohort.{
  Timestamp, contains, set_of, require_single, chronology_from, require_strict_chronology,
}

-- Each timestamp is later than the one before it.
abbrev pub IncreasingFrom : Timestamp → List Timestamp → Type 0
IncreasingFrom previous [] = Unit
IncreasingFrom previous (t ∷ ts) = (previous < t) × IncreasingFrom t ts

abbrev pub Increasing : List Timestamp → Type 0
Increasing [] = Unit
Increasing (t ∷ ts) = IncreasingFrom t ts

-- All values are the first one.
abbrev pub AllSame : {A : Type 0} → List A → Type 0
AllSame [] = Unit
AllSame (x ∷ xs) = All (λ y. y ≡ x) xs

pub chronology_from-ok :
    (d o : Error) (p : Timestamp) (ts : List Timestamp)
    → chronology_from d o p ts ≡ ok tt
    → IncreasingFrom p ts
unfolding chronology_from
chronology_from-ok d o p [] h = tt
chronology_from-ok d o p (t ∷ ts) h = ground (arith, chronology_from-ok d o t ts)

pub IncreasingFrom-chronology :
    (d o : Error) (p : Timestamp) (ts : List Timestamp)
    → IncreasingFrom p ts
    → chronology_from d o p ts ≡ ok tt
unfolding chronology_from
IncreasingFrom-chronology d o p [] h = refl
IncreasingFrom-chronology d o p (t ∷ ts) h = ground (arith, IncreasingFrom-chronology d o t ts h.1)

pub chronology-ok :
    (d o : Error) (ts : List Timestamp) → require_strict_chronology d o ts ≡ ok tt → Increasing ts
unfolding require_strict_chronology
chronology-ok d o [] h = tt
chronology-ok d o (t ∷ ts) h = chronology_from-ok d o t ts h

pub Increasing-chronology :
    (d o : Error) (t : Timestamp) (ts : List Timestamp)
    → Increasing (t ∷ ts)
    → require_strict_chronology d o (t ∷ ts) ≡ ok tt
unfolding require_strict_chronology
Increasing-chronology d o t ts h = IncreasingFrom-chronology d o t ts h

single_le : (e : Error) (n : ℕ) → (if ltb 1 n then err e else ok tt) ≡ ok tt → n ≤ 1
single_le e n h = ground arith

module _ {A : Type 0} ⦃e : Comparable A⦄ where
  contains-singleton : (a x : A) → contains a (x ∷ []) ≡ true → a ≡ x
  contains-singleton a x h = elim (Bool-cases (a == x)) [
    | inl same ↦ (e.same_iff a x).0 same
    | inr other ↦ cc (rw other at h)
  ]

  require_single-le :
      (mixed : Error) (xs : List A) → require_single mixed xs ≡ ok tt → length (set_of xs) ≤ 1
  unfolding require_single
  require_single-le mixed xs h = single_le mixed (length (set_of xs)) h

  set_of-cons :
      (x : A) (xs : List A)
      → set_of (x ∷ xs) ≡ (if contains x (set_of xs) then set_of xs else x ∷ set_of xs)
  unfolding set_of
  set_of-cons x xs = refl

  -- The set has a member of every non-empty sequence.
  set_of-pos : (x : A) (xs : List A) → 0 < length (set_of (x ∷ xs))
  set_of-pos x [] = unfold set_of in omega arith
  set_of-pos x (y ∷ xs) = elim (Bool-cases (contains x (set_of (y ∷ xs)))) [
    | inl old ↦ rw (set_of-cons x (y ∷ xs), old) (set_of-pos y xs)
    | inr new ↦ rw (set_of-cons x (y ∷ xs), new) (omega arith)
  ]

  set_of-same : (x : A) (xs : List A) → All (λ y. y ≡ x) xs → set_of (x ∷ xs) ≡ x ∷ []
  set_of-same x [] h = unfold set_of in refl
  set_of-same x (y ∷ xs) h =
      rw h.0 (set_of-cons x (x ∷ xs) ∙ rw (set_of-same x xs h.1, (e.same_iff x x).1 refl) refl)

  set_of-single : (x : A) (xs : List A) → length (set_of (x ∷ xs)) ≤ 1 → All (λ y. y ≡ x) xs
  set_of-single x [] h = tt
  set_of-single x (y ∷ xs) h = elim (Bool-cases (contains x (set_of (y ∷ xs)))) [
    | inl old ↦
        let fits : length (set_of (y ∷ xs)) ≤ 1 = rw (set_of-cons x (y ∷ xs), old) at h in
        let rest : All (λ z. z ≡ y) xs = set_of-single y xs fits in
        let found : contains x (y ∷ []) ≡ true = rw (set_of-same y xs rest) at old in
        let same : x ≡ y = contains-singleton x y found in
        (sym same, subst (λ z. All (λ w. w ≡ z) xs) (sym same) rest)
    | inr new ↦
        let fits : length (y ∷ set_of (y ∷ xs)) ≤ 1 = rw (set_of-cons x (y ∷ xs), new) at h in
        absurd (omega (arith, set_of-pos y xs))
  ]

  pub require_single-ok :
      (mixed : Error) (xs : List A) → require_single mixed xs ≡ ok tt → AllSame xs
  require_single-ok mixed [] h = tt
  require_single-ok mixed (x ∷ xs) h = set_of-single x xs (require_single-le mixed (x ∷ xs) h)

  pub AllSame-require_single :
      (mixed : Error) (xs : List A) → AllSame xs → require_single mixed xs ≡ ok tt
  unfolding require_single
  AllSame-require_single mixed [] h = refl
  AllSame-require_single mixed (x ∷ xs) h = rw (set_of-same x xs h) refl

-- Rows with one value have it pairwise, and the other way round.
module _ {A B : Type 0} (f : A → B) where
  pub AllSame-pairwise :
      (xs : List A) (a b : A) → AllSame (map f xs) → Elem a xs → Elem b xs → f a ≡ f b
  AllSame-pairwise [] a b h at_a at_b = absurd at_a
  AllSame-pairwise (x ∷ xs) a b h at_a at_b = to_head a at_a ∙ sym (to_head b at_b)
    where
      to_head : (c : A) → Elem c (x ∷ xs) → f c ≡ f x
      to_head c (inl e) = ap f e
      to_head c (inr m) = Elem-All (λ y. y ≡ f x) (f c) (map f xs) h (Elem-map f c xs m)

  pub pairwise-AllSame :
      (xs : List A) → ((a b : A) → Elem a xs → Elem b xs → f a ≡ f b) → AllSame (map f xs)
  pairwise-AllSame [] h = tt
  pairwise-AllSame (x ∷ xs) h =
      All-Elem (λ y. y ≡ f x) (map f xs)
        (λ y m. let (a, at_a, e) = map-Elem f y xs m in e ∙ h a x (inr at_a) (inl refl))

pub IncreasingFrom-below :
    (p t : Timestamp) (ts : List Timestamp) → p < t → IncreasingFrom t ts → IncreasingFrom p ts
IncreasingFrom-below p t [] lt h = tt
IncreasingFrom-below p t (u ∷ us) lt h = (omega arith, h.1)

pub IncreasingFrom-Increasing :
    (t : Timestamp) (ts : List Timestamp) → IncreasingFrom t ts → Increasing ts
IncreasingFrom-Increasing t [] h = tt
IncreasingFrom-Increasing t (u ∷ us) h = h.1
