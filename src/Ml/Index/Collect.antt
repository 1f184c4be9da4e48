-- ===== src/Ml/Index/Collect.antt =====
-- What a filtered comprehension over timestamps returns: the rows of the wanted timestamps, in order.
use armenian_energy_trading.Base.{
  ◌≡◌, refl, ap, sym, subst, ◌∙◌, ◌⊎◌, inl, inr, List, [], ◌∷◌, map, Bool, true, false, Elem, arith,
}
use armenian_energy_trading.Ml.Errors.{Result, ok, ok-injective}
use armenian_energy_trading.Ml.Cohort.{Timestamp}
use armenian_energy_trading.Ml.Cohort.Laws.{
  IncreasingFrom, Increasing, IncreasingFrom-below, IncreasingFrom-Increasing,
}
use armenian_energy_trading.Ml.Index.{collect}

module _ {R : Type 0} (test : Timestamp → Result Bool) (row : Timestamp → Result R) where
  -- A comprehension that did not raise either skipped the first timestamp or began with its row.
  abbrev Skipped : Timestamp → List Timestamp → List R → Type 0
  Skipped t ts rows = (test t ≡ ok false) × (collect test row ts ≡ ok rows)

  abbrev Taken : Timestamp → List Timestamp → List R → Type 0
  Taken t ts rows =
      (r : R) × (rs : List R) × (test t ≡ ok true)
      × (row t ≡ ok r)
      × (collect test row ts ≡ ok rs)
      × (rows ≡ r ∷ rs)

  collect-step :
      (t : Timestamp) (ts : List Timestamp) {rows : List R}
      → collect test row (t ∷ ts) ≡ ok rows
      → Skipped t ts rows ⊎ Taken t ts rows
  unfolding collect
  collect-step t ts h = ground arith

  collect-nil : {rows : List R} → collect test row [] ≡ ok rows → rows ≡ []
  unfolding collect
  collect-nil h = cc

  -- Each row is that of a wanted timestamp.
  pub collect-Elem :
      (ts : List Timestamp) {rows : List R} (r : R)
      → collect test row ts ≡ ok rows
      → Elem r rows
      → (t : Timestamp) × Elem t ts × (test t ≡ ok true) × (row t ≡ ok r)
  collect-Elem [] r h m = absurd (subst (Elem r) (collect-nil h) m)
  collect-Elem (t ∷ ts) r h m = elim (collect-step t ts h) [
    | inl (unwanted, rest) ↦
        let (u, at_u, wanted, made) = collect-Elem ts r rest m in (u, inr at_u, wanted, made)
    | inr (first, rs, wanted, made, rest, e) ↦
        let here : (r ≡ first) ⊎ Elem r rs = subst (Elem r) e m in
        elim here [
          | inl same ↦ (t, inl refl, wanted, made ∙ ap ok (sym same))
          | inr later ↦
              let (u, at_u, wanted', made') = collect-Elem ts r rest later in
              (u, inr at_u, wanted', made')
        ]
  ]

  -- Each wanted timestamp has its row.
  pub Elem-collect :
      (ts : List Timestamp) {rows : List R} (t : Timestamp)
      → collect test row ts ≡ ok rows
      → Elem t ts
      → test t ≡ ok true
      → (r : R) × (row t ≡ ok r) × Elem r rows
  Elem-collect [] t h m wanted = absurd m
  Elem-collect (u ∷ ts) t h (inl same) wanted = elim (collect-step u ts h) [
    | inl (unwanted, rest) ↦ cc
    | inr (first, rs, _, made, rest, e) ↦
        (first, ap row same ∙ made, subst (Elem first) (sym e) (inl refl))
  ]
  Elem-collect (u ∷ ts) t h (inr later) wanted = elim (collect-step u ts h) [
    | inl (unwanted, rest) ↦ Elem-collect ts t rest later wanted
    | inr (first, rs, _, _, rest, e) ↦
        let (r, made, at_r) = Elem-collect ts t rest later wanted in
        (r, made, subst (Elem r) (sym e) (inr at_r))
  ]

  module _ (stamp : R → Timestamp)
      (stamped : (t : Timestamp) (r : R) → row t ≡ ok r → stamp r ≡ t) where
    -- Rows that carry their timestamps come out in the order of the timestamps.
    IncreasingFrom-collect :
        (p : Timestamp) (ts : List Timestamp) {rows : List R}
        → collect test row ts ≡ ok rows
        → IncreasingFrom p ts
        → IncreasingFrom p (map stamp rows)
    IncreasingFrom-collect p [] h inc =
        subst (λ rs. IncreasingFrom p (map stamp rs)) (sym (collect-nil h)) tt
    IncreasingFrom-collect p (t ∷ ts) h inc = elim (collect-step t ts h) [
      | inl (unwanted, rest) ↦
          IncreasingFrom-collect p ts rest (IncreasingFrom-below p t ts inc.0 inc.1)
      | inr (r, rs, _, made, rest, e) ↦
          subst (λ rows. IncreasingFrom p (map stamp rows)) (sym e)
            (rw (stamped t r made) (inc.0, IncreasingFrom-collect t ts rest inc.1))
    ]

    pub Increasing-collect :
        (ts : List Timestamp) {rows : List R}
        → collect test row ts ≡ ok rows
        → Increasing ts
        → Increasing (map stamp rows)
    Increasing-collect [] h inc = subst (λ rs. Increasing (map stamp rs)) (sym (collect-nil h)) tt
    Increasing-collect (t ∷ ts) h inc = elim (collect-step t ts h) [
      | inl (unwanted, rest) ↦ Increasing-collect ts rest (IncreasingFrom-Increasing t ts inc)
      | inr (r, rs, _, made, rest, e) ↦
          subst (λ rows. Increasing (map stamp rows)) (sym e)
            (rw (stamped t r made) (IncreasingFrom-collect t ts rest inc))
    ]

  -- A comprehension whose tests and rows do not raise does not raise.
  pub collect-total :
      (ts : List Timestamp)
      → ((t : Timestamp)
          → Elem t ts
          → (test t ≡ ok false) ⊎ ((r : R) × (test t ≡ ok true) × (row t ≡ ok r)))
      → (rows : List R) × (collect test row ts ≡ ok rows)
  unfolding collect
  collect-total [] h = ([], refl)
  collect-total (t ∷ ts) h =
      let (rows, rest) = collect-total ts (λ u m. h u (inr m)) in
      elim (h t (inl refl)) [
        | inl unwanted ↦ (rows, rw (unwanted) rest)
        | inr (r, wanted, made) ↦ (r ∷ rows, rw (wanted, made, rest) refl)
      ]

-- A comprehension with a test that agrees, and rows that are images, returns the images.
pub collect-map :
    {R S : Type 0} (test : Timestamp → Result Bool) (row : Timestamp → Result R)
    (test' : Timestamp → Result Bool) (row' : Timestamp → Result S) (image : R → S)
    → ((t : Timestamp) (wanted : Bool) → test t ≡ ok wanted → test' t ≡ ok wanted)
    → ((t : Timestamp) (r : R) → row t ≡ ok r → row' t ≡ ok (image r))
    → (ts : List Timestamp) {rows : List R} → collect test row ts ≡ ok rows
    → collect test' row' ts ≡ ok (map image rows)
unfolding collect
collect-map test row test' row' image tests images [] h =
    ap (λ rs. ok (map image rs)) (ok-injective h)
collect-map test row test' row' image tests images (t ∷ ts) h =
    elim (collect-step test row t ts h) [
      | inl (unwanted, rest) ↦
          rw (tests t false unwanted) (collect-map test row test' row' image tests images ts rest)
      | inr (r, rs, wanted, made, rest, e) ↦
          rw
            (
              tests t true wanted,
              images t r made,
              collect-map test row test' row' image tests images ts rest,
              e,
            )
            refl
    ]
