-- ===== src/Ml/Index/Laws.antt =====
-- What `unique_timestamp_index` accepts, and what the finished dict holds.
use armenian_energy_trading.Base.{
  ◌+◌, ◌-◌, ◌≤◌, ◌≡◌, ◌≢◌, refl, sym, ◌∙◌, ap, subst, inl, inr, Bool, none, some, List, [], ◌∷◌,
  ◌++◌, map, Elem, Distinct, arith, map-Elem, Elem-map,
}
use mathlib.Core.List.{append_assoc, append-nil}
use armenian_energy_trading.Ml.Errors.{Error, Result, ok}
use armenian_energy_trading.Ml.Cohort.{Timestamp}
use armenian_energy_trading.Ml.Index.{
  Index, collect, sorted, lookup, item, keys, minus, index_from, unique_timestamp_index,
}

module _ {A : Type 0} where
  lookup-append-none :
      (k j : Timestamp) (a : A) (d : Index A)
      → lookup k (d ++ (j, a) ∷ []) ≡ none
      → (lookup k d ≡ none) × (k ≢ j)
  lookup-append-none k j a [] h = ground arith
  lookup-append-none k j a ((i, b) ∷ d) h = ground (arith, lookup-append-none k j a d)

  none-lookup-append :
      (k j : Timestamp) (a : A) (d : Index A)
      → lookup k d ≡ none
      → k ≢ j
      → lookup k (d ++ (j, a) ∷ []) ≡ none
  none-lookup-append k j a [] h ne = ground arith
  none-lookup-append k j a ((i, b) ∷ d) h ne = ground (arith, none-lookup-append k j a d)

module _ {A : Type 0} (stamp : A → Timestamp) where
  -- The dict of a history whose timestamps are distinct.
  abbrev pub entries : List A → Index A
  entries history = map (λ r. (stamp r, r)) history

  pub keys-entries : (history : List A) → keys (entries history) ≡ map stamp history
  keys-entries [] = refl
  keys-entries (r ∷ rs) = ap (λ ts. stamp r ∷ ts) (keys-entries rs)

  -- In the dict of a history with distinct timestamps each record is found under its own.
  pub lookup-entries :
      (history : List A) (r : A)
      → Distinct (map stamp history)
      → Elem r history
      → lookup (stamp r) (entries history) ≡ some r
  lookup-entries [] r d m = absurd m
  lookup-entries (x ∷ xs) r d (inl e) = ground arith
  lookup-entries (x ∷ xs) r d (inr m) =
      lookup-tail (λ e. d.0 (subst (λ t. Elem t (map stamp xs)) e (Elem-map stamp r xs m)))
        (lookup-entries xs r d.1 m)
    where
      lookup-tail :
          stamp r ≢ stamp x
          → lookup (stamp r) (entries xs) ≡ some r
          → lookup (stamp r) (entries (x ∷ xs)) ≡ some r
      lookup-tail ne h = ground arith

  pub entries-lookup :
      (history : List A) (k : Timestamp) (r : A)
      → lookup k (entries history) ≡ some r
      → Elem r history × (k ≡ stamp r)
  entries-lookup [] k r h = cc
  entries-lookup (x ∷ xs) k r h = ground (arith, entries-lookup xs k r)

module _ {A : Type 0} (duplicate : Error) (stamp : A → Timestamp) where
  index_from-step :
      (d : Index A) (r : A) (rs : List A) {f : Index A}
      → index_from duplicate stamp d (r ∷ rs) ≡ ok f
      → (lookup (stamp r) d ≡ none)
        × (index_from duplicate stamp (d ++ (stamp r, r) ∷ []) rs ≡ ok f)
  unfolding index_from
  index_from-step d r rs h = ground arith

  index_from-eq :
      (d : Index A) (rs : List A) {f : Index A}
      → index_from duplicate stamp d rs ≡ ok f
      → f ≡ d ++ entries stamp rs
  unfolding index_from
  index_from-eq d [] h = rw append-nil (cc)
  index_from-eq d (r ∷ rs) h =
      let (new, rest) = index_from-step d r rs h in
      index_from-eq (d ++ (stamp r, r) ∷ []) rs rest
      ∙ append_assoc d ((stamp r, r) ∷ []) (entries stamp rs)

  index_from-new :
      (d : Index A) (rs : List A) {f : Index A} (r : A)
      → index_from duplicate stamp d rs ≡ ok f
      → Elem r rs
      → lookup (stamp r) d ≡ none
  index_from-new d [] r h m = absurd m
  index_from-new d (x ∷ rs) r h (inl e) = rw e (index_from-step d x rs h).0
  index_from-new d (x ∷ rs) r h (inr m) =
      (lookup-append-none (stamp r) (stamp x) x d
        (index_from-new (d ++ (stamp x, x) ∷ []) rs r (index_from-step d x rs h).1 m)).0

  index_from-Distinct :
      (d : Index A) (rs : List A) {f : Index A}
      → index_from duplicate stamp d rs ≡ ok f
      → Distinct (map stamp rs)
  index_from-Distinct d [] h = tt
  index_from-Distinct d (x ∷ rs) h =
      let rest = (index_from-step d x rs h).1 in
      (
        λ m.
            let (r, at_r, e) = map-Elem stamp (stamp x) rs m in
            (lookup-append-none (stamp r) (stamp x) x d
                (index_from-new (d ++ (stamp x, x) ∷ []) rs r rest at_r)).1
              (sym e),
        index_from-Distinct (d ++ (stamp x, x) ∷ []) rs rest,
      )

  index_from-cons :
      (d : Index A) (r : A) (rs : List A)
      → lookup (stamp r) d ≡ none
      → index_from duplicate stamp d (r ∷ rs)
        ≡ index_from duplicate stamp (d ++ (stamp r, r) ∷ []) rs
  unfolding index_from
  index_from-cons d r rs new = ground arith

  Distinct-index_from :
      (d : Index A) (rs : List A)
      → Distinct (map stamp rs)
      → ((r : A) → Elem r rs → lookup (stamp r) d ≡ none)
      → index_from duplicate stamp d rs ≡ ok (d ++ entries stamp rs)
  unfolding index_from
  Distinct-index_from d [] h new = rw append-nil refl
  Distinct-index_from d (x ∷ rs) h new =
      index_from-cons d x rs (new x (inl refl))
      ∙ Distinct-index_from (d ++ (stamp x, x) ∷ []) rs h.1 (λ r m.
        none-lookup-append (stamp r) (stamp x) x d (new r (inr m))
          (λ e. h.0 (subst (λ t. Elem t (map stamp rs)) e (Elem-map stamp r rs m))))
      ∙ ap ok (append_assoc d ((stamp x, x) ∷ []) (entries stamp rs))

  -- The loop ends without an error exactly when no timestamp stands twice, and then the dict has
  -- one entry for each record, in the order of the history.
  pub unique_timestamp_index-ok :
      (history : List A) {f : Index A}
      → unique_timestamp_index duplicate stamp history ≡ ok f
      → (f ≡ entries stamp history) × Distinct (map stamp history)
  unfolding unique_timestamp_index
  unique_timestamp_index-ok history h =
      (index_from-eq [] history h, index_from-Distinct [] history h)

  pub Distinct-unique_timestamp_index :
      (history : List A)
      → Distinct (map stamp history)
      → unique_timestamp_index duplicate stamp history ≡ ok (entries stamp history)
  unfolding unique_timestamp_index
  Distinct-unique_timestamp_index history h = Distinct-index_from [] history h (λ r m. refl)

-- `target - lag` is the timestamp `lag` before the target.
pub minus-ok : (target lag : Timestamp) {r : Timestamp} → minus target lag ≡ ok r → r + lag ≡ target
unfolding minus
minus-ok target lag h = ground arith

pub add-minus : (r lag : Timestamp) → minus (r + lag) lag ≡ ok r
unfolding minus
add-minus r lag = ground arith

pub le-minus : (target lag : Timestamp) → lag ≤ target → minus target lag ≡ ok (target - lag)
unfolding minus
le-minus target lag h = ground arith

pub item-ok :
    {A : Type 0} (d : Index A) (k : Timestamp) {a : A} → item d k ≡ ok a → lookup k d ≡ some a
item-ok d k h = ground arith

-- The builders run their comprehension over the dict that they have just made.
pub collect-entries :
    {A R : Type 0} (stamp : A → Timestamp) (test : Index A → Timestamp → Result Bool)
    (row : Index A → Timestamp → Result R) (history : List A) {d : Index A} {rows : List R}
    → d ≡ entries stamp history
    → collect (test d) (row d) (sorted (keys d)) ≡ ok rows
    → collect
        (test (entries stamp history))
        (row (entries stamp history))
        (sorted (map stamp history))
      ≡ ok rows
collect-entries stamp test row history {rows} e h =
    let full : List Timestamp → Type 0 = λ ts.
      collect (test (entries stamp history)) (row (entries stamp history)) (sorted ts) ≡ ok rows in
    subst full (keys-entries stamp history)
      (subst (λ f. collect (test f) (row f) (sorted (keys f)) ≡ ok rows) e h)
