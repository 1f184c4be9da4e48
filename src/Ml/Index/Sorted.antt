-- ===== src/Ml/Index/Sorted.antt =====
-- Sorting distinct timestamps puts them in strictly increasing order and loses none.
use armenian_energy_trading.Base.{
  ◌<◌, ◌≡◌, ◌⊎◌, inl, inr, List, [], ◌∷◌, leb, Elem, Distinct, arith, Bool-cases, true, false,
}
use armenian_energy_trading.Ml.Cohort.{Timestamp}
use armenian_energy_trading.Ml.Cohort.Laws.{IncreasingFrom, Increasing}
use armenian_energy_trading.Ml.Index.{insert, sorted}

le_strict : (a b : Timestamp) → leb a b ≡ true → ¬ (a ≡ b) → a < b
le_strict a b le ne = ground arith

gt_strict : (a b : Timestamp) → leb a b ≡ false → b < a
gt_strict a b gt = ground arith

IncreasingFrom-insert :
    (p t : Timestamp) (ts : List Timestamp)
    → p < t
    → ¬ Elem t ts
    → IncreasingFrom p ts
    → IncreasingFrom p (insert t ts)
IncreasingFrom-insert p t [] lt new h = (lt, tt)
IncreasingFrom-insert p t (u ∷ us) lt new h = elim (Bool-cases (leb t u)) [
  | inl le ↦ rw le (lt, (le_strict t u le (λ e. new (inl e)), h.1))
  | inr gt ↦ rw gt (h.0, IncreasingFrom-insert u t us (gt_strict t u gt) (λ m. new (inr m)) h.1)
]

Increasing-insert :
    (t : Timestamp) (ts : List Timestamp) → ¬ Elem t ts → Increasing ts → Increasing (insert t ts)
Increasing-insert t [] new h = tt
Increasing-insert t (u ∷ us) new h = elim (Bool-cases (leb t u)) [
  | inl le ↦ rw le (le_strict t u le (λ e. new (inl e)), h)
  | inr gt ↦ rw gt (IncreasingFrom-insert u t us (gt_strict t u gt) (λ m. new (inr m)) h)
]

insert-Elem : (a t : Timestamp) (ts : List Timestamp) → Elem a (insert t ts) → (a ≡ t) ⊎ Elem a ts
insert-Elem a t [] m = m
insert-Elem a t (u ∷ us) m = ground (arith, insert-Elem a t us)

Elem-insert : (a t : Timestamp) (ts : List Timestamp) → (a ≡ t) ⊎ Elem a ts → Elem a (insert t ts)
Elem-insert a t [] m = m
Elem-insert a t (u ∷ us) m = ground (arith, Elem-insert a t us)

pub sorted-Elem : (a : Timestamp) (ts : List Timestamp) → Elem a (sorted ts) → Elem a ts
unfolding sorted
sorted-Elem a [] m = m
sorted-Elem a (t ∷ ts) m = ground (arith, insert-Elem a t (sorted ts) m, sorted-Elem a ts)

pub Elem-sorted : (a : Timestamp) (ts : List Timestamp) → Elem a ts → Elem a (sorted ts)
unfolding sorted
Elem-sorted a [] m = m
Elem-sorted a (t ∷ ts) m = ground (arith, Elem-insert a t (sorted ts), Elem-sorted a ts)

pub Increasing-sorted : (ts : List Timestamp) → Distinct ts → Increasing (sorted ts)
unfolding sorted
Increasing-sorted [] d = tt
Increasing-sorted (t ∷ ts) d =
    Increasing-insert t (sorted ts) (λ m. d.0 (sorted-Elem t ts m)) (Increasing-sorted ts d.1)
