-- ===== src/Ml/Index.antt =====
-- The dictionary of observations by timestamp that the feature builders and the backtest make of a
-- history (`_unique_timestamp_index`, and the comprehensions over `sorted(by_timestamp)`).
pub mod Laws
pub mod Sorted
pub mod Unique
pub mod Collect
use armenian_energy_trading.Base.{
  ◌-◌, Option, none, some, List, [], ◌∷◌, ◌++◌, Bool, true, false, ltb, leb, nat_beq, map,
  if◌then◌else◌,
}
use armenian_energy_trading.Ml.Errors.{Error, overflow_error, key_error, Result, ok, err, ◌>>=◌}
use armenian_energy_trading.Ml.Cohort.{Timestamp}

-- `timedelta(hours=24)` and `timedelta(hours=168)`, in microseconds.
abbrev pub lag_24h : Timestamp
lag_24h = 86_400_000_000

abbrev pub lag_168h : Timestamp
lag_168h = 604_800_000_000

-- `target - lag`; before the least `datetime` Python raises `OverflowError`.
unfoldable pub minus : Timestamp → Timestamp → Result Timestamp
minus target lag = if ltb target lag then err overflow_error else ok (target - lag)

-- A dict keyed by timestamps, in insertion order.
abbrev pub Index : Type 0 → Type 0
Index A = List (Timestamp × A)

module _ {A : Type 0} where
  abbrev pub lookup : Timestamp → Index A → Option A
  lookup k [] = none
  lookup k ((j, a) ∷ d) = if nat_beq k j then some a else lookup k d

  -- `k in d`
  abbrev pub contains_key : Timestamp → Index A → Bool
  contains_key k d = elim (lookup k d) [ none ↦ false | some _ ↦ true ]

  -- `d[k]`
  abbrev pub item : Index A → Timestamp → Result A
  item d k = elim (lookup k d) [ none ↦ err key_error | some a ↦ ok a ]

  abbrev pub keys : Index A → List Timestamp
  keys d = map (λ e. e.0) d

  -- The loop of `_unique_timestamp_index`, with the dict built so far; `stamp` reads the timestamp.
  unfoldable pub index_from : Error → (A → Timestamp) → Index A → List A → Result (Index A)
  index_from duplicate stamp d [] = ok d
  index_from duplicate stamp d (r ∷ rs) =
      let rest = index_from duplicate stamp (d ++ (stamp r, r) ∷ []) rs in
      if contains_key (stamp r) d then err duplicate else rest

  unfoldable pub unique_timestamp_index : Error → (A → Timestamp) → List A → Result (Index A)
  unfolding index_from
  unique_timestamp_index duplicate stamp history = index_from duplicate stamp [] history

abbrev pub insert : Timestamp → List Timestamp → List Timestamp
insert t [] = t ∷ []
insert t (u ∷ us) = if leb t u then t ∷ u ∷ us else u ∷ insert t us

-- `sorted` on timestamps.
unfoldable pub sorted : List Timestamp → List Timestamp
sorted [] = []
sorted (t ∷ ts) = insert t (sorted ts)

module _ {R : Type 0} where
  -- `tuple(row(t) for t in targets if test(t))`
  unfoldable pub collect :
      (Timestamp → Result Bool) → (Timestamp → Result R) → List Timestamp → Result (List R)
  collect test row [] = ok []
  collect test row (t ∷ ts) = test t >>= λ wanted.
      (if wanted
        then row t >>= (λ r. collect test row ts >>= λ rs. ok (r ∷ rs))
        else collect test row ts)
