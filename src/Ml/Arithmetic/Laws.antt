-- ===== src/Ml/Arithmetic/Laws.antt =====
-- The decimal loops raise nothing but decimal signals, and a guarded computation nothing but the error
-- that they are translated to.
use armenian_energy_trading.Base.{◌≡◌, refl, Option, none, some, List, [], ◌∷◌}
use armenian_energy_trading.Decimal.{Decimal}
use armenian_energy_trading.Ml.Errors.{Error, decimal_exception, Result, ok, err, ◌>>=◌, traverse}
use armenian_energy_trading.Ml.Arithmetic.{
  raised, guarded, add, sub, absolute_error, absolute_errors_from,
}

-- A computation that ends with a value or with the given error.
abbrev pub Only : {A : Type 0} → Error → Result A → Type 0
Only e (ok a) = Unit
Only e (err f) = f ≡ e

-- A computation that ends with a value or with an error that satisfies the predicate.
abbrev pub Raises : {A : Type 0} → (Error → Type 0) → Result A → Type 0
Raises P (ok a) = Unit
Raises P (err e) = P e

module _ (P : Error → Type 0) where
  pub Raises->>= :
      {A B : Type 0} (m : Result A) (f : A → Result B)
      → Raises P m
      → ((a : A) → Raises P (f a))
      → Raises P (m >>= f)
  Raises->>= (ok a) f h k = k a
  Raises->>= (err x) f h k = h

  pub Raises-traverse :
      {A B : Type 0} (f : A → Result B) (xs : List A)
      → ((a : A) → Raises P (f a))
      → Raises P (traverse f xs)
  Raises-traverse f [] h = tt
  Raises-traverse f (x ∷ xs) h =
      Raises->>= (f x) _ (h x)
        (λ y. Raises->>= (traverse f xs) _ (Raises-traverse f xs h) (λ ys. tt))

  pub Raises-Only : {A : Type 0} (e : Error) (m : Result A) → P e → Only e m → Raises P m
  Raises-Only e (ok a) p h = tt
  Raises-Only e (err f) p h = rw h p

pub Only->>= :
    {A B : Type 0} (e : Error) (m : Result A) (f : A → Result B)
    → Only e m
    → ((a : A) → Only e (f a))
    → Only e (m >>= f)
Only->>= e (ok a) f h k = k a
Only->>= e (err x) f h k = h

pub raised-Only : {A : Type 0} (o : Option A) → Only decimal_exception (raised o)
raised-Only none = refl
raised-Only (some a) = tt

pub guarded-Only :
    {A : Type 0} (e : Error) (m : Result A) → Only decimal_exception m → Only e (guarded e m)
guarded-Only e (ok a) h = tt
guarded-Only e (err f) h = rw h refl

module _ {D : Type 0} ⦃dec : Decimal D⦄ where
  pub absolute_error-Only : (p : D × D) → Only decimal_exception (absolute_error p)
  unfolding absolute_error
  absolute_error-Only p =
      Only->>= _ (sub p.0 p.1) _ (raised-Only (dec.sub p.0 p.1)) (λ d. raised-Only (dec.absolute d))

  pub absolute_errors_from-Only :
      (t : D) (ps : List (D × D)) → Only decimal_exception (absolute_errors_from t ps)
  unfolding absolute_errors_from
  absolute_errors_from-Only t [] = tt
  absolute_errors_from-Only t (p ∷ ps) =
      Only->>= _ (absolute_error p) _ (absolute_error-Only p) (λ e.
        Only->>= _ (add t e) _ (raised-Only (dec.add t e)) (λ u. absolute_errors_from-Only u ps))
