-- ===== src/Ml/Errors.antt =====
-- Errors of the offline machine-learning packages (application/errors.py and the messages of
-- src/energy_trading/ml): a raised `InvalidRequestError` is told by the module that raises it and by
-- the name of its message constant.
use armenian_energy_trading.Base.{◌≡◌, refl, List, [], ◌∷◌}

-- The module whose message constant is raised.
pub data Stage : Type 0 where
  persistence_model backtest persistence_mae : Stage
  features_24h split_24h fit_24h predict_24h mae_24h : Stage
  features_168h split_168h fit_168h predict_168h mae_168h live_ols : Stage
  persistence_vs_trained persistence_vs_lag_24h_168h : Stage
  lag_24h_vs_lag_24h_168h three_way : Stage
  load_persistence_model load_backtest load_persistence_mae load_live_ols : Stage
  load_features_24h load_split_24h load_fit_24h load_predict_24h load_mae_24h : Stage
  load_features_168h load_split_168h load_fit_168h load_predict_168h load_mae_168h : Stage
  load_persistence_vs_trained load_persistence_vs_lag_24h_168h : Stage
  load_lag_24h_vs_lag_24h_168h load_three_way : Stage

-- The name of the constant, `_EMPTY_ROWS_MESSAGE` being `empty_rows`.
pub data Reason : Type 0 where
  empty_rows empty_cases empty_predictions empty_training empty_evaluation too_few_rows : Reason
  mixed_market mixed_currency case_currency_mismatch duplicate_timestamp out_of_order : Reason
  missing_lag duplicate_lag missing_lag_24h duplicate_lag_24h missing_lag_168h : Reason
  duplicate_lag_168h zero_variance singular_design : Reason
  non_finite_input non_finite_fit non_finite_prediction non_finite_values non_finite_mae : Reason
  empty_both empty_persistence empty_trained unequal_length mixed_persistence_market : Reason
  mixed_trained_market market_mismatch persistence_currency_coherence : Reason
  mixed_persistence_currency mixed_trained_currency currency_mismatch : Reason
  duplicate_persistence_timestamp out_of_order_persistence : Reason
  duplicate_trained_timestamp out_of_order_trained timestamp_mismatch actual_mismatch : Reason
  empty_lag_24h_168h mixed_lag_24h_168h_market mixed_lag_24h_168h_currency : Reason
  duplicate_lag_24h_168h_timestamp out_of_order_lag_24h_168h : Reason
  mixed_consumer consumer_mismatch mixed_persistence_consumer mixed_trained_consumer : Reason
  mixed_lag_24h_consumer mixed_lag_24h_168h_consumer negative_prediction non_finite : Reason
  mixed_lag_24h_market mixed_lag_24h_currency : Reason
  empty_all empty_lag_24h duplicate_lag_24h_timestamp out_of_order_lag_24h : Reason

-- `overflow_error`, `key_error` and `index_error` are Python's own exceptions, `decimal_exception` a
-- decimal signal that the source does not translate.
pub data Error : Type 0 where
  invalid_request : Stage → Reason → Error
  overflow_error key_error index_error decimal_exception zero_division_error value_error : Error

-- How a call ends: it raises, or it returns a value.
pub data Result (A : Type 0) : Type 0 where
  err : Error → Result A
  ok : A → Result A

infixl 5 ◌>>=◌ ◌>>◌
abbrev pub ◌>>=◌ : {A B : Type 0} → Result A → (A → Result B) → Result B
err raised >>= next = err raised
ok value >>= next = next value

-- A guard, then the rest of the body.
abbrev pub ◌>>◌ : {B : Type 0} → Result (Unit {0}) → Result B → Result B
err raised >> rest = err raised
ok _ >> rest = rest

module _ {A B : Type 0} where
  -- `tuple(f(x) for x in xs)`
  abbrev pub traverse : (A → Result B) → List A → Result (List B)
  traverse f [] = ok []
  traverse f (x ∷ xs) = f x >>= λ y. traverse f xs >>= λ ys. ok (y ∷ ys)

  -- A call whose continuation returned has itself returned.
  pub >>=-eq-ok :
      (call : Result A) (next : A → Result B) {result : B}
      → (call >>= next) ≡ ok result
      → (value : A) × (call ≡ ok value) × (next value ≡ ok result)
  >>=-eq-ok (err raised) next returned = cc
  >>=-eq-ok (ok value) next returned = (value, refl, returned)

module _ {B : Type 0} where
  pub >>-eq-ok :
      (guard : Result (Unit {0})) (rest : Result B) {result : B}
      → (guard >> rest) ≡ ok result
      → (guard ≡ ok tt) × (rest ≡ ok result)
  >>-eq-ok (err raised) rest returned = cc
  >>-eq-ok (ok tt) rest returned = (refl, returned)

pub ok-injective : {A : Type 0} {a b : A} → ok a ≡ ok b → a ≡ b
ok-injective h = cc

module _ {A B : Type 0} where
  -- A relation holds between two sequences place by place.
  abbrev pub Each : (A → B → Type 0) → List A → List B → Type 0
  Each P [] [] = Unit
  Each P (x ∷ xs) (y ∷ ys) = P x y × Each P xs ys
  Each P _ _ = ⊥

  pub traverse-Each :
      (f : A → Result B) (xs : List A) (ys : List B)
      → traverse f xs ≡ ok ys
      → Each (λ x y. f x ≡ ok y) xs ys
  traverse-Each f [] [] h = tt
  traverse-Each f [] (y ∷ ys) h = cc
  traverse-Each f (x ∷ xs) [] h =
      let (y, made, h1) = >>=-eq-ok (f x) _ h in
      let (zs, rest, h2) = >>=-eq-ok (traverse f xs) _ h1 in cc
  traverse-Each f (x ∷ xs) (y ∷ ys) h =
      let (z, made, h1) = >>=-eq-ok (f x) _ h in
      let (zs, rest, h2) = >>=-eq-ok (traverse f xs) _ h1 in (cc, traverse-Each f xs ys (cc))
