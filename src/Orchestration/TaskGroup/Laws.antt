-- ===== src/Orchestration/TaskGroup/Laws.antt =====
-- What the executors return or raise, whatever the order in which the agents end.
use armenian_energy_trading.Base.{
  ◌≡◌, ◌≢◌, refl, ◌∙◌, sym, subst, Bool, false, not, ◌&&◌, List, [], ◌∷◌, ◌++◌, map, Option, none,
  some, Elem, Distinct, All, inl, inr, Bool-cases,
}
use armenian_energy_trading.Orchestration.Exceptions.{AgentName, BaseException}
use armenian_energy_trading.Orchestration.TaskGroup.{
  Schedule, is_cancelled, is_nil, task_done, task_errors,
}

abbrev pub tasks : Schedule → List AgentName
tasks schedule = map (λ (entry : AgentName × Bool). entry.0) schedule

All-snoc :
    (P : BaseException → Type 0) (errors : List BaseException) (e : BaseException)
    → All P errors
    → P e
    → All P (errors ++ e ∷ [])
All-snoc P [] e all h = (h, tt)
All-snoc P (x ∷ xs) e all h = (all.0, All-snoc P xs e all.1 h)

task_done-All :
    (P : BaseException → Type 0) (errors : List BaseException) (obeys : Bool)
    (o : Option BaseException)
    → ((e : BaseException) → o ≡ some e → P e)
    → All P errors
    → All P (task_done errors obeys o)
unfolding task_done
task_done-All P errors obeys none h all = all
task_done-All P errors obeys (some e) h all = elim (Bool-cases (not (is_nil errors) && obeys)) [
  | inl ended ↦ rw ended all
  | inr free ↦ elim (Bool-cases (is_cancelled e)) [
    | inl quiet ↦ rw (free, quiet) all
    | inr real ↦ rw (free, real) (All-snoc P errors e all (h e refl))
  ]
]

module _ (own : AgentName → Option BaseException) where
  -- Tasks that all return leave no exception.
  pub task_errors-none :
      (schedule : Schedule) (errors : List BaseException)
      → ((a : AgentName) → Elem a (tasks schedule) → own a ≡ none)
      → task_errors own schedule errors ≡ errors
  unfolding task_errors task_done
  task_errors-none [] errors h = refl
  task_errors-none ((a, obeys) ∷ rest) errors h =
      rw (h a (inl refl)) (task_errors-none rest errors (λ b m. h b (inr m)))

  -- One task that raises, among tasks that return, leaves its exception.
  pub task_errors-single :
      (schedule : Schedule) (x : AgentName) (e : BaseException)
      → own x ≡ some e
      → is_cancelled e ≡ false
      → ((a : AgentName) → a ≢ x → own a ≡ none)
      → Distinct (tasks schedule)
      → Elem x (tasks schedule)
      → task_errors own schedule [] ≡ e ∷ []
  unfolding task_errors task_done
  task_errors-single [] x e fails real others distinct m = absurd m
  task_errors-single ((a, obeys) ∷ rest) x e fails real others distinct (inl same) =
      rw (← same, fails, real)
        (task_errors-none rest (e ∷ []) (λ b m.
          others b (λ (eq : b ≡ x). distinct.0 (subst (λ z. Elem z (tasks rest)) (eq ∙ same) m))))
  task_errors-single ((a, obeys) ∷ rest) x e fails real others distinct (inr m) =
      rw (others a (λ (eq : a ≡ x). distinct.0 (subst (λ z. Elem z (tasks rest)) (sym eq) m)))
        (task_errors-single rest x e fails real others distinct.1 m)

  -- The exceptions are those of tasks of the schedule.
  pub task_errors-own :
      (P : BaseException → Type 0) (schedule : Schedule) (errors : List BaseException)
      → ((a : AgentName) (e : BaseException) → own a ≡ some e → P e)
      → All P errors
      → All P (task_errors own schedule errors)
  unfolding task_errors task_done
  task_errors-own P [] errors h all = all
  task_errors-own P ((a, obeys) ∷ rest) errors h all =
      task_errors-own P rest (task_done errors obeys (own a)) h
        (task_done-All P errors obeys (own a) (h a) all)
