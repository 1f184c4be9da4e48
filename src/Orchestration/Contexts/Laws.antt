-- ===== src/Orchestration/Contexts/Laws.antt =====
-- The contexts keep the first success of a workflow, and the read-after-write context shows it.
use armenian_energy_trading.Base.{
  ◌≡◌, refl, sym, ◌∙◌, ap, String, Bool, List, [], ◌∷◌, Option, none, some, ◌==◌, text_comparable,
  Bool-cases, Option-cases, ◌⊎◌, inl, inr, true, false,
}
use armenian_energy_trading.Base.Dict.{get, put, get-put, get-put_absent}
use armenian_energy_trading.Orchestration.Exceptions.{
  ApplicationError, ParallelPhase, Message, application, Outcome, returned, raised,
}
use armenian_energy_trading.Orchestration.Contexts.{
  Context, record_success, ReadAfterWrite, published_after, publish, record_and_publish,
  get_success,
}

module _ {Success : Type 0} where
  published_after-shown :
      (k j : String) (s v : Success) (d : List (String × Success)) (o : Option Success)
      → get k d ≡ o
      → get j (published_after k s o d) ≡ some v
      → (get j d ≡ some v) ⊎ ((j ≡ k) × (v ≡ s))
  published_after-shown k j s v d (some u) present h = inl h
  published_after-shown k j s v d none absent h = elim (Bool-cases (k == j)) [
    | inl same ↦
        let e : k ≡ j = (text_comparable.same_iff k j).0 same in
        inr (sym e, cc (rw same at (get-put k j s d)))
    | inr other ↦ inl (sym (rw other at (get-put k j s d)) ∙ h)
  ]

  published_after-keeps :
      (k j : String) (s v : Success) (d : List (String × Success)) (o : Option Success)
      → get k d ≡ o
      → get j d ≡ some v
      → get j (published_after k s o d) ≡ some v
  published_after-keeps k j s v d none absent present = get-put_absent k j s v d absent present
  published_after-keeps k j s v d (some u) there present = present

module _ {Plan Success : Type 0} (equal : Success → Success → Bool) where
  record_success-none :
      (p : ParallelPhase) (k : String) (s : Success) (w : Context Plan Success)
      → get k w.successes ≡ none
      → record_success equal p k s w ≡ (returned tt, record w { successes = put k s w.successes })
  unfolding record_success
  record_success-none p k s w absent = rw absent refl

  record_success-equal :
      (p : ParallelPhase) (k : String) (s v : Success) (w : Context Plan Success)
      → get k w.successes ≡ some v
      → equal v s ≡ true
      → record_success equal p k s w ≡ (returned tt, w)
  unfolding record_success
  record_success-equal p k s v w present same = rw (present, same) refl

  record_success-conflict :
      (p : ParallelPhase) (k : String) (s v : Success) (w : Context Plan Success)
      → get k w.successes ≡ some v
      → equal v s ≡ false
      → record_success equal p k s w
        ≡ (raised (application ApplicationError.conflict (Message.success_conflict p)), w)
  unfolding record_success
  record_success-conflict p k s v w present other = rw (present, other) refl

  -- A success that an in-memory context has for a workflow stays there, whatever is recorded
  -- afterwards for this workflow or for another.
  pub record_success-keeps :
      (p : ParallelPhase) (k j : String) (s v : Success) (w : Context Plan Success)
      → get j w.successes ≡ some v
      → get j (record_success equal p k s w).1.successes ≡ some v
  record_success-keeps p k j s v w present = elim (Option-cases (get k w.successes)) [
    | inl absent ↦
        rw (record_success-none p k s w absent) (get-put_absent k j s v w.successes absent present)
    | inr (u, there) ↦ elim (Bool-cases (equal u s)) [
      | inl same ↦ rw (record_success-equal p k s u w there same) present
      | inr other ↦ rw (record_success-conflict p k s u w there other) present
    ]
  ]

  -- The context has the success itself, or one that it took for equal.
  abbrev pub Accepted : String → Success → Context Plan Success → Type 0
  Accepted k s context =
      (v : Success) × (get k context.successes ≡ some v) × ((v ≡ s) ⊎ (equal v s ≡ true))

  record_success-Accepted :
      (p : ParallelPhase) (k : String) (s : Success) (w w' : Context Plan Success)
      → record_success equal p k s w ≡ (returned tt, w')
      → Accepted k s w'
  record_success-Accepted p k s w w' h = elim (Option-cases (get k w.successes)) [
    | inl absent ↦
        let e : w' ≡ record w { successes = put k s w.successes } =
          cc (record_success-none p k s w absent) in
        (
          s,
          rw e (get-put k k s w.successes ∙ rw ((text_comparable.same_iff k k).1 refl) refl),
          inl refl,
        )
    | inr (u, there) ↦ elim (Bool-cases (equal u s)) [
      | inl same ↦
          let e : w' ≡ w = cc (record_success-equal p k s u w there same) in
          (u, rw e there, inr same)
      | inr other ↦ cc (record_success-conflict p k s u w there other)
    ]
  ]

  -- What has been published was accepted by the wrapped context.
  pub record IsView (w : ReadAfterWrite Plan Success) : Type 0 where
    pub shown : (j : String) (v : Success) → get j w.published ≡ some v → Accepted j v w.context

  -- What was published is published still, and was accepted.
  pub record KeepsPublished (before after : ReadAfterWrite Plan Success) : Type 0 where
    pub view : IsView after
    pub keeps :
        (j : String) (v : Success)
        → get j before.published ≡ some v
        → get j after.published ≡ some v

  Accepted-keeps :
      (j : String) (v : Success) (a b : Context Plan Success)
      → ((u : Success) → get j a.successes ≡ some u → get j b.successes ≡ some u)
      → Accepted j v a
      → Accepted j v b
  Accepted-keeps j v a b keeps (u, there, like) = (u, keeps u there, like)

  publish-KeepsPublished :
      (k : String) (s : Success) (w : ReadAfterWrite Plan Success)
      (r : Outcome (Unit {0}) × Context Plan Success)
      → IsView w
      → ((j : String) (v : Success)
          → get j w.context.successes ≡ some v
          → get j r.1.successes ≡ some v)
      → (r.0 ≡ returned tt → Accepted k s r.1)
      → KeepsPublished w (publish k s w.published r).1
  publish-KeepsPublished k s w (raised e, context) view keeps accepted = record {
    view = record {
      shown = λ j v h. Accepted-keeps j v w.context context (keeps j) (view.shown j v h);
    };
    keeps = λ j v h. h;
  }
  publish-KeepsPublished k s w (returned u, context) view keeps accepted = record {
    view = record {
      shown = λ j v h. elim (published_after-shown k j s v w.published (get k w.published) refl h) [
        | inl before ↦ Accepted-keeps j v w.context context (keeps j) (view.shown j v before)
        | inr (at_k, is_s) ↦ rw (at_k, is_s) (accepted refl)
      ];
    };
    keeps = λ j v h. published_after-keeps k j s v w.published (get k w.published) refl h;
  }

  -- Where everything that is published is, up to the code's equality, what the wrapped context has, this
  -- holds after a success is recorded through the read-after-write context, also when the recording
  -- raises, and every object that was published is still the published one.
  pub record_and_publish-KeepsPublished :
      (k : String) (s : Success) (w : ReadAfterWrite Plan Success)
      → IsView w
      → KeepsPublished w (record_and_publish equal k s w).1
  unfolding record_and_publish
  record_and_publish-KeepsPublished k s w view =
      let r : Outcome (Unit {0}) × Context Plan Success =
        record_success equal ParallelPhase.forecasting k s w.context in
      publish-KeepsPublished k s w r view
        (λ j v h. record_success-keeps ParallelPhase.forecasting k j s v w.context h)
        (λ h.
          record_success-Accepted ParallelPhase.forecasting k s w.context r.1
            (ap (λ o. (o, r.1)) h))

  publish-keeps :
      (k j : String) (s v : Success) (published : List (String × Success))
      (r : Outcome (Unit {0}) × Context Plan Success)
      → get j published ≡ some v
      → get j (publish k s published r).1.published ≡ some v
  publish-keeps k j s v published (raised e, context) present = present
  publish-keeps k j s v published (returned u, context) present =
      published_after-keeps k j s v published (get k published) refl present

  publish-new :
      (k : String) (s : Success) (published : List (String × Success))
      (r : Outcome (Unit {0}) × Context Plan Success) (w' : ReadAfterWrite Plan Success)
      → get k published ≡ none
      → publish k s published r ≡ (returned tt, w')
      → get k w'.published ≡ some s
  publish-new k s published (raised e, context) w' absent h = cc
  publish-new k s published (returned u, context) w' absent h =
      let e : w'.published ≡ published_after k s (get k published) published =
        sym (ap (λ x. x.1.published) h) in
      rw (e, absent) (get-put k k s published ∙ rw ((text_comparable.same_iff k k).1 refl) refl)

  -- The context after the records, one after the other, whether they return or raise.
  abbrev pub record_all :
      List (String × Success) → ReadAfterWrite Plan Success → ReadAfterWrite Plan Success
  record_all [] w = w
  record_all ((k, s) ∷ later) w = record_all later (record_and_publish equal k s w).1

  record_all-keeps :
      (k : String) (s : Success) (later : List (String × Success)) (w : ReadAfterWrite Plan Success)
      → get k w.published ≡ some s
      → get k (record_all later w).published ≡ some s
  unfolding record_and_publish
  record_all-keeps k s [] w present = present
  record_all-keeps k s ((j, t) ∷ later) w present =
      record_all-keeps k s later (record_and_publish equal j t w).1 (
        publish-keeps j k t s w.published
          (record_success equal ParallelPhase.forecasting j t w.context) present)

  -- A success that was recorded without an error for a workflow with none published is the object that
  -- is read back, whatever is recorded through the context afterwards, equal successes included.
  pub get_success-record_and_publish :
      (k : String) (s : Success) (w w' : ReadAfterWrite Plan Success)
      (later : List (String × Success))
      → get k w.published ≡ none
      → record_and_publish equal k s w ≡ (returned tt, w')
      → get_success k (record_all later w') ≡ (returned s, record_all later w')
  unfolding get_success record_and_publish
  get_success-record_and_publish k s w w' later absent h =
      let present : get k w'.published ≡ some s =
        publish-new k s w.published (record_success equal ParallelPhase.forecasting k s w.context)
          w' absent h in
      rw (record_all-keeps k s later w' present) refl
