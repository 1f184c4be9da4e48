-- ===== src/Orchestration/Failures/Extract.antt =====
-- extract_..._agent_failures beside the leaves of the group, and what the classifier makes of them.
use armenian_energy_trading.Base.{
  ◌≡◌, refl, sym, ap, ◌∙◌, ◌↔◌, inl, inr, List, [], ◌∷◌, ◌++◌, map, true, false, all, Bool-cases,
  if◌then◌else◌,
}
use armenian_energy_trading.Orchestration.Exceptions.{
  AgentName, ParallelPhase, Message, BaseException, application, error, cancelled, agent_failure,
  group, Cause, Members, no_more, member, Outcome, returned, raised, invalid,
}
use armenian_energy_trading.Orchestration.Effects.{and_then, returned-injective}
use armenian_energy_trading.Orchestration.Failures.{
  AgentFailure, same_parallel_phase, is_attributed, extract_agent_failures, extract_item,
}

-- The exceptions of a group that are no groups, from left to right.
mutual
  pub leaves : Members → List BaseException
  leaves no_more = []
  leaves (member item rest) = item_leaves item ++ leaves rest

  pub item_leaves : BaseException → List BaseException
  item_leaves (group es) = leaves es
  item_leaves e = e ∷ []

pub leaves-single :
    (p : ParallelPhase) (a : AgentName) (c : Cause)
    → leaves (member (agent_failure p a c) no_more) ≡ agent_failure p a c ∷ []
unfolding leaves item_leaves
leaves-single p a c = refl

abbrev pub failure_exception : ParallelPhase → AgentFailure → BaseException
failure_exception p f = agent_failure p f.agent_name f.cause

-- The loop on a group without groups in it.
abbrev flat_item : ParallelPhase → BaseException → Outcome (List AgentFailure)
flat_item p (agent_failure q a c) =
    if same_parallel_phase p q
    then returned (record { agent_name = a; cause = c } ∷ [])
    else invalid (Message.unattributed_failure p)
flat_item p _ = invalid (Message.unattributed_failure p)

pub flat : ParallelPhase → List BaseException → Outcome (List AgentFailure)
flat p [] = returned []
flat p (e ∷ es) = and_then (flat_item p e) λ f. and_then (flat p es) λ fs. returned (f ++ fs)

append_assoc {ℓ} : {A : Type ℓ} (xs ys zs : List A) → (xs ++ ys) ++ zs ≡ xs ++ (ys ++ zs)
append_assoc [] ys zs = refl
append_assoc (x ∷ xs) ys zs = ap (λ l. x ∷ l) (append_assoc xs ys zs)

append-nil {ℓ} : {A : Type ℓ} (xs : List A) → xs ++ [] ≡ xs
append-nil [] = refl
append-nil (x ∷ xs) = ap (λ l. x ∷ l) (append-nil xs)

abbrev both :
    Outcome (List AgentFailure) → Outcome (List AgentFailure) → Outcome (List AgentFailure)
both m n = and_then m λ a. and_then n λ b. returned (a ++ b)

both_assoc : (l m n : Outcome (List AgentFailure)) → both (both l m) n ≡ both l (both m n)
both_assoc (returned a) (returned b) (returned c) = ap returned (append_assoc a b c)
both_assoc (returned a) (returned b) (raised e) = refl
both_assoc (returned a) (raised e) n = refl
both_assoc (raised e) m n = refl

both_nil : (m : Outcome (List AgentFailure)) → both m (returned []) ≡ m
both_nil (returned a) = ap returned (append-nil a)
both_nil (raised e) = refl

both_nil_left : (m : Outcome (List AgentFailure)) → both (returned []) m ≡ m
both_nil_left (returned a) = refl
both_nil_left (raised e) = refl

flat-append :
    (p : ParallelPhase) (xs ys : List BaseException)
    → flat p (xs ++ ys) ≡ both (flat p xs) (flat p ys)
unfolding flat
flat-append p [] ys = sym (both_nil_left (flat p ys))
flat-append p (x ∷ xs) ys =
    ap (both (flat_item p x)) (flat-append p xs ys)
    ∙ sym (both_assoc (flat_item p x) (flat p xs) (flat p ys))

mutual
  unfolding leaves item_leaves extract_agent_failures extract_item flat

  pub extract-flat :
      (p : ParallelPhase) (es : Members) → extract_agent_failures p es ≡ flat p (leaves es)
  extract-flat p no_more = refl
  extract-flat p (member item rest) =
      rw (extract_item-flat p item, extract-flat p rest)
        (sym (flat-append p (item_leaves item) (leaves rest)))

  extract_item-flat :
      (p : ParallelPhase) (e : BaseException) → extract_item p e ≡ flat p (item_leaves e)
  extract_item-flat p (group es) = extract-flat p es
  extract_item-flat p (agent_failure q a c) = sym (both_nil _)
  extract_item-flat p (application c m) = refl
  extract_item-flat p (error t) = refl
  extract_item-flat p cancelled = refl

same_parallel_phase-eq : (p q : ParallelPhase) → same_parallel_phase p q ≡ true → q ≡ p
same_parallel_phase-eq ParallelPhase.parallel_ingestion ParallelPhase.parallel_ingestion h = refl
same_parallel_phase-eq ParallelPhase.forecasting ParallelPhase.forecasting h = refl
same_parallel_phase-eq ParallelPhase.parallel_ingestion ParallelPhase.forecasting h = cc
same_parallel_phase-eq ParallelPhase.forecasting ParallelPhase.parallel_ingestion h = cc

item_attributed :
    (p : ParallelPhase) (e : BaseException)
    → is_attributed p e ≡ true
    → (f : AgentFailure) × (e ≡ failure_exception p f) × (flat_item p e ≡ returned (f ∷ []))
item_attributed p (agent_failure q a c) h =
    (record { agent_name = a; cause = c }, rw (same_parallel_phase-eq p q h) refl, rw h refl)
item_attributed p (application c m) h = cc
item_attributed p (error t) h = cc
item_attributed p cancelled h = cc
item_attributed p (group es) h = cc

item_other :
    (p : ParallelPhase) (e : BaseException)
    → is_attributed p e ≡ false
    → flat_item p e ≡ invalid (Message.unattributed_failure p)
item_other p (agent_failure q a c) h = rw h refl
item_other p (application c m) h = refl
item_other p (error t) h = refl
item_other p cancelled h = refl
item_other p (group es) h = refl

-- Exceptions that are all attributed are their failure objects.
pub flat-all :
    (p : ParallelPhase) (es : List BaseException)
    → all (is_attributed p) es ≡ true
    → (fs : List AgentFailure) × (flat p es ≡ returned fs) × (es ≡ map (failure_exception p) fs)
unfolding flat
flat-all p [] h = ([], refl, refl)
flat-all p (e ∷ es) h = elim (Bool-cases (is_attributed p e)) [
  | inl mine ↦
      let (f, same, made) = item_attributed p e mine in
      let (fs, made', same') = flat-all p es (rw mine at h) in (f ∷ fs, rw (made, made') refl, cc)
  | inr other ↦ cc
]

-- An unattributed one is what the loop raises for.
pub flat-other :
    (p : ParallelPhase) (es : List BaseException)
    → all (is_attributed p) es ≡ false
    → flat p es ≡ invalid (Message.unattributed_failure p)
unfolding flat
flat-other p [] h = cc
flat-other p (e ∷ es) h = elim (Bool-cases (is_attributed p e)) [
  | inl mine ↦
      let (f, same, made) = item_attributed p e mine in
      rw (made, flat-other p es (rw mine at h)) refl
  | inr other ↦ rw (item_other p e other) refl
]

pub same_parallel_phase_refl : (p : ParallelPhase) → same_parallel_phase p p ≡ true
same_parallel_phase_refl ParallelPhase.parallel_ingestion = refl
same_parallel_phase_refl ParallelPhase.forecasting = refl

flat-map :
    (p : ParallelPhase) (fs : List AgentFailure)
    → flat p (map (failure_exception p) fs) ≡ returned fs
unfolding flat
flat-map p [] = refl
flat-map p (f ∷ fs) = rw (same_parallel_phase_refl p, flat-map p fs) refl

-- The extraction returns given failure objects exactly when the leaves of the group are these
-- failures, from left to right.
pub extract_agent_failures-leaves :
    (p : ParallelPhase) (es : Members) (fs : List AgentFailure)
    → (extract_agent_failures p es ≡ returned fs) ↔ (leaves es ≡ map (failure_exception p) fs)
extract_agent_failures-leaves p es fs = (sound, complete)
  where
    sound : extract_agent_failures p es ≡ returned fs → leaves es ≡ map (failure_exception p) fs
    sound h =
        let made : flat p (leaves es) ≡ returned fs = sym (extract-flat p es) ∙ h in
        elim (Bool-cases (all (is_attributed p) (leaves es))) [
          | inl mine ↦
              let (gs, made', same) = flat-all p (leaves es) mine in
              let e : gs ≡ fs = returned-injective (sym made' ∙ made) in rw (← e) same
          | inr other ↦ cc (flat-other p (leaves es) other)
        ]

    complete : leaves es ≡ map (failure_exception p) fs → extract_agent_failures p es ≡ returned fs
    complete h = extract-flat p es ∙ ap (flat p) h ∙ flat-map p fs
