-- ===== src/Orchestration/Failures/Handle.antt =====
-- The failure pipeline with the ports that application/orchestration implements, beside a verdict on the
-- leaves of the exception group.
use armenian_energy_trading.Base.{
  ◌≡◌, refl, sym, ap, ◌∙◌, inl, inr, List, [], ◌∷◌, map, arith, false, all, length, String, ℕ, suc,
  length-map, nat_beq, if◌then◌else◌, Bool-cases,
}
use armenian_energy_trading.Orchestration.Text.{strip, lstrip, rstrip, is_space}
use armenian_energy_trading.Orchestration.Exceptions.{
  ParallelPhase, Message, BaseException, application, error, cancelled, agent_failure, group,
  application_error, invalid_request, resource_not_found, conflict, dependency_unavailable, Cause,
  no_cause, from_exception, Members, Outcome, returned, invalid,
}
use armenian_energy_trading.Orchestration.Effects.{◌>>=◌}
use armenian_energy_trading.Orchestration.State.{
  WorkflowPhase, WorkflowStatus, WorkflowState, IsSnapshot, require_non_empty,
}
use armenian_energy_trading.Orchestration.State.Laws.{replace-IsSnapshot}
use armenian_energy_trading.Orchestration.Transition.{
  fail_parallel_ingestion, fail_after_forecasting,
}
use armenian_energy_trading.Orchestration.Failures.{
  AgentFailure, FailureFact, is_attributed, cause_code, failure_fact, classify_agent_failure,
  classify_agent_failures, select_strict_single, initial_attempt_number, initial_decide,
  initial_ports, build_failure_policy_context, fail_transition, execute_failure_action, resolve,
  prepare, handle, handle_group,
}
use armenian_energy_trading.Orchestration.Failures.Extract.{
  leaves, failure_exception, extract-flat, flat-all, flat-other,
}

abbrev pub phase_of : ParallelPhase → WorkflowPhase
phase_of ParallelPhase.parallel_ingestion = WorkflowPhase.ingestion
phase_of ParallelPhase.forecasting = WorkflowPhase.forecasting

-- One attributed leaf ends the phase; several, or a leaf that no agent of the phase raised, are refused.
abbrev pub verdict : ParallelPhase → WorkflowState → List BaseException → Outcome WorkflowState
verdict p s es =
    if all (is_attributed p) es
    then (if nat_beq (length es) 1
        then returned (record s { status = WorkflowStatus.failed })
        else invalid (Message.exactly_one_fact p))
    else invalid (Message.unattributed_failure p)

abbrev fact_of : ParallelPhase → AgentFailure → FailureFact
fact_of p f = record { agent_name = f.agent_name; error_code = cause_code p f.cause }

-- The code of a cause is a clean text.
cause_code-clean :
    (p : ParallelPhase) (field : String) (c : Cause)
    → require_non_empty field (cause_code p c) ≡ returned (cause_code p c)
unfolding require_non_empty strip lstrip rstrip is_space
cause_code-clean p field (from_exception (application application_error m)) = refl
cause_code-clean p field (from_exception (application invalid_request m)) = refl
cause_code-clean p field (from_exception (application resource_not_found m)) = refl
cause_code-clean p field (from_exception (application conflict m)) = refl
cause_code-clean p field (from_exception (application dependency_unavailable m)) = refl
cause_code-clean ParallelPhase.parallel_ingestion field (from_exception (error t)) = refl
cause_code-clean ParallelPhase.forecasting field (from_exception (error t)) = refl
cause_code-clean ParallelPhase.parallel_ingestion field (from_exception cancelled) = refl
cause_code-clean ParallelPhase.forecasting field (from_exception cancelled) = refl
cause_code-clean ParallelPhase.parallel_ingestion field (from_exception (agent_failure q a d)) =
    refl
cause_code-clean ParallelPhase.forecasting field (from_exception (agent_failure q a d)) = refl
cause_code-clean ParallelPhase.parallel_ingestion field (from_exception (group es)) = refl
cause_code-clean ParallelPhase.forecasting field (from_exception (group es)) = refl
cause_code-clean ParallelPhase.parallel_ingestion field no_cause = refl
cause_code-clean ParallelPhase.forecasting field no_cause = refl

-- The classifier never raises.
classify_agent_failures-total :
    (p : ParallelPhase) (fs : List AgentFailure)
    → classify_agent_failures p fs ≡ returned (map (fact_of p) fs)
unfolding classify_agent_failures classify_agent_failure failure_fact
classify_agent_failures-total p [] = refl
classify_agent_failures-total p (f ∷ fs) =
    rw (cause_code-clean p "error_code" f.cause, classify_agent_failures-total p fs) refl

-- The terminal transition of a running phase.
pub fail_transition-running :
    (p : ParallelPhase) (s : WorkflowState)
    → IsSnapshot s
    → s.phase ≡ phase_of p
    → s.status ≡ WorkflowStatus.running
    → fail_transition p s ≡ returned (record s { status = WorkflowStatus.failed })
unfolding fail_parallel_ingestion fail_after_forecasting
fail_transition-running ParallelPhase.parallel_ingestion s valid at_phase at_status =
    grind (arith, replace-IsSnapshot s WorkflowPhase.ingestion WorkflowStatus.failed valid)
fail_transition-running ParallelPhase.forecasting s valid at_phase at_status =
    grind (arith, replace-IsSnapshot s WorkflowPhase.forecasting WorkflowStatus.failed valid)

-- What the pipeline does with the facts of the leaves.
abbrev decided : ParallelPhase → WorkflowState → List FailureFact → Outcome WorkflowState
decided p s facts =
    if nat_beq (length facts) 1
    then returned (record s { status = WorkflowStatus.failed })
    else invalid (Message.exactly_one_fact p)

two_or_more : (n : ℕ) → nat_beq (suc (suc n)) 1 ≡ false
two_or_more n = ground arith

module _ {W : Type 0} (p : ParallelPhase) (s : WorkflowState) (w : W) (valid : IsSnapshot s)
    (at_phase : s.phase ≡ phase_of p) (at_status : s.status ≡ WorkflowStatus.running) where
  handle_facts :
      (fs : List AgentFailure)
      → ◌>>=◌
          (resolve (initial_ports p) p s.workflow_id s.phase (map (fact_of p) fs))
          (handle (initial_ports p) p s)
          w
        ≡ (decided p s (map (fact_of p) fs), w)
  unfolding resolve handle select_strict_single initial_attempt_number initial_decide
      build_failure_policy_context execute_failure_action
  handle_facts [] = refl
  handle_facts (f ∷ []) =
      rw
        (
          cause_code-clean p "error_code" f.cause,
          fail_transition-running p s valid at_phase at_status,
        )
        refl
  handle_facts (f ∷ g ∷ fs) = rw (two_or_more (length (map (fact_of p) fs))) refl

  -- For a snapshot of a running parallel phase, the runtime handler with the strict selector, the
  -- first attempt and the failing policy marks the phase failed when the group has exactly one
  -- leaf and an agent of the phase raised it, refuses any other number of such leaves, and refuses
  -- a leaf of another kind.
  pub handle_group-verdict :
      (es : Members) → handle_group (initial_ports p) p s es w ≡ (verdict p s (leaves es), w)
  unfolding handle_group prepare
  handle_group-verdict es = elim (Bool-cases (all (is_attributed p) (leaves es))) [
    | inl mine ↦
        let (fs, made, same) = flat-all p (leaves es) mine in
        let count : length (leaves es) ≡ length (map (fact_of p) fs) =
          ap length same ∙ length-map (failure_exception p) fs ∙ sym (length-map (fact_of p) fs) in
        rw (extract-flat p es, made, classify_agent_failures-total p fs, mine, count)
          (handle_facts fs)
    | inr other ↦ rw (extract-flat p es, flat-other p (leaves es) other, other) refl
  ]
