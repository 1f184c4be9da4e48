-- ===== src/Orchestration/Failures.antt =====
-- What becomes of the exception group of a parallel phase: the modules parallel_ingestion_exception_group,
-- _failure_fact, _failure_classification, _failure_context_resolution, _failure_context_preparation,
-- _failure_decision, _failure_action, _failure_handling, _failure_runtime_handling, and their forecasting
-- twins, which differ in names only. The phase is an argument here.
pub mod Extract
pub mod Handle
use armenian_energy_trading.Base.{
  Bool, true, false, String, ℕ, List, [], ◌∷◌, ◌++◌, Option, some, none, map, length, nat_beq, ltb,
  if◌then◌else◌,
}
use armenian_energy_trading.Orchestration.Text.{strip, is_empty}
use armenian_energy_trading.Orchestration.Exceptions.{
  AgentName, ApplicationError, error_code, ParallelPhase, Message, BaseException, application,
  error, agent_failure, group, Cause, from_exception, Members, no_more, member, Outcome, returned,
  raised, invalid,
}
use armenian_energy_trading.Orchestration.Effects.{M, ◌>>=◌, pure, sync, and_then}
use armenian_energy_trading.Orchestration.State.{WorkflowPhase, WorkflowState, require_non_empty}
use armenian_energy_trading.Orchestration.Transition.{
  fail_parallel_ingestion, fail_after_forecasting,
}

-- A `ParallelIngestionAgentFailure` or `ForecastingAgentFailure` object.
pub record AgentFailure : Type 0 where
  pub agent_name : AgentName
  pub cause : Cause

abbrev pub same_parallel_phase : ParallelPhase → ParallelPhase → Bool
same_parallel_phase ParallelPhase.parallel_ingestion ParallelPhase.parallel_ingestion = true
same_parallel_phase ParallelPhase.forecasting ParallelPhase.forecasting = true
same_parallel_phase _ _ = false

-- `isinstance(item, ParallelIngestionAgentFailure)`, or the other class.
abbrev pub is_attributed : ParallelPhase → BaseException → Bool
is_attributed p (agent_failure q a c) = same_parallel_phase p q
is_attributed p _ = false

-- The loop over `failure.exceptions`, and one round of it.
unfoldable mutual
  pub extract_agent_failures : ParallelPhase → Members → Outcome (List AgentFailure)
  extract_agent_failures p no_more = returned []
  extract_agent_failures p (member item rest) =
      and_then (extract_item p item)
        λ first. and_then (extract_agent_failures p rest) λ extracted. returned (first ++ extracted)

  pub extract_item : ParallelPhase → BaseException → Outcome (List AgentFailure)
  extract_item p (group es) = extract_agent_failures p es
  extract_item p (agent_failure q a c) =
      if same_parallel_phase p q
      then returned (record { agent_name = a; cause = c } ∷ [])
      else invalid (Message.unattributed_failure p)
  extract_item p _ = invalid (Message.unattributed_failure p)

pub record FailureFact : Type 0 where
  pub agent_name : AgentName
  pub error_code : String

-- `_UNEXPECTED_FAILURE_CODE`
abbrev pub unexpected_failure_code : ParallelPhase → String
unexpected_failure_code ParallelPhase.parallel_ingestion = "parallel_ingestion_unexpected_failure"
unexpected_failure_code ParallelPhase.forecasting = "forecasting_unexpected_failure"

-- The fact's `__post_init__`.
unfoldable pub failure_fact : AgentName → String → Outcome FailureFact
failure_fact agent_name code =
    and_then (require_non_empty "error_code" code)
      λ cleaned. returned (record { agent_name = agent_name; error_code = cleaned })

abbrev pub cause_code : ParallelPhase → Cause → String
cause_code p (from_exception (application class message)) = error_code class
cause_code p _ = unexpected_failure_code p

unfoldable pub classify_agent_failure : ParallelPhase → AgentFailure → Outcome FailureFact
unfolding failure_fact
classify_agent_failure p failure = failure_fact failure.agent_name (cause_code p failure.cause)

unfoldable pub classify_agent_failures :
    ParallelPhase → List AgentFailure → Outcome (List FailureFact)
classify_agent_failures p [] = returned []
classify_agent_failures p (failure ∷ failures) =
    and_then (classify_agent_failure p failure)
      λ fact. and_then (classify_agent_failures p failures) λ facts. returned (fact ∷ facts)

pub data FailureAction : Type 0 where
  retry fallback fail : FailureAction

pub record FailurePolicyContext : Type 0 where
  pub phase : WorkflowPhase
  pub error_code : String
  pub attempt_number : ℕ
  pub agent_name : Option AgentName

-- `FailurePolicyContext.__post_init__`, which build_..._failure_policy_context runs.
unfoldable pub build_failure_policy_context :
    WorkflowPhase → String → ℕ → Option AgentName → Outcome FailurePolicyContext
build_failure_policy_context phase code attempt_number agent_name =
    and_then (require_non_empty "error_code" code) λ cleaned.
      if ltb attempt_number 1
      then raised (error "attempt_number must be greater than 0")
      else returned (record {
        phase = phase;
        error_code = cleaned;
        attempt_number = attempt_number;
        agent_name = agent_name;
      })

-- The three ports that the pipeline is given.
pub record FailurePorts (W : Type 0) : Type 0 where
  pub select : List FailureFact → Outcome FailureFact
  pub get_attempt_number : String → M W ℕ
  pub decide : FailurePolicyContext → M W FailureAction

-- `StrictSingle...FailureSelector.select`
unfoldable pub select_strict_single : ParallelPhase → List FailureFact → Outcome FailureFact
select_strict_single p (fact ∷ []) = returned fact
select_strict_single p _ = invalid (Message.exactly_one_fact p)

-- `Initial...AttemptNumberSource.get_attempt_number`
unfoldable pub initial_attempt_number : {W : Type 0} → String → M W ℕ
initial_attempt_number workflow_id = pure 1

-- `Initial...FailurePolicy.decide`
unfoldable pub initial_decide : {W : Type 0} → FailurePolicyContext → M W FailureAction
initial_decide context = pure FailureAction.fail

-- The implementations of the three ports that application/orchestration has.
abbrev pub initial_ports : {W : Type 0} → ParallelPhase → FailurePorts W
initial_ports p = record {
  select = select_strict_single p;
  get_attempt_number = initial_attempt_number;
  decide = initial_decide;
}

abbrev pub fail_transition : ParallelPhase → WorkflowState → Outcome WorkflowState
fail_transition ParallelPhase.parallel_ingestion = fail_parallel_ingestion
fail_transition ParallelPhase.forecasting = fail_after_forecasting

unfoldable pub execute_failure_action :
    ParallelPhase → WorkflowState → FailureAction → Outcome WorkflowState
execute_failure_action p state FailureAction.fail = fail_transition p state
execute_failure_action p state FailureAction.retry = invalid (Message.retry_not_implemented p)
execute_failure_action p state FailureAction.fallback = invalid (Message.fallback_not_implemented p)

module _ {W : Type 0} (ports : FailurePorts W) (p : ParallelPhase) where
  -- `...FailureContextResolutionService.resolve`
  unfoldable pub resolve : String → WorkflowPhase → List FailureFact → M W FailurePolicyContext
  resolve workflow_id phase facts = do
    selected_fact ← sync (ports.select facts)
    attempt_number ← ports.get_attempt_number workflow_id
    sync (
        build_failure_policy_context phase selected_fact.error_code attempt_number
          (some selected_fact.agent_name))

  -- `...FailureContextPreparationService.prepare`
  unfoldable pub prepare : String → WorkflowPhase → Members → M W FailurePolicyContext
  prepare workflow_id phase failure_group = do
    attributed_failures ← sync (extract_agent_failures p failure_group)
    classified_facts ← sync (classify_agent_failures p attributed_failures)
    resolve workflow_id phase classified_facts

  -- `...FailureHandlingService.handle`, with the decision service that only forwards.
  unfoldable pub handle : WorkflowState → FailurePolicyContext → M W WorkflowState
  handle state context = do
    action ← ports.decide context
    sync (execute_failure_action p state action)

  -- `...FailureRuntimeHandlingService.handle`
  unfoldable pub handle_group : WorkflowState → Members → M W WorkflowState
  handle_group state failure_group = do
    context ← prepare state.workflow_id state.phase failure_group
    handle state context
