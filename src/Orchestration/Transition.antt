-- ===== src/Orchestration/Transition.antt =====
-- The replacements of the control state: parallel_ingestion_transition.py, forecasting_transition.py,
-- parallel_ingestion_failure_transition.py and forecasting_failure_transition.py.
use armenian_energy_trading.Base.{Bool, true, false, ◌&&◌, if◌then◌else◌}
use armenian_energy_trading.Orchestration.Exceptions.{Outcome, ParallelPhase, Message, invalid}
use armenian_energy_trading.Orchestration.State.{
  WorkflowPhase, WorkflowStatus, WorkflowState, replace,
}

-- `phase is other`
abbrev pub same_phase : WorkflowPhase → WorkflowPhase → Bool
same_phase WorkflowPhase.contract WorkflowPhase.contract = true
same_phase WorkflowPhase.ingestion WorkflowPhase.ingestion = true
same_phase WorkflowPhase.forecasting WorkflowPhase.forecasting = true
same_phase WorkflowPhase.risk_and_bid WorkflowPhase.risk_and_bid = true
same_phase WorkflowPhase.settlement WorkflowPhase.settlement = true
same_phase _ _ = false

abbrev pub same_status : WorkflowStatus → WorkflowStatus → Bool
same_status WorkflowStatus.pending WorkflowStatus.pending = true
same_status WorkflowStatus.running WorkflowStatus.running = true
same_status WorkflowStatus.succeeded WorkflowStatus.succeeded = true
same_status WorkflowStatus.failed WorkflowStatus.failed = true
same_status _ _ = false

abbrev pub is_at : WorkflowState → WorkflowPhase → WorkflowStatus → Bool
is_at s phase status = same_phase s.phase phase && same_status s.status status

unfoldable pub advance_after_parallel_ingestion : WorkflowState → Outcome WorkflowState
advance_after_parallel_ingestion s =
    if is_at s WorkflowPhase.ingestion WorkflowStatus.running
    then replace s WorkflowPhase.forecasting WorkflowStatus.running
    else invalid (Message.invalid_success_transition ParallelPhase.parallel_ingestion)

unfoldable pub fail_parallel_ingestion : WorkflowState → Outcome WorkflowState
fail_parallel_ingestion s =
    if is_at s WorkflowPhase.ingestion WorkflowStatus.running
    then replace s WorkflowPhase.ingestion WorkflowStatus.failed
    else invalid (Message.invalid_failure_transition ParallelPhase.parallel_ingestion)

unfoldable pub advance_after_forecasting : WorkflowState → Outcome WorkflowState
advance_after_forecasting s =
    if is_at s WorkflowPhase.forecasting WorkflowStatus.running
    then replace s WorkflowPhase.risk_and_bid WorkflowStatus.running
    else invalid (Message.invalid_success_transition ParallelPhase.forecasting)

unfoldable pub fail_after_forecasting : WorkflowState → Outcome WorkflowState
fail_after_forecasting s =
    if is_at s WorkflowPhase.forecasting WorkflowStatus.running
    then replace s WorkflowPhase.forecasting WorkflowStatus.failed
    else invalid (Message.invalid_failure_transition ParallelPhase.forecasting)
