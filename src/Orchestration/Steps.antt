-- ===== src/Orchestration/Steps.antt =====
-- The three steps that the graph calls: parallel_ingestion_workflow.py, forecasting_workflow.py and
-- regulatory_intelligence_workflow_node.py, over the ports of parallel_ingestion_context.py,
-- forecasting_context.py, regulatory_intelligence_context.py and the execution ports.
use armenian_energy_trading.Base.{String, ℕ, ◌≡◌, arith}
use armenian_energy_trading.Orchestration.Exceptions.{returned}
use armenian_energy_trading.Orchestration.Effects.{M, ◌>>=◌, ◌>>◌, pure}
use armenian_energy_trading.Orchestration.State.{WorkflowState}

-- `ParallelIngestionWorkflowContextPort`
pub record IngestionContextPort (W Plan Success : Type 0) : Type 0 where
  pub resolve_plan : String → M W Plan
  pub record_success : String → Success → M W (Unit {0})

-- `ForecastingWorkflowContextPort`
pub record ForecastingContextPort (W Plan Success : Type 0) : Type 0 where
  pub resolve_plan : WorkflowState → M W Plan
  pub record_success : WorkflowState → Success → M W (Unit {0})

-- `RegulatoryIntelligenceWorkflowRequest`
pub record RegulatoryRequest : Type 0 where
  pub query_text : String
  pub limit : ℕ

-- `RegulatoryIntelligenceWorkflowContextPort`
pub record RegulatoryContextPort (W Answer : Type 0) : Type 0 where
  pub resolve_request : WorkflowState → M W RegulatoryRequest
  pub record_result : WorkflowState → Answer → M W (Unit {0})

module _ {W Plan Success : Type 0} where
  -- `ParallelIngestionWorkflowStep.run`
  unfoldable pub run_ingestion :
      IngestionContextPort W Plan Success → (Plan → M W Success) → WorkflowState → M W WorkflowState
  run_ingestion context execute state = do
    plan ← context.resolve_plan state.workflow_id
    success ← execute plan
    context.record_success state.workflow_id success
    pure state

  -- `ForecastingWorkflowStep.run`
  unfoldable pub run_forecasting :
      ForecastingContextPort W Plan Success
      → (Plan → M W Success)
      → WorkflowState
      → M W WorkflowState
  run_forecasting context execute state = do
    plan ← context.resolve_plan state
    success ← execute plan
    context.record_success state success
    pure state

module _ {W Query Answer : Type 0} where
  -- `RegulatoryIntelligenceQueryExecutionService.execute`, over the preparation of the query and the agent.
  unfoldable pub execute_query :
      (String → ℕ → M W Query) → (Query → M W Answer) → String → ℕ → M W Answer
  execute_query prepare run_agent query_text limit = do
    prepared_query ← prepare query_text limit
    run_agent prepared_query

module _ {W Answer : Type 0} where
  -- `RegulatoryIntelligenceWorkflowStep.run`
  unfoldable pub run_regulatory_step : (String → ℕ → M W Answer) → RegulatoryRequest → M W Answer
  run_regulatory_step execute request = execute request.query_text request.limit

  -- `RegulatoryIntelligenceWorkflowNodeAdapter.run`
  unfoldable pub run_regulatory :
      RegulatoryContextPort W Answer
      → (RegulatoryRequest → M W Answer)
      → WorkflowState
      → M W WorkflowState
  run_regulatory context run_step state = do
    request ← context.resolve_request state
    result ← run_step request
    context.record_result state result
    pure state

module _ {W Plan Success : Type 0} where
  -- A step hands back the state that it was given.
  pub run_ingestion-state :
      (context : IngestionContextPort W Plan Success) (execute : Plan → M W Success)
      (s : WorkflowState) (w : W) {t : WorkflowState} {w' : W}
      → run_ingestion context execute s w ≡ (returned t, w')
      → t ≡ s
  unfolding run_ingestion
  run_ingestion-state context execute s w h = ground arith
