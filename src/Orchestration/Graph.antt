-- ===== src/Orchestration/Graph.antt =====
-- application/orchestration/graph.py: the nodes and the edges that `build_workflow_graph` adds.
pub mod Invoke
pub mod Steps
pub mod Reach
pub mod Runtime
use armenian_energy_trading.Base.{◌≡◌, if◌then◌else◌}
use armenian_energy_trading.Orchestration.Exceptions.{
  ParallelPhase, Message, BaseException, group, Members, Outcome, returned, raised, invalid,
}
use armenian_energy_trading.Orchestration.Effects.{M, ◌>>=◌, pure, sync}
use armenian_energy_trading.Orchestration.State.{WorkflowPhase, WorkflowStatus, WorkflowState}
use armenian_energy_trading.Orchestration.Transition.{
  is_at, advance_after_parallel_ingestion, advance_after_forecasting,
}
use armenian_energy_trading.Orchestration.Failures.{FailurePorts, handle_group}

pub data Node : Type 0 where
  workflow_entry regulatory_intelligence parallel_ingestion : Node
  parallel_ingestion_success_transition forecasting forecasting_success_transition : Node

-- Where an edge leads: to a node, or to END.
pub data Target : Type 0 where
  node : Node → Target
  end_graph : Target

-- What `build_workflow_graph` is given.
pub record Services (W : Type 0) : Type 0 where
  pub regulatory_intelligence_node : WorkflowState → M W WorkflowState
  pub parallel_ingestion_step : WorkflowState → M W WorkflowState
  pub parallel_ingestion_failures : FailurePorts W
  pub forecasting_step : WorkflowState → M W WorkflowState
  pub forecasting_failures : FailurePorts W

-- `_route_after_workflow_entry`
unfoldable pub route_after_workflow_entry : WorkflowState → Outcome Target
route_after_workflow_entry state =
    if is_at state WorkflowPhase.contract WorkflowStatus.running
    then returned (node Node.regulatory_intelligence)
    else if is_at state WorkflowPhase.ingestion WorkflowStatus.running
    then returned (node Node.parallel_ingestion)
    else if is_at state WorkflowPhase.forecasting WorkflowStatus.running
    then returned (node Node.forecasting)
    else invalid Message.invalid_entry_route

-- `_route_after_parallel_ingestion`
unfoldable pub route_after_parallel_ingestion : WorkflowState → Outcome Target
route_after_parallel_ingestion state =
    if is_at state WorkflowPhase.ingestion WorkflowStatus.running
    then returned (node Node.parallel_ingestion_success_transition)
    else if is_at state WorkflowPhase.ingestion WorkflowStatus.failed
    then returned end_graph
    else invalid Message.invalid_post_phase2_route

-- `_route_after_forecasting`
unfoldable pub route_after_forecasting : WorkflowState → Outcome Target
route_after_forecasting state =
    if is_at state WorkflowPhase.forecasting WorkflowStatus.running
    then returned (node Node.forecasting_success_transition)
    else if is_at state WorkflowPhase.forecasting WorkflowStatus.failed
    then returned end_graph
    else invalid Message.invalid_post_phase3_route

-- `except BaseExceptionGroup as failure_group`
abbrev pub except_group : {W A : Type 0} → (Members → M W A) → Outcome A × W → Outcome A × W
except_group handler (raised (group es), world) = handler es world
except_group handler (returned value, world) = (returned value, world)
except_group handler (raised e, world) = (raised e, world)

module _ {W : Type 0} (services : Services W) where
  -- The `__call__` of each node class. The update `{}` of the entry changes no field.
  unfoldable pub body : Node → WorkflowState → M W WorkflowState
  body Node.workflow_entry state world = (returned state, world)
  body Node.regulatory_intelligence state world = services.regulatory_intelligence_node state world
  body Node.parallel_ingestion state world =
      except_group
        (handle_group services.parallel_ingestion_failures ParallelPhase.parallel_ingestion state)
        (services.parallel_ingestion_step state world)
  body Node.parallel_ingestion_success_transition state world =
      (advance_after_parallel_ingestion state, world)
  body Node.forecasting state world =
      except_group (handle_group services.forecasting_failures ParallelPhase.forecasting state)
        (services.forecasting_step state world)
  body Node.forecasting_success_transition state world = (advance_after_forecasting state, world)

  -- The edges, plain and conditional.
  unfoldable pub edge : Node → WorkflowState → Outcome Target
  edge Node.workflow_entry state = route_after_workflow_entry state
  edge Node.regulatory_intelligence state = returned end_graph
  edge Node.parallel_ingestion state = route_after_parallel_ingestion state
  edge Node.parallel_ingestion_success_transition state = returned end_graph
  edge Node.forecasting state = route_after_forecasting state
  edge Node.forecasting_success_transition state = returned end_graph

  -- What LangGraph documents of a compiled graph: a run at END is over, and a run at a node executes the
  -- node, takes the state that it returns, and goes on where the node's edge leads.
  pub record FollowsEdges (run : Target → WorkflowState → M W WorkflowState) : Type 0 where
    pub run_end : (s : WorkflowState) (w : W) → run end_graph s w ≡ (returned s, w)
    pub run_node :
        (n : Node) (s : WorkflowState) (w : W)
        → run (node n) s w ≡ (body n s >>= λ t. sync (edge n t) >>= λ next. run next t) w

  -- Calling the compiled graph: START leads to the entry.
  abbrev pub invoke :
      (Target → WorkflowState → M W WorkflowState) → WorkflowState → M W WorkflowState
  invoke run state = run (node Node.workflow_entry) state
