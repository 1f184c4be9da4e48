-- ===== src/Orchestration/Flow.antt =====
-- The graph over the ingestion step and its executor: what a call does when the agents answer, and when
-- one of them fails.
use armenian_energy_trading.Base.{◌≡◌, ◌≢◌, refl, ◌∙◌, ap, none, some, Elem, Distinct}
use armenian_energy_trading.Orchestration.Exceptions.{
  AgentName, ParallelPhase, BaseException, agent_failure, group, from_exception, no_more, member,
  Outcome, returned, raised,
}
use armenian_energy_trading.Orchestration.Effects.{M}
use armenian_energy_trading.Orchestration.State.{
  WorkflowPhase, WorkflowStatus, WorkflowState, IsSnapshot,
}
use armenian_energy_trading.Orchestration.Failures.Extract.{leaves-single}
use armenian_energy_trading.Orchestration.Steps.{
  IngestionContextPort, run_ingestion, run_ingestion-state,
}
use armenian_energy_trading.Orchestration.TaskGroup.{
  Schedule, ParallelIngestionPlan, ParallelIngestionSuccess, ingestion_failures, execute_ingestion,
}
use armenian_energy_trading.Orchestration.TaskGroup.Laws.{tasks}
use armenian_energy_trading.Orchestration.TaskGroup.Execute.{
  Answers, execute_ingestion-Answers, execute_ingestion-single,
}
use armenian_energy_trading.Orchestration.Graph.{Target, FollowsEdges, invoke}
use armenian_energy_trading.Orchestration.Graph.Invoke.{
  Keeps, phase_result, initial_services, invoke-phase,
}

Keeps-of :
    {W : Type 0} (s : WorkflowState) (o : Outcome WorkflowState × W)
    → ((t : WorkflowState) (w : W) → o ≡ (returned t, w) → t ≡ s)
    → Keeps s o
Keeps-of s (returned t, w) h = h t w refl
Keeps-of s (raised e, w) h = tt

module _ {Request Reply : AgentName → Type 0}
    (agents : (a : AgentName) → Request a → Outcome (Reply a)) {W : Type 0}
    (context : IngestionContextPort W
      (ParallelIngestionPlan Request Reply)
      (ParallelIngestionSuccess Request Reply))
    (schedule : Schedule) where
  -- The ingestion step with the concurrent executor; the schedule is that of the event loop.
  abbrev pub ingestion_step : WorkflowState → M W WorkflowState
  ingestion_step = run_ingestion context (λ plan w. (execute_ingestion agents schedule plan, w))

  pub ingestion_step-Keeps : (s : WorkflowState) (w : W) → Keeps s (ingestion_step s w)
  ingestion_step-Keeps s w = Keeps-of s (ingestion_step s w) (λ t v h.
      run_ingestion-state context (λ plan w. (execute_ingestion agents schedule plan, w)) s w h)

  module _ (regulatory forecasting : WorkflowState → M W WorkflowState)
      (run : Target → WorkflowState → M W WorkflowState)
      (follows : FollowsEdges (initial_services regulatory ingestion_step forecasting) run)
      (s : WorkflowState) (w v : W) (plan : ParallelIngestionPlan Request Reply)
      (valid : IsSnapshot s) (at_phase : s.phase ≡ WorkflowPhase.ingestion)
      (at_status : s.status ≡ WorkflowStatus.running)
      (resolved : context.resolve_plan s.workflow_id w ≡ (returned plan, v)) where
    answered-step :
        (success : ParallelIngestionSuccess Request Reply) {x : W}
        → Answers agents plan success
        → context.record_success s.workflow_id success v ≡ (returned tt, x)
        → ingestion_step s w ≡ (returned s, x)
    unfolding run_ingestion
    answered-step success answers recorded =
        rw (resolved, execute_ingestion-Answers agents schedule plan success answers, recorded) refl

    -- When the five agents answer the requests of the plan and their success is recorded, a call
    -- of the graph on an ingestion/running snapshot returns it in the forecasting phase, in
    -- whatever order the agents end.
    pub invoke-Answers :
        (success : ParallelIngestionSuccess Request Reply) {x : W}
        → Answers agents plan success
        → context.record_success s.workflow_id success v ≡ (returned tt, x)
        → invoke (initial_services regulatory ingestion_step forecasting) run s w
          ≡ (returned (record s { phase = WorkflowPhase.forecasting }), x)
    invoke-Answers success answers recorded =
        invoke-phase regulatory ingestion_step forecasting run follows
          ParallelPhase.parallel_ingestion s valid at_phase at_status w (ingestion_step-Keeps s w)
        ∙ ap (phase_result ParallelPhase.parallel_ingestion s)
            (answered-step success answers recorded)

    failed-step :
        (a : AgentName) (e : BaseException)
        → ingestion_failures agents plan a
          ≡ some (agent_failure ParallelPhase.parallel_ingestion a (from_exception e))
        → ((b : AgentName) → b ≢ a → ingestion_failures agents plan b ≡ none)
        → Distinct (tasks schedule)
        → Elem a (tasks schedule)
        → ingestion_step s w ≡ (
          raised (
              group (
                member
                  (agent_failure ParallelPhase.parallel_ingestion a (from_exception e))
                  no_more)),
          v,
        )
    unfolding run_ingestion
    failed-step a e fails others distinct m =
        rw
          (resolved, execute_ingestion-single agents schedule plan a _ fails refl others distinct m)
          refl

    -- When, on an ingestion/running snapshot, one agent of the plan fails by an exception and the
    -- others return, a call of the graph returns the snapshot with status failed, in whatever
    -- order the five agents end, and writes nothing after the plan was read.
    pub invoke-single_failure :
        (a : AgentName) (e : BaseException)
        → ingestion_failures agents plan a
          ≡ some (agent_failure ParallelPhase.parallel_ingestion a (from_exception e))
        → ((b : AgentName) → b ≢ a → ingestion_failures agents plan b ≡ none)
        → Distinct (tasks schedule)
        → Elem a (tasks schedule)
        → invoke (initial_services regulatory ingestion_step forecasting) run s w
          ≡ (returned (record s { status = WorkflowStatus.failed }), v)
    invoke-single_failure a e fails others distinct m =
        invoke-phase regulatory ingestion_step forecasting run follows
          ParallelPhase.parallel_ingestion s valid at_phase at_status w (ingestion_step-Keeps s w)
        ∙ ap (phase_result ParallelPhase.parallel_ingestion s)
            (failed-step a e fails others distinct m)
        ∙ rw (leaves-single ParallelPhase.parallel_ingestion a (from_exception e)) refl
