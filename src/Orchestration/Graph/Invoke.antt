-- ===== src/Orchestration/Graph/Invoke.antt =====
-- What a call of the compiled graph returns or raises.
use armenian_energy_trading.Base.{
  ◌≡◌, refl, inl, inr, Bool-cases, all, length, nat_beq, List, arith,
}
use armenian_energy_trading.Orchestration.Exceptions.{
  ParallelPhase, BaseException, application, error, cancelled, agent_failure, group, Outcome,
  returned, raised,
}
use armenian_energy_trading.Orchestration.Effects.{M, ◌>>=◌, sync, continue}
use armenian_energy_trading.Orchestration.State.{
  WorkflowPhase, WorkflowStatus, WorkflowState, IsSnapshot,
}
use armenian_energy_trading.Orchestration.State.Laws.{replace-IsSnapshot}
use armenian_energy_trading.Orchestration.Transition.{
  advance_after_parallel_ingestion, advance_after_forecasting,
}
use armenian_energy_trading.Orchestration.Failures.{initial_ports, handle_group, is_attributed}
use armenian_energy_trading.Orchestration.Failures.Extract.{leaves}
use armenian_energy_trading.Orchestration.Failures.Handle.{phase_of, verdict, handle_group-verdict}
use armenian_energy_trading.Orchestration.Graph.{
  Node, Target, node, end_graph, Services, route_after_workflow_entry,
  route_after_parallel_ingestion, route_after_forecasting, except_group, body, edge, FollowsEdges,
  invoke,
}

abbrev pub next_phase : ParallelPhase → WorkflowPhase
next_phase ParallelPhase.parallel_ingestion = WorkflowPhase.forecasting
next_phase ParallelPhase.forecasting = WorkflowPhase.risk_and_bid

-- What the graph makes of the end of a phase's step: it enters the next phase, gives the verdict on an
-- exception group, and lets any other exception through.
abbrev pub phase_result :
    {W : Type 0}
    → ParallelPhase
    → WorkflowState
    → Outcome WorkflowState × W
    → Outcome WorkflowState × W
phase_result p s (returned t, w) = (returned (record s { phase = next_phase p }), w)
phase_result p s (raised (group es), w) = (verdict p s (leaves es), w)
phase_result p s (raised e, w) = (raised e, w)

-- The graph with the failure ports that application/orchestration implements.
abbrev pub initial_services :
    {W : Type 0}
    → (WorkflowState → M W WorkflowState)
    → (WorkflowState → M W WorkflowState)
    → (WorkflowState → M W WorkflowState)
    → Services W
initial_services regulatory ingestion forecasting = record {
  regulatory_intelligence_node = regulatory;
  parallel_ingestion_step = ingestion;
  parallel_ingestion_failures = initial_ports ParallelPhase.parallel_ingestion;
  forecasting_step = forecasting;
  forecasting_failures = initial_ports ParallelPhase.forecasting;
}

abbrev phase_node : ParallelPhase → Node
phase_node ParallelPhase.parallel_ingestion = Node.parallel_ingestion
phase_node ParallelPhase.forecasting = Node.forecasting

abbrev success_node : ParallelPhase → Node
success_node ParallelPhase.parallel_ingestion = Node.parallel_ingestion_success_transition
success_node ParallelPhase.forecasting = Node.forecasting_success_transition

-- A step hands back the state that it was given.
abbrev pub Keeps : {W : Type 0} → WorkflowState → Outcome WorkflowState × W → Type 0
Keeps s (returned t, w) = t ≡ s
Keeps s (raised e, w) = Unit

abbrev pub phase_step :
    {W : Type 0} → Services W → ParallelPhase → WorkflowState → M W WorkflowState
phase_step services ParallelPhase.parallel_ingestion = services.parallel_ingestion_step
phase_step services ParallelPhase.forecasting = services.forecasting_step

module _ {W : Type 0} (services : Services W) where
  entry-running :
      (p : ParallelPhase) (s : WorkflowState)
      → s.phase ≡ phase_of p
      → s.status ≡ WorkflowStatus.running
      → edge services Node.workflow_entry s ≡ returned (node (phase_node p))
  unfolding edge route_after_workflow_entry
  entry-running ParallelPhase.parallel_ingestion s at_phase at_status =
      rw (at_phase, at_status) refl
  entry-running ParallelPhase.forecasting s at_phase at_status = rw (at_phase, at_status) refl

  edge-running :
      (p : ParallelPhase) (s : WorkflowState)
      → s.phase ≡ phase_of p
      → s.status ≡ WorkflowStatus.running
      → edge services (phase_node p) s ≡ returned (node (success_node p))
  unfolding edge route_after_parallel_ingestion route_after_forecasting
  edge-running ParallelPhase.parallel_ingestion s at_phase at_status = rw (at_phase, at_status) refl
  edge-running ParallelPhase.forecasting s at_phase at_status = rw (at_phase, at_status) refl

  edge-failed :
      (p : ParallelPhase) (s : WorkflowState)
      → s.phase ≡ phase_of p
      → s.status ≡ WorkflowStatus.failed
      → edge services (phase_node p) s ≡ returned end_graph
  unfolding edge route_after_parallel_ingestion route_after_forecasting
  edge-failed ParallelPhase.parallel_ingestion s at_phase at_status = rw (at_phase, at_status) refl
  edge-failed ParallelPhase.forecasting s at_phase at_status = rw (at_phase, at_status) refl

  edge-success :
      (p : ParallelPhase) (s : WorkflowState)
      → edge services (success_node p) s ≡ returned end_graph
  unfolding edge
  edge-success ParallelPhase.parallel_ingestion s = refl
  edge-success ParallelPhase.forecasting s = refl

  body-success :
      (p : ParallelPhase) (s : WorkflowState) (w : W)
      → IsSnapshot s
      → s.phase ≡ phase_of p
      → s.status ≡ WorkflowStatus.running
      → body services (success_node p) s w ≡ (returned (record s { phase = next_phase p }), w)
  unfolding body advance_after_parallel_ingestion advance_after_forecasting
  body-success ParallelPhase.parallel_ingestion s w valid at_phase at_status =
      grind (arith, replace-IsSnapshot s WorkflowPhase.forecasting WorkflowStatus.running valid)
  body-success ParallelPhase.forecasting s w valid at_phase at_status =
      grind (arith, replace-IsSnapshot s WorkflowPhase.risk_and_bid WorkflowStatus.running valid)

  pub body-entry :
      (s : WorkflowState) (w : W) → body services Node.workflow_entry s w ≡ (returned s, w)
  unfolding body
  body-entry s w = refl

module _ {W : Type 0} (regulatory ingestion forecasting : WorkflowState → M W WorkflowState) where
  body-phase :
      (p : ParallelPhase) (s : WorkflowState) (w : W)
      → body (initial_services regulatory ingestion forecasting) (phase_node p) s w
        ≡ except_group
            (handle_group (initial_ports p) p s)
            (phase_step (initial_services regulatory ingestion forecasting) p s w)
  unfolding body
  body-phase ParallelPhase.parallel_ingestion s w = refl
  body-phase ParallelPhase.forecasting s w = refl

module _ {W : Type 0} (regulatory ingestion forecasting : WorkflowState → M W WorkflowState)
    (run : Target → WorkflowState → M W WorkflowState)
    (follows : FollowsEdges (initial_services regulatory ingestion forecasting) run)
    (p : ParallelPhase) (s : WorkflowState) (valid : IsSnapshot s) (at_phase : s.phase ≡ phase_of p)
    (at_status : s.status ≡ WorkflowStatus.running) where
  abbrev services : Services W
  services = initial_services regulatory ingestion forecasting

  -- What follows the node of a phase.
  abbrev goes_on : Outcome WorkflowState × W → Outcome WorkflowState × W
  goes_on = continue (λ t. sync (edge services (phase_node p) t) >>= λ next. run next t)

  after_success :
      (w : W) → goes_on (returned s, w) ≡ (returned (record s { phase = next_phase p }), w)
  after_success w =
      rw
        (
          edge-running services p s at_phase at_status,
          follows.run_node (success_node p) s w,
          body-success services p s w valid at_phase at_status,
          edge-success services p (record s { phase = next_phase p }),
        )
        (follows.run_end (record s { phase = next_phase p }) w)

  after_failure :
      (w : W)
      → goes_on (returned (record s { status = WorkflowStatus.failed }), w)
        ≡ (returned (record s { status = WorkflowStatus.failed }), w)
  after_failure w =
      rw (edge-failed services p (record s { status = WorkflowStatus.failed }) at_phase refl)
        (follows.run_end (record s { status = WorkflowStatus.failed }) w)

  after_verdict :
      (es : List BaseException) (w : W) → goes_on (verdict p s es, w) ≡ (verdict p s es, w)
  after_verdict es w = elim (Bool-cases (all (is_attributed p) es)) [
    | inl mine ↦ elim (Bool-cases (nat_beq (length es) 1)) [
      | inl one ↦ rw (mine, one) (after_failure w)
      | inr many ↦ rw (mine, many) refl
    ]
    | inr other ↦ rw other refl
  ]

  after_phase :
      (o : Outcome WorkflowState × W)
      → Keeps s o
      → goes_on (except_group (handle_group (initial_ports p) p s) o) ≡ phase_result p s o
  after_phase (returned t, w) same = rw same (after_success w)
  after_phase (raised (group es), w) same =
      rw (handle_group-verdict p s w valid at_phase at_status es) (after_verdict (leaves es) w)
  after_phase (raised (application c m), w) same = refl
  after_phase (raised (error t), w) same = refl
  after_phase (raised cancelled, w) same = refl
  after_phase (raised (agent_failure q a c), w) same = refl

  -- A call of the graph on a snapshot of a running parallel phase ends as the phase_result of the
  -- phase step: where the step returns, in the next phase; where it raises an exception group, by
  -- the verdict on the leaves of the group; where it raises anything else, by that exception. The
  -- world is the one that the step leaves.
  pub invoke-phase :
      (w : W)
      → Keeps s (phase_step services p s w)
      → invoke services run s w ≡ phase_result p s (phase_step services p s w)
  invoke-phase w same =
      rw
        (
          follows.run_node Node.workflow_entry s w,
          body-entry services s w,
          entry-running services p s at_phase at_status,
          follows.run_node (phase_node p) s w,
          body-phase regulatory ingestion forecasting p s w,
        )
        (after_phase (phase_step services p s w) same)
