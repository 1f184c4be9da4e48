-- ===== src/Orchestration/Graph/Runtime.antt =====
-- The graph has no cycle, so following its edges ends: a runtime by recursion on the depth of a node.
use armenian_energy_trading.Base.{ℕ, zero, suc, ◌≡◌, refl, ◌≤◌, ◌<◌, arith}
use armenian_energy_trading.Orchestration.Exceptions.{error, Outcome, returned, raised}
use armenian_energy_trading.Orchestration.Effects.{M, ◌>>=◌, sync, continue}
use armenian_energy_trading.Orchestration.State.{WorkflowState}
use armenian_energy_trading.Orchestration.Graph.{
  Node, Target, node, end_graph, Services, route_after_workflow_entry,
  route_after_parallel_ingestion, route_after_forecasting, body, edge, FollowsEdges,
}

-- The number of nodes that a run from here can execute.
abbrev pub depth : Target → ℕ
depth end_graph = 0
depth (node Node.workflow_entry) = 3
depth (node Node.regulatory_intelligence) = 1
depth (node Node.parallel_ingestion) = 2
depth (node Node.parallel_ingestion_success_transition) = 1
depth (node Node.forecasting) = 2
depth (node Node.forecasting_success_transition) = 1

node_depth : (n : Node) → (0 < depth (node n)) × (depth (node n) ≤ 3)
node_depth Node.workflow_entry = omega arith
node_depth Node.regulatory_intelligence = omega arith
node_depth Node.parallel_ingestion = omega arith
node_depth Node.parallel_ingestion_success_transition = omega arith
node_depth Node.forecasting = omega arith
node_depth Node.forecasting_success_transition = omega arith

module _ {W : Type 0} (services : Services W) where
  -- Every edge that is taken leads to where fewer nodes are left to execute.
  pub edge-depth :
      (n : Node) (s : WorkflowState) (t : Target)
      → edge services n s ≡ returned t
      → depth t < depth (node n)
  unfolding edge route_after_workflow_entry route_after_parallel_ingestion route_after_forecasting
  edge-depth Node.workflow_entry s t h = ground arith
  edge-depth Node.regulatory_intelligence s t h = ground arith
  edge-depth Node.parallel_ingestion s t h = ground arith
  edge-depth Node.parallel_ingestion_success_transition s t h = ground arith
  edge-depth Node.forecasting s t h = ground arith
  edge-depth Node.forecasting_success_transition s t h = ground arith

  -- A run that may execute so many nodes.
  unfoldable pub drive_within : ℕ → Target → WorkflowState → M W WorkflowState
  drive_within limit end_graph s w = (returned s, w)
  drive_within zero (node n) s w = (raised (error "recursion limit"), w)
  drive_within (suc limit) (node n) s w =
      (body services n s >>= λ t. sync (edge services n t) >>= λ next. drive_within limit next t) w

  continue-eq :
      (f g : WorkflowState → M W WorkflowState) (o : Outcome WorkflowState × W)
      → ((t : WorkflowState) (w : W) → f t w ≡ g t w)
      → continue f o ≡ continue g o
  continue-eq f g (returned t, w) h = h t w
  continue-eq f g (raised e, w) h = refl

  along :
      (f g : Target → WorkflowState → M W WorkflowState) (o : Outcome Target) (t : WorkflowState)
      (w : W)
      → ((next : Target) → o ≡ returned next → f next t w ≡ g next t w)
      → (sync o >>= λ next. f next t) w ≡ (sync o >>= λ next. g next t) w
  along f g (returned next) t w h = h next refl
  along f g (raised e) t w h = refl

  -- A limit of at least the depth is as good as any larger one.
  drive_within-enough :
      (limit : ℕ) (t : Target) (s : WorkflowState) (w : W)
      → depth t ≤ limit
      → drive_within limit t s w ≡ drive_within (suc limit) t s w
  unfolding drive_within
  drive_within-enough limit end_graph s w h = refl
  drive_within-enough zero (node n) s w h = absurd (omega (arith, (node_depth n).0))
  drive_within-enough (suc limit) (node n) s w h =
      continue-eq (λ t. sync (edge services n t) >>= λ next. drive_within limit next t)
        (λ t. sync (edge services n t) >>= λ next. drive_within (suc limit) next t)
        (body services n s w)
        (λ t v.
          along (drive_within limit) (drive_within (suc limit)) (edge services n t) t v
            (λ next leads.
              drive_within-enough limit next t v (omega (arith, edge-depth n t next leads))))

  abbrev pub drive : Target → WorkflowState → M W WorkflowState
  drive = drive_within 3

  pub drive-FollowsEdges : FollowsEdges services drive
  unfolding drive_within
  drive-FollowsEdges = record {
    run_end = λ s w. refl;
    run_node = λ n s w.
        continue-eq (λ t. sync (edge services n t) >>= λ next. drive_within 2 next t)
          (λ t. sync (edge services n t) >>= λ next. drive_within 3 next t) (body services n s w)
          (λ t v. along (drive_within 2) (drive_within 3) (edge services n t) t v (λ next leads.
            drive_within-enough 2 next t v
              (omega (arith, edge-depth n t next leads, (node_depth n).1))));
  }
