-- ===== src/Orchestration/Graph/Steps.antt =====
-- The workflow as a state machine: each call of the graph that returns takes one of these steps.
use armenian_energy_trading.Base.{◌≡◌, refl, sym, ◌∙◌, inl, inr, Bool-cases, true, List, arith}
use armenian_energy_trading.Orchestration.Exceptions.{
  ParallelPhase, Message, BaseException, application, error, cancelled, agent_failure, group,
  Outcome, returned, raised, invalid,
}
use armenian_energy_trading.Orchestration.Effects.{M, ◌>>=◌, sync, continue}
use armenian_energy_trading.Orchestration.State.{
  WorkflowPhase, WorkflowStatus, WorkflowState, IsSnapshot,
}
use armenian_energy_trading.Orchestration.Transition.{is_at}
use armenian_energy_trading.Orchestration.Failures.Extract.{leaves}
use armenian_energy_trading.Orchestration.Failures.Handle.{phase_of, verdict}
use armenian_energy_trading.Orchestration.Graph.{
  Node, Target, node, route_after_workflow_entry, body, edge, FollowsEdges, invoke,
}
use armenian_energy_trading.Orchestration.Graph.Invoke.{
  next_phase, phase_result, initial_services, Keeps, phase_step, invoke-phase, body-entry,
}

pub data Step (s t : WorkflowState) : Type 0 where
  consult : s.phase ≡ WorkflowPhase.contract → s.status ≡ WorkflowStatus.running → t ≡ s → Step s t
  advance :
      (p : ParallelPhase)
      → s.phase ≡ phase_of p
      → s.status ≡ WorkflowStatus.running
      → t ≡ record s { phase = next_phase p }
      → Step s t
  fail :
      (p : ParallelPhase)
      → s.phase ≡ phase_of p
      → s.status ≡ WorkflowStatus.running
      → t ≡ record s { status = WorkflowStatus.failed }
      → Step s t

is_at-eq :
    (s : WorkflowState) (phase : WorkflowPhase) (status : WorkflowStatus)
    → is_at s phase status ≡ true
    → (s.phase ≡ phase) × (s.status ≡ status)
is_at-eq s phase status h = ground arith

-- Where a state stands at the entry.
data Entry (s : WorkflowState) : Type 0 where
  consults : s.phase ≡ WorkflowPhase.contract → s.status ≡ WorkflowStatus.running → Entry s
  works : (p : ParallelPhase) → s.phase ≡ phase_of p → s.status ≡ WorkflowStatus.running → Entry s
  refused : route_after_workflow_entry s ≡ invalid Message.invalid_entry_route → Entry s

entry : (s : WorkflowState) → Entry s
unfolding route_after_workflow_entry
entry s = elim (Bool-cases (is_at s WorkflowPhase.contract WorkflowStatus.running)) [
  | inl here ↦
      let (a, b) = is_at-eq s WorkflowPhase.contract WorkflowStatus.running here in consults a b
  | inr no1 ↦ elim (Bool-cases (is_at s WorkflowPhase.ingestion WorkflowStatus.running)) [
    | inl here ↦
        let (a, b) = is_at-eq s WorkflowPhase.ingestion WorkflowStatus.running here in
        works ParallelPhase.parallel_ingestion a b
    | inr no2 ↦ elim (Bool-cases (is_at s WorkflowPhase.forecasting WorkflowStatus.running)) [
      | inl here ↦
          let (a, b) = is_at-eq s WorkflowPhase.forecasting WorkflowStatus.running here in
          works ParallelPhase.forecasting a b
      | inr no3 ↦ refused (rw (no1, no2, no3) refl)
    ]
  ]
]

verdict-returned :
    (p : ParallelPhase) (s t : WorkflowState) (es : List BaseException)
    → verdict p s es ≡ returned t
    → t ≡ record s { status = WorkflowStatus.failed }
verdict-returned p s t es h = ground arith

phase_result-Step :
    {W : Type 0} (p : ParallelPhase) (s t : WorkflowState) (o : Outcome WorkflowState × W) (w : W)
    → s.phase ≡ phase_of p
    → s.status ≡ WorkflowStatus.running
    → phase_result p s o ≡ (returned t, w)
    → Step s t
phase_result-Step p s t (returned u, v) w at_phase at_status h = advance p at_phase at_status (cc)
phase_result-Step p s t (raised (group es), v) w at_phase at_status h =
    fail p at_phase at_status (verdict-returned p s t (leaves es) (cc))
phase_result-Step p s t (raised (application c m), v) w at_phase at_status h = cc
phase_result-Step p s t (raised (error x), v) w at_phase at_status h = cc
phase_result-Step p s t (raised cancelled, v) w at_phase at_status h = cc
phase_result-Step p s t (raised (agent_failure q a c), v) w at_phase at_status h = cc

module _ {W : Type 0} (regulatory ingestion forecasting : WorkflowState → M W WorkflowState) where
  -- Steps hand back the state that they were given.
  pub record KeepState : Type 0 where
    pub regulatory_keeps : (s : WorkflowState) (w : W) → Keeps s (regulatory s w)
    pub ingestion_keeps : (s : WorkflowState) (w : W) → Keeps s (ingestion s w)
    pub forecasting_keeps : (s : WorkflowState) (w : W) → Keeps s (forecasting s w)

module _ {W : Type 0} (regulatory ingestion forecasting : WorkflowState → M W WorkflowState)
    (run : Target → WorkflowState → M W WorkflowState)
    (follows : FollowsEdges (initial_services regulatory ingestion forecasting) run) where
  goes_on-end :
      (o : Outcome WorkflowState × W)
      → continue
          (λ t.
            sync (
              edge
                (initial_services regulatory ingestion forecasting)
                Node.regulatory_intelligence
                t)
            >>= λ next. run next t)
          o
        ≡ o
  unfolding edge
  goes_on-end (returned t, w) = follows.run_end t w
  goes_on-end (raised e, w) = refl

  entry-consult :
      (s : WorkflowState)
      → s.phase ≡ WorkflowPhase.contract
      → s.status ≡ WorkflowStatus.running
      → edge (initial_services regulatory ingestion forecasting) Node.workflow_entry s
        ≡ returned (node Node.regulatory_intelligence)
  unfolding edge route_after_workflow_entry
  entry-consult s at_phase at_status = rw (at_phase, at_status) refl

  body-consult :
      (s : WorkflowState) (w : W)
      → body (initial_services regulatory ingestion forecasting) Node.regulatory_intelligence s w
        ≡ regulatory s w
  unfolding body
  body-consult s w = refl

  -- A contract-phase call returns or raises what the regulatory node does.
  pub invoke-consult :
      (s : WorkflowState) (w : W)
      → s.phase ≡ WorkflowPhase.contract
      → s.status ≡ WorkflowStatus.running
      → invoke (initial_services regulatory ingestion forecasting) run s w ≡ regulatory s w
  invoke-consult s w at_phase at_status =
      rw
        (
          follows.run_node Node.workflow_entry s w,
          body-entry (initial_services regulatory ingestion forecasting) s w,
          entry-consult s at_phase at_status,
          follows.run_node Node.regulatory_intelligence s w,
          body-consult s w,
        )
        (goes_on-end (regulatory s w))

  -- A state that the entry does not route is refused before anything is called.
  pub invoke-refused :
      (s : WorkflowState) (w : W)
      → route_after_workflow_entry s ≡ invalid Message.invalid_entry_route
      → invoke (initial_services regulatory ingestion forecasting) run s w
        ≡ (invalid Message.invalid_entry_route, w)
  unfolding edge body
  invoke-refused s w unrouted = rw (follows.run_node Node.workflow_entry s w, unrouted) refl

  phase-Keeps :
      KeepState regulatory ingestion forecasting
      → (p : ParallelPhase) (s : WorkflowState) (w : W)
      → Keeps s (phase_step (initial_services regulatory ingestion forecasting) p s w)
  phase-Keeps keep ParallelPhase.parallel_ingestion s w = keep.ingestion_keeps s w
  phase-Keeps keep ParallelPhase.forecasting s w = keep.forecasting_keeps s w

  Keeps-eq :
      (s t : WorkflowState) (o : Outcome WorkflowState × W) (w : W)
      → Keeps s o
      → o ≡ (returned t, w)
      → t ≡ s
  Keeps-eq s t (returned u, v) w same h = cc
  Keeps-eq s t (raised e, v) w same h = cc

  -- A call of the graph that returns has taken a step of the state machine.
  pub invoke-Step :
      KeepState regulatory ingestion forecasting
      → (s t : WorkflowState) (w w' : W) → IsSnapshot s
      → invoke (initial_services regulatory ingestion forecasting) run s w ≡ (returned t, w')
      → Step s t
  invoke-Step keep s t w w' valid h = elim (entry s) [
    | consults at_phase at_status ↦ consult at_phase at_status (
        Keeps-eq s t (regulatory s w) w' (keep.regulatory_keeps s w)
          (sym (invoke-consult s w at_phase at_status) ∙ h))
    | works p at_phase at_status ↦
        phase_result-Step p s t
          (phase_step (initial_services regulatory ingestion forecasting) p s w) w' at_phase
          at_status
          (sym (
              invoke-phase regulatory ingestion forecasting run follows p s valid at_phase at_status
                w (phase-Keeps keep p s w))
            ∙ h)
    | refused unrouted ↦ cc (invoke-refused s w unrouted)
  ]
