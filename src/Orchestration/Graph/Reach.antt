-- ===== src/Orchestration/Graph/Reach.antt =====
-- What holds along any number of calls of the graph.
use armenian_energy_trading.Base.{◌≡◌, ◌≢◌, ap, refl, ◌∙◌, ◌⊎◌, arith, ℕ, ◌≤◌}
use armenian_energy_trading.Orchestration.Exceptions.{ParallelPhase, returned}
use armenian_energy_trading.Orchestration.Effects.{M, ◌>>=◌}
use armenian_energy_trading.Orchestration.State.{
  WorkflowPhase, WorkflowStatus, WorkflowState, IsSnapshot,
}
use armenian_energy_trading.Orchestration.Graph.{Target, FollowsEdges, invoke}
use armenian_energy_trading.Orchestration.Graph.Invoke.{
  phase_result, initial_services, invoke-phase,
}
use armenian_energy_trading.Orchestration.Graph.Steps.{
  Step, consult, advance, fail, KeepState, invoke-Step,
}

pub data Reach (s : WorkflowState) : WorkflowState → Type 0 where
  here : Reach s s
  step : {t u : WorkflowState} → Reach s t → Step t u → Reach s u

abbrev pub rank : WorkflowPhase → ℕ
rank WorkflowPhase.contract = 0
rank WorkflowPhase.ingestion = 1
rank WorkflowPhase.forecasting = 2
rank WorkflowPhase.risk_and_bid = 3
rank WorkflowPhase.settlement = 4

-- The same workflow, no earlier in the business order; and it is running or failed if it was.
pub record Continues (s t : WorkflowState) : Type 0 where
  pub workflow_id : t.workflow_id ≡ s.workflow_id
  pub portfolio_id : t.portfolio_id ≡ s.portfolio_id
  pub delivery_date : t.delivery_date ≡ s.delivery_date
  pub correlation_id : t.correlation_id ≡ s.correlation_id
  pub diagnostics : t.diagnostics ≡ s.diagnostics
  pub later : rank s.phase ≤ rank t.phase
  pub live :
      (t.status ≡ s.status)
      ⊎ ((s.status ≡ WorkflowStatus.running) × (t.status ≡ WorkflowStatus.failed))

pub Step-Continues : {s t : WorkflowState} → Step s t → Continues s t
Step-Continues (consult a b e) = ground arith
Step-Continues (advance ParallelPhase.parallel_ingestion a b e) = ground arith
Step-Continues (advance ParallelPhase.forecasting a b e) = ground arith
Step-Continues (fail p a b e) = ground arith

Step-running : {s t : WorkflowState} → Step s t → s.status ≡ WorkflowStatus.running
Step-running (consult a b e) = b
Step-running (advance p a b e) = b
Step-running (fail p a b e) = b

Continues-trans : {s t u : WorkflowState} → Continues s t → Continues t u → Continues s u
Continues-trans a b = ground arith

pub Reach-Continues : {s t : WorkflowState} → Reach s t → Continues s t
Reach-Continues here = ground arith
Reach-Continues (step r st) = Continues-trans (Reach-Continues r) (Step-Continues st)

Step-IsSnapshot : {s t : WorkflowState} → Step s t → IsSnapshot s → IsSnapshot t
Step-IsSnapshot (consult a b e) valid = ground arith
Step-IsSnapshot (advance p a b e) valid = ground arith
Step-IsSnapshot (fail p a b e) valid = ground arith

module _ {W : Type 0} (regulatory ingestion forecasting : WorkflowState → M W WorkflowState)
    (run : Target → WorkflowState → M W WorkflowState)
    (follows : FollowsEdges (initial_services regulatory ingestion forecasting) run)
    (keep : KeepState regulatory ingestion forecasting) where
  abbrev call : WorkflowState → M W WorkflowState
  call = invoke (initial_services regulatory ingestion forecasting) run

  -- Calls of the graph that return, each on the state and in the world that the last one left.
  pub data Calls (s : WorkflowState) (w : W) : WorkflowState → W → Type 0 where
    no_call : Calls s w s w
    next_call :
        {t u : WorkflowState} {v x : W} → Calls s w t v → call t v ≡ (returned u, x) → Calls s w u x

  Calls-Reach :
      {s : WorkflowState} {w : W} {t : WorkflowState} {v : W}
      → IsSnapshot s
      → Calls s w t v
      → Reach s t × IsSnapshot t
  Calls-Reach valid no_call = (here, valid)
  Calls-Reach valid (next_call {t} {u} {v} {x} before made) =
      let (r, clean) = Calls-Reach valid before in
      let st : Step t u =
        invoke-Step regulatory ingestion forecasting run follows keep t u v x clean made in
      (step r st, Step-IsSnapshot st clean)

  -- However often the graph is called from a snapshot, by steps that hand their state back, it
  -- keeps the identifiers, the delivery date and the diagnostics, never goes back in the order of
  -- the phases, and leaves the status as it was or turns running into failed.
  pub Calls-Continues :
      {s t : WorkflowState} {w v : W} → IsSnapshot s → Calls s w t v → Continues s t
  Calls-Continues valid calls = Reach-Continues (Calls-Reach valid calls).0

  -- By steps that hand their state back no call of the graph returns from a snapshot whose status is not running.
  pub halted :
      {s t : WorkflowState} {w v : W}
      → IsSnapshot s
      → s.status ≢ WorkflowStatus.running
      → call s w ≢ (returned t, v)
  halted {s} {t} {w} {v} valid idle made = idle (
      Step-running
        (invoke-Step regulatory ingestion forecasting run follows keep s t w v valid made))

  -- Where the ingestion step and then the forecasting step return, two calls of the graph take an
  -- ingestion/running snapshot to risk_and_bid/running.
  pub two_calls :
      (s : WorkflowState) {w v x : W}
      → IsSnapshot s
      → s.phase ≡ WorkflowPhase.ingestion
      → s.status ≡ WorkflowStatus.running
      → ingestion s w ≡ (returned s, v)
      → forecasting (record s { phase = WorkflowPhase.forecasting }) v
        ≡ (returned (record s { phase = WorkflowPhase.forecasting }), x)
      → (call s >>= call) w ≡ (returned (record s { phase = WorkflowPhase.risk_and_bid }), x)
  two_calls s {w} {v} {x} valid at_phase at_status first second =
      let t : WorkflowState = record s { phase = WorkflowPhase.forecasting } in
      let one : call s w ≡ (returned t, v) =
        invoke-phase regulatory ingestion forecasting run follows ParallelPhase.parallel_ingestion s
          valid at_phase at_status w (keep.ingestion_keeps s w)
        ∙ ap (phase_result ParallelPhase.parallel_ingestion s) first in
      let two : call t v ≡ (returned (record s { phase = WorkflowPhase.risk_and_bid }), x) =
        invoke-phase regulatory ingestion forecasting run follows ParallelPhase.forecasting t
          (record {
            workflow = valid.workflow;
            portfolio = valid.portfolio;
            correlation = valid.correlation;
          })
          refl at_status v (keep.forecasting_keeps t v)
        ∙ ap (phase_result ParallelPhase.forecasting t) second in
      rw one two
