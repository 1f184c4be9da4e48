-- ===== src/Orchestration/State.antt =====
-- application/orchestration/state.py
pub mod Laws
use armenian_energy_trading.Base.{ℕ, String, List, Option, if◌then◌else◌, ◌≡◌, ◌≢◌, true, false}
use armenian_energy_trading.Orchestration.Text.{before, strip, is_empty}
use armenian_energy_trading.Orchestration.Exceptions.{Outcome, returned, raised, error}
use armenian_energy_trading.Orchestration.Effects.{and_then}

pub data WorkflowPhase : Type 0 where
  contract ingestion forecasting risk_and_bid settlement : WorkflowPhase

pub data WorkflowStatus : Type 0 where
  pending running succeeded failed : WorkflowStatus

-- domain/models/ingestion.py
pub data DiagnosticSeverity : Type 0 where
  info warning error_severity : DiagnosticSeverity

pub record AdapterDiagnostic : Type 0 where
  pub code : String
  pub message : String
  pub severity : DiagnosticSeverity
  pub field_name : Option String

-- `delivery_date` is the date's ordinal.
pub record WorkflowState : Type 0 where
  pub workflow_id : String
  pub portfolio_id : String
  pub delivery_date : ℕ
  pub correlation_id : String
  pub phase : WorkflowPhase
  pub status : WorkflowStatus
  pub diagnostics : List AdapterDiagnostic

-- The type tests of the source hold of every value of the model.
unfoldable pub require_non_empty : String → String → Outcome String
require_non_empty field_name value =
    let cleaned = strip value in
    if is_empty cleaned
    then raised (error (before field_name " must be a non-empty string"))
    else returned cleaned

-- `__post_init__`
unfoldable pub post_init : WorkflowState → Outcome WorkflowState
unfolding require_non_empty
post_init s = and_then (require_non_empty "workflow_id" s.workflow_id) λ workflow_id.
    and_then (require_non_empty "portfolio_id" s.portfolio_id) λ portfolio_id.
      and_then (require_non_empty "correlation_id" s.correlation_id) λ correlation_id.
        returned (record s {
          workflow_id = workflow_id;
          portfolio_id = portfolio_id;
          correlation_id = correlation_id;
        })

-- `dataclasses.replace(state, phase=..., status=...)`, which runs `__post_init__` again.
unfoldable pub replace : WorkflowState → WorkflowPhase → WorkflowStatus → Outcome WorkflowState
replace s phase status = post_init (record s { phase = phase; status = status })

-- An identifier that the constructor leaves as it is.
abbrev pub IsClean : String → Type 0
IsClean text = (strip text ≡ text) × (is_empty text ≡ false)

-- What `__post_init__` establishes.
pub record IsSnapshot (s : WorkflowState) : Type 0 where
  pub workflow : IsClean s.workflow_id
  pub portfolio : IsClean s.portfolio_id
  pub correlation : IsClean s.correlation_id
