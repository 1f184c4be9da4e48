-- ===== src/Orchestration/State/Laws.antt =====
-- The snapshots that __post_init__ of application/orchestration/state.py lets through.
use armenian_energy_trading.Base.{String, ◌≡◌, refl, subst, Bool-cases, inl, inr}
use armenian_energy_trading.Orchestration.Text.{strip, strip_idem, is_empty}
use armenian_energy_trading.Orchestration.Exceptions.{returned}
use armenian_energy_trading.Orchestration.Effects.{and_then-eq-returned, returned-injective}
use armenian_energy_trading.Orchestration.State.{
  WorkflowPhase, WorkflowStatus, WorkflowState, require_non_empty, post_init, replace, IsClean,
  IsSnapshot,
}

pub require_non_empty-IsClean :
    (field value : String) {cleaned : String}
    → require_non_empty field value ≡ returned cleaned
    → IsClean cleaned
unfolding require_non_empty
require_non_empty-IsClean field value {cleaned} h = elim (Bool-cases (is_empty (strip value))) [
  | inl empty ↦ cc
  | inr filled ↦
      let e : strip value ≡ cleaned = cc in (rw (← e) (strip_idem value), rw (← e) filled)
]

IsClean-require_non_empty :
    (field value : String) → IsClean value → require_non_empty field value ≡ returned value
unfolding require_non_empty
IsClean-require_non_empty field value clean = rw (clean.0, clean.1) refl

-- The three identifiers of a state that its constructor lets through are not empty and have no
-- space around them.
pub post_init-IsSnapshot :
    (s : WorkflowState) {t : WorkflowState} → post_init s ≡ returned t → IsSnapshot t
unfolding post_init
post_init-IsSnapshot s {t} h =
    let (w, at_w, h1) = and_then-eq-returned (require_non_empty "workflow_id" s.workflow_id) _ h in
    let (p, at_p, h2) =
      and_then-eq-returned (require_non_empty "portfolio_id" s.portfolio_id) _ h1 in
    let (c, at_c, h3) =
      and_then-eq-returned (require_non_empty "correlation_id" s.correlation_id) _ h2 in
    subst IsSnapshot (returned-injective h3) (record {
      workflow = require_non_empty-IsClean "workflow_id" s.workflow_id at_w;
      portfolio = require_non_empty-IsClean "portfolio_id" s.portfolio_id at_p;
      correlation = require_non_empty-IsClean "correlation_id" s.correlation_id at_c;
    })

pub replace-IsSnapshot :
    (s : WorkflowState) (phase : WorkflowPhase) (status : WorkflowStatus)
    → IsSnapshot s
    → replace s phase status ≡ returned (record s { phase = phase; status = status })
unfolding replace post_init
replace-IsSnapshot s phase status valid =
    rw
      (
        IsClean-require_non_empty "workflow_id" s.workflow_id valid.workflow,
        IsClean-require_non_empty "portfolio_id" s.portfolio_id valid.portfolio,
        IsClean-require_non_empty "correlation_id" s.correlation_id valid.correlation,
      )
      refl
