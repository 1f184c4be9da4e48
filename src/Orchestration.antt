-- ===== src/Orchestration.antt =====
-- The workflow runtime of src/energy_trading/application/orchestration.
pub mod Text
pub mod Exceptions
pub mod State
pub mod Effects
pub mod Transition
pub mod Failures
pub mod TaskGroup
pub mod Steps
pub mod Graph
pub mod Contexts
pub mod Flow
mod Tests
