-- ===== src/Orchestration/Contexts.antt =====
-- infrastructure/orchestration: parallel_ingestion_context.py, forecasting_context.py,
-- forecasting_success_reader.py and forecasting_read_after_write_context.py. The write lock makes each
-- method one step.
pub mod Laws
use armenian_energy_trading.Base.{Bool, String, List, Option, none, some, if◌then◌else◌}
use armenian_energy_trading.Base.Dict.{get, put}
use armenian_energy_trading.Orchestration.Exceptions.{
  ApplicationError, ParallelPhase, Message, application, Outcome, returned, raised,
}
use armenian_energy_trading.Orchestration.Effects.{M}
use armenian_energy_trading.Orchestration.State.{WorkflowState}
use armenian_energy_trading.Orchestration.Steps.{IngestionContextPort, ForecastingContextPort}

-- `self._plans` and `self._successes` of an in-memory context.
pub record Context (Plan Success : Type 0) : Type 0 where
  pub plans : List (String × Plan)
  pub successes : List (String × Success)

module _ {A : Type 0} where
  -- `d[key]`, with the KeyError translated.
  abbrev pub found_or : Message → Option A → Outcome A
  found_or message none = raised (application ApplicationError.resource_not_found message)
  found_or message (some value) = returned value

module _ {Plan Success : Type 0} where
  unfoldable pub resolve_plan : ParallelPhase → String → M (Context Plan Success) Plan
  resolve_plan p workflow_id context =
      (found_or (Message.plan_not_found p) (get workflow_id context.plans), context)

-- `equal` is the `==` of the successes. Nothing is supposed of it: equal successes can differ.
module _ {Plan Success : Type 0} (equal : Success → Success → Bool) where
  -- The body under the lock, once the earlier success has been read.
  abbrev pub record_over :
      ParallelPhase → String → Success → Option Success → M (Context Plan Success) (Unit {0})
  record_over p workflow_id success none context =
      (returned tt, record context { successes = put workflow_id success context.successes })
  record_over p workflow_id success (some existing) context =
      if equal existing success
      then (returned tt, context)
      else (raised (application ApplicationError.conflict (Message.success_conflict p)), context)

  unfoldable pub record_success :
      ParallelPhase → String → Success → M (Context Plan Success) (Unit {0})
  record_success p workflow_id success context =
      record_over p workflow_id success (get workflow_id context.successes) context

  -- `InMemoryParallelIngestionWorkflowContext`
  abbrev pub ingestion_context : IngestionContextPort (Context Plan Success) Plan Success
  ingestion_context = record {
    resolve_plan = resolve_plan ParallelPhase.parallel_ingestion;
    record_success = record_success ParallelPhase.parallel_ingestion;
  }

  -- `InMemoryForecastingWorkflowContext`
  abbrev pub forecasting_context : ForecastingContextPort (Context Plan Success) Plan Success
  forecasting_context = record {
    resolve_plan = λ state. resolve_plan ParallelPhase.forecasting state.workflow_id;
    record_success = λ state. record_success ParallelPhase.forecasting state.workflow_id;
  }

-- `InMemoryForecastingSuccessReader.get_success`
unfoldable pub read_success :
    {Success : Type 0} → List (String × Success) → String → Outcome Success
read_success successes workflow_id = found_or Message.success_not_found (get workflow_id successes)

-- `InMemoryForecastingReadAfterWriteContext`: the wrapped context and its own `self._successes`.
pub record ReadAfterWrite (Plan Success : Type 0) : Type 0 where
  pub context : Context Plan Success
  pub published : List (String × Success)

-- `if workflow_id not in d: d[workflow_id] = success`, once the entry has been read.
abbrev pub published_after :
    {Success : Type 0}
    → String
    → Success
    → Option Success
    → List (String × Success)
    → List (String × Success)
published_after workflow_id success none d = put workflow_id success d
published_after workflow_id success (some existing) d = d

module _ {Plan Success : Type 0} where
  -- What follows the delegated record.
  abbrev pub publish :
      String
      → Success
      → List (String × Success)
      → Outcome (Unit {0}) × Context Plan Success
      → Outcome (Unit {0}) × ReadAfterWrite Plan Success
  publish workflow_id success published (raised e, context) =
      (raised e, record { context = context; published = published })
  publish workflow_id success published (returned u, context) = (
    returned tt,
    record {
      context = context;
      published = published_after workflow_id success (get workflow_id published) published;
    },
  )

module _ {Plan Success : Type 0} (equal : Success → Success → Bool) where
  unfoldable pub record_and_publish : String → Success → M (ReadAfterWrite Plan Success) (Unit {0})
  record_and_publish workflow_id success w =
      publish workflow_id success w.published
        (record_success equal ParallelPhase.forecasting workflow_id success w.context)

module _ {Plan Success : Type 0} where
  unfoldable pub get_success : String → M (ReadAfterWrite Plan Success) Success
  get_success workflow_id w = (found_or Message.success_not_found (get workflow_id w.published), w)
