-- ===== src/Orchestration/TaskGroup.antt =====
-- `asyncio.TaskGroup` as the executors use it, and parallel_ingestion_executor.py and forecasting_executor.py.
--
-- A schedule lists the tasks in the order in which they end. The first task that raises anything but a
-- cancellation makes the group cancel the others; a task that ends later is said to obey, which means
-- that it ends by `CancelledError`, or to end as it would have, because it was about to. The exceptions
-- are kept in the order of the schedule, and leaving the group raises them together.
pub mod Laws
pub mod Execute
use armenian_energy_trading.Base.{
  Bool, true, false, ◌&&◌, not, if◌then◌else◌, List, [], ◌∷◌, ◌++◌, Option, none, some,
}
use armenian_energy_trading.Orchestration.Exceptions.{
  AgentName, ParallelPhase, BaseException, cancelled, agent_failure, group, from_exception, members,
  is_exception, Outcome, returned, raised,
}
use armenian_energy_trading.Orchestration.Effects.{and_then}

abbrev pub Schedule : Type 0
Schedule = List (AgentName × Bool)

abbrev pub is_cancelled : BaseException → Bool
is_cancelled cancelled = true
is_cancelled _ = false

abbrev pub is_nil : {A : Type 0} → List A → Bool
is_nil [] = true
is_nil (x ∷ xs) = false

-- The exception of a task that was not cancelled from outside.
abbrev pub failure_of : {A : Type 0} → Outcome A → Option BaseException
failure_of (returned value) = none
failure_of (raised e) = some e

-- `_on_task_done`
unfoldable pub task_done : List BaseException → Bool → Option BaseException → List BaseException
task_done errors obeys none = errors
task_done errors obeys (some e) =
    if (not (is_nil errors) && obeys)
    then errors
    else if is_cancelled e
    then errors
    else errors ++ e ∷ []

unfoldable pub task_errors :
    (AgentName → Option BaseException) → Schedule → List BaseException → List BaseException
task_errors own [] errors = errors
task_errors own ((a, obeys) ∷ rest) errors = task_errors own rest (task_done errors obeys (own a))

-- Leaving the `async with` block.
unfoldable pub leave_group : {A : Type 0} → List BaseException → Outcome A → Outcome A
leave_group [] after = after
leave_group errors after = raised (group (members errors))

-- `_run_attributed`
unfoldable pub run_attributed : {A : Type 0} → ParallelPhase → AgentName → Outcome A → Outcome A
run_attributed p agent_name (returned value) = returned value
run_attributed p agent_name (raised e) =
    if is_exception e then raised (agent_failure p agent_name (from_exception e)) else raised e

-- The DTOs of the agents are a type for each agent: the executors do not look into them.
module _ (Request Reply : AgentName → Type 0) where
  pub record ParallelIngestionPlan : Type 0 where
    pub weather_and_renewable_forecast : Request AgentName.weather_and_renewable_forecast
    pub hydro_resources : Request AgentName.hydro_resources
    pub generation_availability : Request AgentName.generation_availability
    pub news_intelligence : Request AgentName.news_intelligence
    pub market_monitoring : Request AgentName.market_monitoring

  pub record ParallelIngestionSuccess : Type 0 where
    pub weather_and_renewable_forecast : Reply AgentName.weather_and_renewable_forecast
    pub hydro_resources : Reply AgentName.hydro_resources
    pub generation_availability : Reply AgentName.generation_availability
    pub news_intelligence : Reply AgentName.news_intelligence
    pub market_monitoring : Reply AgentName.market_monitoring

  pub record ForecastingPlan : Type 0 where
    pub consumer_load_request : Request AgentName.consumer_load_forecast
    pub dam_price_request : Request AgentName.dam_price_forecast

  pub record ForecastingSuccess : Type 0 where
    pub consumer_load_forecast : Reply AgentName.consumer_load_forecast
    pub dam_price_forecast : Reply AgentName.dam_price_forecast

module _ {Request Reply : AgentName → Type 0}
    (agents : (a : AgentName) → Request a → Outcome (Reply a)) where
  -- One task of an executor.
  unfoldable pub attributed_run : ParallelPhase → (a : AgentName) → Request a → Outcome (Reply a)
  attributed_run p a request = run_attributed p a (agents a request)

  -- What the tasks raise by themselves.
  abbrev pub ingestion_failures :
      ParallelIngestionPlan Request Reply → AgentName → Option BaseException
  ingestion_failures plan AgentName.weather_and_renewable_forecast = failure_of (
      attributed_run ParallelPhase.parallel_ingestion AgentName.weather_and_renewable_forecast
        plan.weather_and_renewable_forecast)
  ingestion_failures plan AgentName.hydro_resources = failure_of (
      attributed_run ParallelPhase.parallel_ingestion AgentName.hydro_resources
        plan.hydro_resources)
  ingestion_failures plan AgentName.generation_availability = failure_of (
      attributed_run ParallelPhase.parallel_ingestion AgentName.generation_availability
        plan.generation_availability)
  ingestion_failures plan AgentName.news_intelligence = failure_of (
      attributed_run ParallelPhase.parallel_ingestion AgentName.news_intelligence
        plan.news_intelligence)
  ingestion_failures plan AgentName.market_monitoring = failure_of (
      attributed_run ParallelPhase.parallel_ingestion AgentName.market_monitoring
        plan.market_monitoring)
  ingestion_failures plan _ = none

  -- `ConcurrentParallelIngestionExecutor.execute`
  unfoldable pub execute_ingestion :
      Schedule
      → ParallelIngestionPlan Request Reply
      → Outcome (ParallelIngestionSuccess Request Reply)
  execute_ingestion schedule plan =
      let p : ParallelPhase = ParallelPhase.parallel_ingestion in
      leave_group (task_errors (ingestion_failures plan) schedule []) (
        and_then
          (attributed_run p AgentName.weather_and_renewable_forecast
            plan.weather_and_renewable_forecast)
          λ weather.
            and_then (attributed_run p AgentName.hydro_resources plan.hydro_resources) λ hydro.
              and_then
                (attributed_run p AgentName.generation_availability plan.generation_availability)
                λ generation.
                  and_then (attributed_run p AgentName.news_intelligence plan.news_intelligence)
                    λ news.
                      and_then (attributed_run p AgentName.market_monitoring plan.market_monitoring)
                        λ market. returned (record {
                          weather_and_renewable_forecast = weather;
                          hydro_resources = hydro;
                          generation_availability = generation;
                          news_intelligence = news;
                          market_monitoring = market;
                        }))

  abbrev pub forecasting_failures : ForecastingPlan Request Reply → AgentName → Option BaseException
  forecasting_failures plan AgentName.consumer_load_forecast = failure_of (
      attributed_run ParallelPhase.forecasting AgentName.consumer_load_forecast
        plan.consumer_load_request)
  forecasting_failures plan AgentName.dam_price_forecast =
      failure_of (
        attributed_run ParallelPhase.forecasting AgentName.dam_price_forecast
          plan.dam_price_request)
  forecasting_failures plan _ = none

  -- `ParallelForecastingExecutionService.execute`
  unfoldable pub execute_forecasting :
      Schedule → ForecastingPlan Request Reply → Outcome (ForecastingSuccess Request Reply)
  execute_forecasting schedule plan =
      let p : ParallelPhase = ParallelPhase.forecasting in
      leave_group (task_errors (forecasting_failures plan) schedule []) (
        and_then (attributed_run p AgentName.consumer_load_forecast plan.consumer_load_request)
          λ load.
            and_then (attributed_run p AgentName.dam_price_forecast plan.dam_price_request)
              λ dam. returned (record { consumer_load_forecast = load; dam_price_forecast = dam }))
