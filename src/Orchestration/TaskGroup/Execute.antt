-- ===== src/Orchestration/TaskGroup/Execute.antt =====
-- The executors of application/orchestration, whatever the order in which the agents end.
use armenian_energy_trading.Base.{◌≡◌, ◌≢◌, refl, true, false, [], none, some, Elem, Distinct}
use armenian_energy_trading.Orchestration.Exceptions.{
  AgentName, ParallelPhase, BaseException, agent_failure, from_exception, is_exception, group,
  no_more, member, Outcome, returned, raised, weather_and_renewable_forecast, hydro_resources,
  generation_availability, news_intelligence, market_monitoring, consumer_load_forecast,
  dam_price_forecast,
}
use armenian_energy_trading.Orchestration.TaskGroup.{
  Schedule, is_cancelled, leave_group, run_attributed, attributed_run, ParallelIngestionPlan,
  ParallelIngestionSuccess, ForecastingPlan, ForecastingSuccess, ingestion_failures,
  forecasting_failures, execute_ingestion, execute_forecasting,
}
use armenian_energy_trading.Orchestration.TaskGroup.Laws.{
  tasks, task_errors-none, task_errors-single,
}

-- Both agents return, or one does and the other raises an ordinary exception.
abbrev pub AtMostOneFails : {A B : Type 0} → Outcome A → Outcome B → Type 0
AtMostOneFails (returned l) (returned d) = Unit
AtMostOneFails (raised e) (returned d) = is_exception e ≡ true
AtMostOneFails (returned l) (raised e) = is_exception e ≡ true
AtMostOneFails (raised e) (raised f) = ⊥

module _ (Request Reply : AgentName → Type 0) where
  -- The replies, or the group with the attributed exception of the agent that fails.
  abbrev pub forecasting_result :
      Outcome (Reply consumer_load_forecast)
      → Outcome (Reply dam_price_forecast)
      → Outcome (ForecastingSuccess Request Reply)
  forecasting_result (returned l) (returned d) =
      returned (record { consumer_load_forecast = l; dam_price_forecast = d })
  forecasting_result (raised e) dam = raised (
      group (
        member (agent_failure ParallelPhase.forecasting consumer_load_forecast (from_exception e))
          no_more))
  forecasting_result (returned l) (raised e) = raised (
      group (
        member (agent_failure ParallelPhase.forecasting dam_price_forecast (from_exception e))
          no_more))

module _ {Request Reply : AgentName → Type 0}
    (agents : (a : AgentName) → Request a → Outcome (Reply a)) where
  -- The five requests of a plan are answered as the success says.
  pub record Answers (plan : ParallelIngestionPlan Request Reply)
      (success : ParallelIngestionSuccess Request Reply) : Type 0 where
    pub weather :
        agents weather_and_renewable_forecast plan.weather_and_renewable_forecast
        ≡ returned success.weather_and_renewable_forecast
    pub hydro : agents hydro_resources plan.hydro_resources ≡ returned success.hydro_resources
    pub generation :
        agents generation_availability plan.generation_availability
        ≡ returned success.generation_availability
    pub news : agents news_intelligence plan.news_intelligence ≡ returned success.news_intelligence
    pub market :
        agents market_monitoring plan.market_monitoring ≡ returned success.market_monitoring

  Answers-none :
      (plan : ParallelIngestionPlan Request Reply)
      (success : ParallelIngestionSuccess Request Reply)
      → Answers plan success
      → (a : AgentName) → ingestion_failures agents plan a ≡ none
  unfolding attributed_run run_attributed
  Answers-none plan success h weather_and_renewable_forecast = rw h.weather refl
  Answers-none plan success h hydro_resources = rw h.hydro refl
  Answers-none plan success h generation_availability = rw h.generation refl
  Answers-none plan success h news_intelligence = rw h.news refl
  Answers-none plan success h market_monitoring = rw h.market refl
  Answers-none plan success h _ = refl

  -- When the five agents return, the executor returns their replies, in whatever order they end.
  pub execute_ingestion-Answers :
      (schedule : Schedule) (plan : ParallelIngestionPlan Request Reply)
      (success : ParallelIngestionSuccess Request Reply)
      → Answers plan success
      → execute_ingestion agents schedule plan ≡ returned success
  unfolding execute_ingestion leave_group attributed_run run_attributed
  execute_ingestion-Answers schedule plan success h =
      rw
        (
          task_errors-none (ingestion_failures agents plan) schedule []
              (λ a m. Answers-none plan success h a),
          h.weather,
          h.hydro,
          h.generation,
          h.news,
          h.market,
        )
        refl

  pub execute_ingestion-single :
      (schedule : Schedule) (plan : ParallelIngestionPlan Request Reply) (x : AgentName)
      (e : BaseException)
      → ingestion_failures agents plan x ≡ some e
      → is_cancelled e ≡ false
      → ((a : AgentName) → a ≢ x → ingestion_failures agents plan a ≡ none)
      → Distinct (tasks schedule)
      → Elem x (tasks schedule)
      → execute_ingestion agents schedule plan ≡ raised (group (member e no_more))
  unfolding execute_ingestion leave_group
  execute_ingestion-single schedule plan x e fails real others distinct m =
      rw
        (task_errors-single (ingestion_failures agents plan) schedule x e fails real others distinct
          m)
        refl

  execute_forecasting-member :
      (schedule : Schedule) (plan : ForecastingPlan Request Reply) (x : AgentName)
      (e : BaseException)
      → forecasting_failures agents plan x ≡ some e
      → is_cancelled e ≡ false
      → ((a : AgentName) → a ≢ x → forecasting_failures agents plan a ≡ none)
      → Distinct (tasks schedule)
      → Elem x (tasks schedule)
      → execute_forecasting agents schedule plan ≡ raised (group (member e no_more))
  unfolding execute_forecasting leave_group
  execute_forecasting-member schedule plan x e fails real others distinct m =
      rw
        (task_errors-single (forecasting_failures agents plan) schedule x e fails real others
          distinct m)
        refl

  load_only :
      (plan : ForecastingPlan Request Reply) {d : Reply dam_price_forecast}
      → agents dam_price_forecast plan.dam_price_request ≡ returned d
      → (a : AgentName) → a ≢ consumer_load_forecast
      → forecasting_failures agents plan a ≡ none
  unfolding attributed_run run_attributed
  load_only plan answers consumer_load_forecast h = absurd (h refl)
  load_only plan answers dam_price_forecast h = rw answers refl
  load_only plan answers _ h = refl

  dam_only :
      (plan : ForecastingPlan Request Reply) {l : Reply consumer_load_forecast}
      → agents consumer_load_forecast plan.consumer_load_request ≡ returned l
      → (a : AgentName) → a ≢ dam_price_forecast
      → forecasting_failures agents plan a ≡ none
  unfolding attributed_run run_attributed
  dam_only plan answers dam_price_forecast h = absurd (h refl)
  dam_only plan answers consumer_load_forecast h = rw answers refl
  dam_only plan answers _ h = refl

  neither :
      (plan : ForecastingPlan Request Reply) {l : Reply consumer_load_forecast}
      {d : Reply dam_price_forecast}
      → agents consumer_load_forecast plan.consumer_load_request ≡ returned l
      → agents dam_price_forecast plan.dam_price_request ≡ returned d
      → (a : AgentName) → forecasting_failures agents plan a ≡ none
  unfolding attributed_run run_attributed
  neither plan loads prices consumer_load_forecast = rw loads refl
  neither plan loads prices dam_price_forecast = rw prices refl
  neither plan loads prices _ = refl

  forecasting-both :
      (schedule : Schedule) (plan : ForecastingPlan Request Reply)
      {l : Reply consumer_load_forecast} {d : Reply dam_price_forecast}
      → agents consumer_load_forecast plan.consumer_load_request ≡ returned l
      → agents dam_price_forecast plan.dam_price_request ≡ returned d
      → execute_forecasting agents schedule plan
        ≡ returned (record { consumer_load_forecast = l; dam_price_forecast = d })
  unfolding execute_forecasting leave_group attributed_run run_attributed
  forecasting-both schedule plan loads prices =
      rw
        (
          task_errors-none (forecasting_failures agents plan) schedule []
              (λ a m. neither plan loads prices a),
          loads,
          prices,
        )
        refl

  load_failure :
      (plan : ForecastingPlan Request Reply) (e : BaseException)
      → agents consumer_load_forecast plan.consumer_load_request ≡ raised e
      → is_exception e ≡ true
      → forecasting_failures agents plan consumer_load_forecast
        ≡ some (agent_failure ParallelPhase.forecasting consumer_load_forecast (from_exception e))
  unfolding attributed_run run_attributed
  load_failure plan e fails ordinary = rw (fails, ordinary) refl

  dam_failure :
      (plan : ForecastingPlan Request Reply) (e : BaseException)
      → agents dam_price_forecast plan.dam_price_request ≡ raised e
      → is_exception e ≡ true
      → forecasting_failures agents plan dam_price_forecast
        ≡ some (agent_failure ParallelPhase.forecasting dam_price_forecast (from_exception e))
  unfolding attributed_run run_attributed
  dam_failure plan e fails ordinary = rw (fails, ordinary) refl

  -- In whatever order the tasks of the two forecasting agents end: when both agents return, the executor
  -- returns their replies; when one raises an ordinary exception and the other returns, it raises a group
  -- of one member, the failure of the forecasting phase with the name of that agent and its exception.
  pub execute_forecasting-single :
      (schedule : Schedule) (plan : ForecastingPlan Request Reply)
      → Distinct (tasks schedule)
      → Elem consumer_load_forecast (tasks schedule)
      → Elem dam_price_forecast (tasks schedule)
      → AtMostOneFails
          (agents consumer_load_forecast plan.consumer_load_request)
          (agents dam_price_forecast plan.dam_price_request)
      → execute_forecasting agents schedule plan
        ≡ forecasting_result Request Reply
            (agents consumer_load_forecast plan.consumer_load_request)
            (agents dam_price_forecast plan.dam_price_request)
  execute_forecasting-single schedule plan distinct load_in dam_in single =
      by_outcome _ _ refl refl single
    where
      by_outcome :
          (load : Outcome (Reply consumer_load_forecast)) (dam : Outcome (Reply dam_price_forecast))
          → agents consumer_load_forecast plan.consumer_load_request ≡ load
          → agents dam_price_forecast plan.dam_price_request ≡ dam
          → AtMostOneFails load dam
          → execute_forecasting agents schedule plan ≡ forecasting_result Request Reply load dam
      by_outcome (returned l) (returned d) loads prices one =
          forecasting-both schedule plan loads prices
      by_outcome (raised e) (returned d) loads prices one =
          execute_forecasting-member schedule plan consumer_load_forecast _
            (load_failure plan e loads one) refl (load_only plan prices) distinct load_in
      by_outcome (returned l) (raised e) loads prices one =
          execute_forecasting-member schedule plan dam_price_forecast _
            (dam_failure plan e prices one) refl (dam_only plan loads) distinct dam_in
      by_outcome (raised e) (raised f) loads prices one = absurd one
