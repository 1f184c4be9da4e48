-- ===== src/Orchestration/Tests.antt =====
-- The theorems on orchestration at one workflow.
use armenian_energy_trading.Base.{
  ◌≡◌, ◌≢◌, refl, ◌↔◌, inl, inr, List, [], ◌∷◌, ℕ, zero, suc, ◌+◌, true, false, some, none,
  Distinct, arith, map, Bool, String, nat_beq,
}
use armenian_energy_trading.Base.Dict.{get, put}
use armenian_energy_trading.Orchestration.Text.{strip, lstrip, rstrip, is_space}
use armenian_energy_trading.Orchestration.Exceptions.{
  AgentName, ParallelPhase, ApplicationError, Message, application, error, cancelled, agent_failure,
  group, from_exception, Members, no_more, member, members, Outcome, returned, raised, is_exception,
  weather_and_renewable_forecast, hydro_resources, generation_availability, news_intelligence,
  market_monitoring, consumer_load_forecast, dam_price_forecast,
}
use armenian_energy_trading.Orchestration.Effects.{M, ◌>>=◌}
use armenian_energy_trading.Orchestration.State.{
  WorkflowPhase, WorkflowStatus, WorkflowState, IsSnapshot, post_init, require_non_empty,
}
use armenian_energy_trading.Orchestration.State.Laws.{post_init-IsSnapshot}
use armenian_energy_trading.Orchestration.Failures.{
  extract_agent_failures, AgentFailure, handle_group, initial_ports,
}
use armenian_energy_trading.Orchestration.Failures.Extract.{
  leaves, failure_exception, extract_agent_failures-leaves,
}
use armenian_energy_trading.Orchestration.Failures.Handle.{verdict, handle_group-verdict}
use armenian_energy_trading.Orchestration.TaskGroup.{
  Schedule, ParallelIngestionPlan, ParallelIngestionSuccess, ForecastingPlan, ingestion_failures,
  execute_forecasting, attributed_run, run_attributed,
}
use armenian_energy_trading.Orchestration.TaskGroup.Laws.{tasks}
use armenian_energy_trading.Orchestration.TaskGroup.Execute.{execute_forecasting-single}
use armenian_energy_trading.Orchestration.Steps.{IngestionContextPort}
use armenian_energy_trading.Orchestration.Graph.{Services, invoke}
use armenian_energy_trading.Orchestration.Graph.Invoke.{
  initial_services, phase_result, invoke-phase,
}
use armenian_energy_trading.Orchestration.Graph.Steps.{KeepState}
use armenian_energy_trading.Orchestration.Graph.Reach.{
  Calls, no_call, next_call, Continues, Calls-Continues, two_calls, halted,
}
use armenian_energy_trading.Orchestration.Graph.Runtime.{drive, drive-FollowsEdges}
use armenian_energy_trading.Orchestration.Contexts.{
  Context, record_success, ReadAfterWrite, record_and_publish, get_success,
}
use armenian_energy_trading.Orchestration.Contexts.Laws.{
  IsView, record_success-keeps, get_success-record_and_publish, KeepsPublished,
  record_and_publish-KeepsPublished, record_all,
}
use armenian_energy_trading.Orchestration.Flow.{
  ingestion_step, ingestion_step-Keeps, invoke-Answers, invoke-single_failure,
}

abbrev started : WorkflowState
started = record {
  workflow_id = "dam-1";
  portfolio_id = "main";
  delivery_date = 739_000;
  correlation_id = "c-1";
  phase = WorkflowPhase.ingestion;
  status = WorkflowStatus.running;
  diagnostics = [];
}

started-IsSnapshot : IsSnapshot started
unfolding strip lstrip rstrip is_space
started-IsSnapshot = record {
  workflow = (refl, refl);
  portfolio = (refl, refl);
  correlation = (refl, refl);
}

-- The requests and the replies are numbers. An agent doubles its request, and 0 makes it fail.
abbrev Number : AgentName → Type 0
Number a = ℕ

abbrev answer : ℕ → Outcome ℕ
answer zero = raised (error "no data")
answer (suc n) = returned (suc n + suc n)

abbrev agents : (a : AgentName) → Number a → Outcome (Number a)
agents a request = answer request

abbrev plan : ℕ → ParallelIngestionPlan Number Number
plan news = record {
  weather_and_renewable_forecast = 1;
  hydro_resources = 2;
  generation_availability = 3;
  news_intelligence = news;
  market_monitoring = 5;
}

-- A context with one plan that counts what it records.
abbrev context :
    ℕ
    → IngestionContextPort ℕ
        (ParallelIngestionPlan Number Number)
        (ParallelIngestionSuccess Number Number)
context news = record {
  resolve_plan = λ workflow_id w. (returned (plan news), w);
  record_success = λ workflow_id success w. (returned tt, w + 1);
}

abbrev schedule : Schedule
schedule =
    (hydro_resources, false)
    ∷ (news_intelligence, false)
    ∷ (market_monitoring, true)
    ∷ (weather_and_renewable_forecast, true)
    ∷ (generation_availability, false)
    ∷ []

abbrev same_state : WorkflowState → M ℕ WorkflowState
same_state s w = (returned s, w)

abbrev services : ℕ → Services ℕ
services news =
    initial_services same_state (ingestion_step agents (context news) schedule) same_state

invoke-Answers_example :
    invoke (services 4) (drive (services 4)) started 7
    ≡ (returned (record started { phase = WorkflowPhase.forecasting }), 8)
invoke-Answers_example =
    invoke-Answers agents (context 4) schedule same_state same_state (drive (services 4))
      (drive-FollowsEdges (services 4)) started 7 7 (plan 4) started-IsSnapshot refl refl refl
      (record {
        weather_and_renewable_forecast = 2;
        hydro_resources = 4;
        generation_availability = 6;
        news_intelligence = 8;
        market_monitoring = 10;
      })
      (record { weather = refl; hydro = refl; generation = refl; news = refl; market = refl }) refl

others_return :
    (b : AgentName) → b ≢ news_intelligence → ingestion_failures agents (plan 0) b ≡ none
unfolding attributed_run run_attributed
others_return news_intelligence h = absurd (h refl)
others_return weather_and_renewable_forecast h = refl
others_return hydro_resources h = refl
others_return generation_availability h = refl
others_return market_monitoring h = refl
others_return _ h = refl

schedule-Distinct : Distinct (tasks schedule)
schedule-Distinct = (
  (λ m. ground arith),
  ((λ m. ground arith), ((λ m. ground arith), ((λ m. ground arith), ((λ m. m), tt)))),
)

news_fails :
    ingestion_failures agents (plan 0) news_intelligence
    ≡ some (
        agent_failure ParallelPhase.parallel_ingestion news_intelligence
          (from_exception (error "no data")))
unfolding attributed_run run_attributed is_exception
news_fails = refl

invoke-single_failure_example :
    invoke (services 0) (drive (services 0)) started 7
    ≡ (returned (record started { status = WorkflowStatus.failed }), 7)
invoke-single_failure_example =
    invoke-single_failure agents (context 0) schedule same_state same_state (drive (services 0))
      (drive-FollowsEdges (services 0)) started 7 7 (plan 0) started-IsSnapshot refl refl refl
      news_intelligence (error "no data") news_fails others_return schedule-Distinct
      (inr (inl refl))

keep : KeepState same_state (ingestion_step agents (context 4) schedule) same_state
keep = record {
  regulatory_keeps = λ s w. refl;
  ingestion_keeps = ingestion_step-Keeps agents (context 4) schedule;
  forecasting_keeps = λ s w. refl;
}

one_call :
    Calls same_state
      (ingestion_step agents (context 4) schedule)
      same_state
      (drive (services 4))
      (drive-FollowsEdges (services 4))
      keep
      started
      7
      (record started { phase = WorkflowPhase.forecasting })
      8
one_call = next_call no_call invoke-Answers_example

Calls-Continues_example : Continues started (record started { phase = WorkflowPhase.forecasting })
Calls-Continues_example =
    Calls-Continues same_state (ingestion_step agents (context 4) schedule) same_state
      (drive (services 4)) (drive-FollowsEdges (services 4)) keep started-IsSnapshot one_call

abbrev waiting : WorkflowState
waiting = record started { status = WorkflowStatus.pending }

waiting-IsSnapshot : IsSnapshot waiting
unfolding strip lstrip rstrip is_space
waiting-IsSnapshot = record {
  workflow = (refl, refl);
  portfolio = (refl, refl);
  correlation = (refl, refl);
}

halted_example : invoke (services 4) (drive (services 4)) waiting 7 ≢ (returned waiting, 7)
halted_example =
    halted same_state (ingestion_step agents (context 4) schedule) same_state (drive (services 4))
      (drive-FollowsEdges (services 4)) keep waiting-IsSnapshot (cc)

two_calls_example :
    (invoke
          (initial_services same_state same_state same_state)
          (drive (initial_services same_state same_state same_state))
          started
        >>= invoke
            (initial_services same_state same_state same_state)
            (drive (initial_services same_state same_state same_state)))
      7
    ≡ (returned (record started { phase = WorkflowPhase.risk_and_bid }), 7)
two_calls_example =
    two_calls same_state same_state same_state
      (drive (initial_services same_state same_state same_state))
      (drive-FollowsEdges (initial_services same_state same_state same_state))
      (record {
        regulatory_keeps = λ s w. refl;
        ingestion_keeps = λ s w. refl;
        forecasting_keeps = λ s w. refl;
      })
      started started-IsSnapshot refl refl refl refl

-- A step whose exception group has two leaves.
abbrev two_leaves : Members
two_leaves = members (
    agent_failure ParallelPhase.parallel_ingestion hydro_resources (from_exception cancelled)
    ∷ group (
        members (
          agent_failure ParallelPhase.parallel_ingestion news_intelligence
            (from_exception (application ApplicationError.conflict Message.success_not_found))
          ∷ []))
    ∷ [])

abbrev failing_step : WorkflowState → M ℕ WorkflowState
failing_step s w = (raised (group two_leaves), w)

invoke-phase_example :
    invoke
      (initial_services same_state failing_step same_state)
      (drive (initial_services same_state failing_step same_state))
      started
      7
    ≡ phase_result ParallelPhase.parallel_ingestion started (failing_step started 7)
invoke-phase_example =
    invoke-phase same_state failing_step same_state
      (drive (initial_services same_state failing_step same_state))
      (drive-FollowsEdges (initial_services same_state failing_step same_state))
      ParallelPhase.parallel_ingestion started started-IsSnapshot refl refl 7 tt

handle_group-verdict_example :
    handle_group {W = ℕ}
      (initial_ports ParallelPhase.parallel_ingestion)
      ParallelPhase.parallel_ingestion
      started
      two_leaves
      7
    ≡ (verdict ParallelPhase.parallel_ingestion started (leaves two_leaves), 7)
handle_group-verdict_example =
    handle_group-verdict ParallelPhase.parallel_ingestion started 7 started-IsSnapshot refl refl
      two_leaves

abbrev two_failures : List AgentFailure
two_failures =
    record { agent_name = hydro_resources; cause = from_exception cancelled }
    ∷ record {
      agent_name = news_intelligence;
      cause = from_exception (application ApplicationError.conflict Message.success_not_found);
    }
    ∷ []

extract_agent_failures-leaves_example :
    (extract_agent_failures ParallelPhase.parallel_ingestion two_leaves ≡ returned two_failures)
    ↔ (leaves two_leaves ≡ map (failure_exception ParallelPhase.parallel_ingestion) two_failures)
extract_agent_failures-leaves_example =
    extract_agent_failures-leaves ParallelPhase.parallel_ingestion two_leaves two_failures

post_init-IsSnapshot_example : IsSnapshot started
post_init-IsSnapshot_example =
    post_init-IsSnapshot (record started { workflow_id = " dam-1 " })
      (unfold post_init require_non_empty strip lstrip rstrip is_space in refl)

abbrev forecasting_plan : ForecastingPlan Number Number
forecasting_plan = record { consumer_load_request = 3; dam_price_request = 0 }

-- The price request of the plan is the one that fails.
execute_forecasting-single_example :
    execute_forecasting agents
      ((consumer_load_forecast, true) ∷ (dam_price_forecast, false) ∷ [])
      forecasting_plan
    ≡ raised (
        group (
          member
            (agent_failure ParallelPhase.forecasting dam_price_forecast
              (from_exception (error "no data")))
            no_more))
unfolding is_exception
execute_forecasting-single_example =
    execute_forecasting-single agents
      ((consumer_load_forecast, true) ∷ (dam_price_forecast, false) ∷ []) forecasting_plan
      ((λ m. ground arith), ((λ m. m), tt)) (inl refl) (inr (inl refl)) refl

-- A success is an amount and the places that it is written with; `==` is on amounts, as of 45.0 and 45.00.
abbrev Amount : Type 0
Amount = ℕ × ℕ

abbrev equal_amounts : Amount → Amount → Bool
equal_amounts a b = nat_beq a.0 b.0

abbrev one_success : Context ℕ Amount
one_success = record { plans = []; successes = ("dam-1", (45, 1)) ∷ [] }

record_success-keeps_example :
    get "dam-1"
      (record_success equal_amounts ParallelPhase.forecasting "dam-1"
        (45, 2)
        one_success).1.successes
    ≡ some (45, 1)
record_success-keeps_example =
    record_success-keeps equal_amounts ParallelPhase.forecasting "dam-1" "dam-1" (45, 2) (45, 1)
      one_success (unfold get in refl)

abbrev unread : ReadAfterWrite ℕ Amount
unread = record { context = one_success; published = [] }

unread-IsView : IsView equal_amounts unread
unfolding get
unread-IsView = record { shown = λ j v h. cc }

-- The published object is equal to the recorded one, and another.
record_and_publish-KeepsPublished_example :
    KeepsPublished equal_amounts unread (record_and_publish equal_amounts "dam-1" (45, 2) unread).1
record_and_publish-KeepsPublished_example =
    record_and_publish-KeepsPublished equal_amounts "dam-1" (45, 2) unread unread-IsView

abbrev after_one : ReadAfterWrite ℕ Amount
after_one = record { context = one_success; published = ("dam-1", (45, 2)) ∷ [] }

abbrev retries : List (String × Amount)
retries = ("dam-1", (45, 3)) ∷ ("dam-1", (46, 1)) ∷ ("dam-2", (7, 0)) ∷ []

get_success-record_and_publish_example :
    get_success "dam-1" (record_all equal_amounts retries after_one)
    ≡ (returned (45, 2), record_all equal_amounts retries after_one)
get_success-record_and_publish_example =
    get_success-record_and_publish equal_amounts "dam-1" (45, 2) unread after_one retries
      (unfold get in refl) (unfold record_and_publish record_success get put in refl)
