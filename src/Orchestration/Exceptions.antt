-- ===== src/Orchestration/Exceptions.antt =====
-- What a call can raise: application/errors.py, the attributed failures of parallel_ingestion_agent_failure.py
-- and forecasting_agent_failure.py, and the exceptions of Python that the runtime tells apart.
use armenian_energy_trading.Base.{Bool, true, false, ◌&&◌, List, [], ◌∷◌, String}

-- application/agents/base.py
pub data AgentName : Type 0 where
  regulatory_intelligence pricing_and_sales weather_and_renewable_forecast : AgentName
  hydro_resources generation_availability news_intelligence market_monitoring : AgentName
  consumer_load_forecast dam_price_forecast portfolio_and_risk trading_strategy : AgentName
  billing_and_settlement chief_orchestrator : AgentName

-- The classes of application/errors.py.
pub data ApplicationError : Type 0 where
  application_error invalid_request resource_not_found conflict dependency_unavailable :
      ApplicationError

-- The class variable `code`.
abbrev pub error_code : ApplicationError → String
error_code application_error = "application_error"
error_code invalid_request = "invalid_request"
error_code resource_not_found = "resource_not_found"
error_code conflict = "conflict"
error_code dependency_unavailable = "dependency_unavailable"

-- The two phases whose agents run side by side. Their modules are the same but for the names.
pub data ParallelPhase : Type 0 where
  parallel_ingestion forecasting : ParallelPhase

-- The message constants, by name; `other` is the text of an error that is raised elsewhere.
pub data Message : Type 0 where
  invalid_entry_route invalid_post_phase2_route invalid_post_phase3_route : Message
  invalid_success_transition invalid_failure_transition : ParallelPhase → Message
  unattributed_failure exactly_one_fact : ParallelPhase → Message
  retry_not_implemented fallback_not_implemented : ParallelPhase → Message
  plan_not_found success_conflict : ParallelPhase → Message
  success_not_found : Message
  other : String → Message

-- `error` is any other `Exception`, such as a ValueError. `cancelled` is `asyncio.CancelledError`, which
-- is no `Exception`. `agent_failure` is `ParallelIngestionAgentFailure` or `ForecastingAgentFailure`
-- with its `__cause__`, `group` a `BaseExceptionGroup`.
mutual
  pub data BaseException : Type 0 where
    application : ApplicationError → Message → BaseException
    error : String → BaseException
    cancelled : BaseException
    agent_failure : ParallelPhase → AgentName → Cause → BaseException
    group : Members → BaseException

  pub data Cause : Type 0 where
    no_cause : Cause
    from_exception : BaseException → Cause

  -- The attribute `exceptions` of a group.
  pub data Members : Type 0 where
    no_more : Members
    member : BaseException → Members → Members

abbrev pub members : List BaseException → Members
members [] = no_more
members (e ∷ es) = member e (members es)

-- `isinstance(e, Exception)`. A group is one when all its members are: `BaseExceptionGroup` then makes
-- an `ExceptionGroup`.
unfoldable mutual
  pub is_exception : BaseException → Bool
  is_exception (application c m) = true
  is_exception (error text) = true
  is_exception cancelled = false
  is_exception (agent_failure p a c) = true
  is_exception (group es) = all_exceptions es

  pub all_exceptions : Members → Bool
  all_exceptions no_more = true
  all_exceptions (member e es) = is_exception e && all_exceptions es

-- How a call ends.
pub data Outcome (A : Type 0) : Type 0 where
  returned : A → Outcome A
  raised : BaseException → Outcome A

abbrev pub invalid : {A : Type 0} → Message → Outcome A
invalid message = raised (application invalid_request message)
