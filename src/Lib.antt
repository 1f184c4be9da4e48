-- ===== src/Lib.antt =====
-- The Armenian energy trading platform: its forecasting experiments, its workflow and its schema
-- resolution.
--
-- The platform forecasts day-ahead prices and consumer loads from the observed ones, and runs a daily
-- workflow of agents over them. src/energy_trading/ml/dam_price and src/energy_trading/ml/consumer_load
-- have, offline, builders of supervised rows and of backtest cases from a history, a chronological
-- split of the rows, two least-squares fits, the predictions of a fit, the mean absolute errors and
-- their comparisons, and, live, two forecast models each behind a port of application/ports: one copies
-- yesterday's value, one uses a fit. src/energy_trading/application/orchestration moves an immutable
-- snapshot through the phases of a day: the graph calls the step of the phase, the step an executor
-- that runs the agents at once, and a failing group of agents goes to the failure handling.
--
-- - Base: names of the libraries, lists, tests and equality. Base.Dict is a Python dict with text keys.
-- - Domain: the records of domain/models and domain/value_objects that this code reads and makes.
-- - Decimal and Float: the operations of Python's decimal.Decimal and float, as interfaces. A
--   definition that calculates takes them as an argument, and so holds whatever the precision and the
--   rounding. No law of arithmetic is supposed. Decimal.Whole and Float.Whole are values of the
--   interfaces, to run the definitions on.
-- - Ml: what the source repeats in its modules. Ml.Errors has the errors, an InvalidRequestError told by
--   its module and the name of its message constant; Ml.Cohort the guards on rows (one market, one
--   currency, strict chronology); Ml.Index the dict of observations by timestamp and the comprehensions
--   over its sorted keys; Ml.Arithmetic the decimal loops. Their children have the laws.
-- - DamPrice: a module for each source file of ml/dam_price. Persistence, Backtest,
--   PersistenceEvaluation (previous_day_persistence*.py); Features24h, Split24h, Fit24h, Predict24h,
--   Evaluate24h (one lag); Features168h, Split168h, Fit168h, Predict168h, Evaluate168h, OlsForecast (two
--   lags); PersistenceVsTrained, PersistenceVsTwoLag, OneLagVsTwoLag and ThreeWay (comparisons). The
--   theorems stand in their children, and what they say at a small market in DamPrice.Tests.
-- - ConsumerLoad: the same modules for ml/consumer_load, over loads in floats of one consumer.
-- - Orchestration: application/orchestration. State is the snapshot with its checks (state.py),
--   Transition the moves of the two parallel phases (*_transition.py), Graph the nodes, routes and edges
--   (graph.py), Steps what a node calls (*_workflow.py, regulatory_intelligence_*.py), TaskGroup the
--   executors (*_executor.py), Failures the way from an exception group to a terminal state
--   (*_failure_*.py, *_exception_group.py), Contexts the in-memory contexts of
--   infrastructure/orchestration; Exceptions and Text are Python's exceptions and str.strip, Effects the
--   calls that read and write the world, Flow the composition of these parts.
-- - Requests: what application/ports/dam_price_forecast_model.py and consumer_load_forecast_model.py check
--   when a request is built. A datetime is its instant in UTC, or none, or one that leaves the range.
-- - Schema: infrastructure/adapters/structured/schema_mapping, which finds the canonical field of a
--   column header. Schema has models.py and what is taken from Python (Unicode functions, the ratio of
--   difflib), Schema.Names normalization.py, Schema.Index and Schema.Resolver resolver.py, and
--   Schema.UnitSafety structured/consumption_mapping.py, which refuses headers of another unit.
--
-- A timestamp is the number of microseconds since the least datetime of Python, so that subtracting a
-- lag can overflow as it does there. The loops of the experiments recur on their lists. A port of the
-- orchestration is a function of a world that it may change, and may raise. LangGraph is a parameter, of
-- which it is supposed that a call follows the edges from the entry to the end; Graph.Runtime follows
-- them with a limit of three nodes, which is enough since no path is longer. asyncio.TaskGroup is
-- modelled by a schedule, the order in which the agents end: the first to fail cancels those that have
-- not ended, and a cancelled agent either stops or still ends in its own way.
--
-- Two successes can be equal by Python's == and differ, as amounts of 45.0 and 45.00 do: Contexts takes
-- the equality as an argument of which nothing is supposed.
--
-- Not modelled: pydantic's validation of the records; cancellation of a workflow from outside; what an
-- agent of a parallel phase writes outside of its reply, agents being functions of their requests;
-- exceptions outside of Exception other than CancelledError and groups, such as KeyboardInterrupt; the
-- later phases of orchestration (document indexing, portfolio risk, trading strategy and its handoff);
-- the agents themselves, the readers of CSV and Excel files, time series and unit conversion of
-- ingestion, storage, configuration and the API: they are to follow, or are input and output.
pub mod Base
pub mod Decimal
pub mod Float
pub mod Domain
pub mod Ml
pub mod DamPrice
pub mod ConsumerLoad
pub mod Orchestration
pub mod Schema
pub mod Requests
