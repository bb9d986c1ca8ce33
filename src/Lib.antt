-- ===== src/Lib.antt =====
-- AegisDesk: the agent that supervises services (apps/agent).
--
-- The agent loads its services from a configuration file into the `ServiceRegistry`, which keeps one
-- `ProcessSupervisor` for each. The `MetricsCollector` reads the running services' metrics at every
-- interval. The monitor reads each service's status and metrics, asks the `HealthChecker` for a verdict,
-- has the `AlertEvaluator` evaluate the service's rules on metrics and health, hands the evaluations
-- to the `AlertManager`, and lets the `RecoveryManager` restart the service where health or a
-- critical alert call for it. The `AgentApi` answers HTTP requests from what these parts hold, and
-- passes on the requests to start, stop and restart a service and to acknowledge an alert.
--
-- Files and the code that they model (paths under apps/agent; headers under include/agent, sources
-- under src):
--   Service.*     service/service_id.h, desired_state.h, service_definition.h, and the types of
--                 process_supervisor.h: identifiers, desired state, definitions, `ServiceStatus`.
--   Config.*      service/service_registry.cpp, the parsers of the file: Fields has single fields, Parts
--                 the health check, the rules and the policy, Service `parse_service_definition`.
--                 boost::property_tree and std::filesystem are the interfaces PropertyTree and Paths.
--   Registry.*    service/service_registry.cpp, the class: `load_from_file` is LoadFromFile,
--                 `start_one` and `stop_one` are the rounds of StartAutoStartServices and StopAll;
--                 `monitored` gives it the interface that the monitor uses.
--   Metrics.Value metrics/service_metrics.h.
--   Metrics.Sampler metrics/metrics_sampler.cpp: `sample` is Sample; long double is a parameter.
--   Metrics.Collector metrics/metrics_collector.cpp: `collect_once` is CollectOnce, `collect_service`
--                 one round of its first loop, `record_all` the second.
--   Metrics.Linux metrics/linux_metrics_reader.cpp: Tokens and Numbers have its helpers, Proc the
--                 readers of /proc on the lines of the files; `read_process_raw_stats` and
--                 `read_system_capacity` are the two methods.
--   Health.Status health/health_status.h, with the parsers of service/service_registry.cpp.
--   Health.Checker health/health_checker.cpp: `check` is Check, `check_process` CheckProcess; the
--                 counters are the map `consecutive_failures_`. History relates them to past checks.
--   Alerts.Rule, Alerts.Event, Alerts.Evaluation  alerts/alert_rule.h, alert_event.h, the result
--                 type of alert_evaluator.h, with the parsers of service/service_registry.cpp.
--   Alerts.Evaluator alerts/alert_evaluator.cpp: `evaluate_rule` is EvaluateRule, `evaluate`
--                 Evaluate; Condition holds EvaluateCondition and what it calls; Alerts.Key is
--                 MakeRuleKey, which MakeAlertEventId repeats.
--   Alerts.Manager alerts/alert_manager.cpp: `apply_evaluation` is one round of the loop of
--                 ApplyEvaluations; Lifecycle has the specification `next_alert` of one alert.
--   Recovery.Policy, Recovery.State, Recovery.Manager  recovery/recovery_policy.h and
--                 recovery_manager.cpp: `evaluate_and_recover` is EvaluateAndRecover. The supervisor
--                 is the interface Recovery.Supervision: four calls and the law that a definition
--                 never changes. Recovery.Manager.History runs the manager on a supervisor that
--                 writes down the calls it receives, and that may change between the rounds.
--   Supervisor.*  service/process_supervisor.cpp: Sections has the blocks under `state_mutex_`, Run
--                 the operations as sequences of them, interleaved with the observer thread, of
--                 which the return from waitpid is a step of its own, and Safety what every
--                 interleaving preserves. std::filesystem::absolute is a parameter.
--   Executor.*    api/bounded_request_executor.{h,cpp}: the sections under `mutex_`; Run interleaves
--                 submitters, workers and one waiting owner; Safety.Drain has what users rely on.
--   Monitor.*     health/health_monitor.cpp: `check_once` is CheckOnce, over interfaces for the
--                 registry and the metrics collector; the sort of a service's alerts is a parameter;
--                 Worker has Start, Stop and IsRunning.
--   LogReader     service/log_reader.cpp: `read_last_lines` is ReadLastLines, on a file that does not
--                 change; Suffix relates the windows to the whole text.
--   Api.*         api/agent_api.cpp and http_json.cpp: `handle` is Handle, from a method and a target
--                 to the agent after it and a response; Query reads targets, Responses has the
--                 Make...Response methods, Body the texts that they append.
--   HttpServer    api/http_server.cpp: the checks of the options, and the sections that register and
--                 remove sessions and stop the server; Shutdown interleaves them.
--   Alerts.Listing alerts/alert_manager.cpp: the listings that are sorted for display;
--                 std::ranges::sort is a parameter.
--   Prelude.*     texts as lists of bytes, `std::unordered_map` as an association list that shadows
--                 (Dict), bounded deques (Deque), integers, decimal digits.
--
-- Conventions. A method that mutates returns the new state with its result. A method under a mutex
-- is one step; the supervisor, which releases its mutex between blocks, is a step relation with one
-- step for each block. Times and process identifiers are unbounded integers, since sums of a time
-- and a duration of at most a day stay far inside 64 bits; counters that saturate at the largest
-- std::uint32_t have that bound written out, and a conversion to std::uint32_t is `% 2 ^ 32`.
-- Doubles are a parameter (Double). The loops are structural recursions; four take fuel: `decimal`,
-- one more than the number, which has no more digits than that; the log reader's loop, one more
-- than the size of the file, since every round but the last grows the window; the loops over the
-- tokens of a line and over the pairs of a query, the length of the text, of which each round takes a
-- character at least. Code that returns false or nullopt with an error text gives a Result.
-- std::uint64_t in the Linux reader is a number whose bound is written out where the code tests it.
--
-- Not modelled: how often the threads call CheckOnce and CollectOnce; the HTTP sessions and, of the
-- server, all that is sockets and timers of boost; system calls, and with them the reader of the Mach
-- interface; the agent's main, the demo service and the Qt desktop client.
-- In the supervisor the work between the blocks (files, pipe, the child's side of a fork, signals,
-- deadlines) is a choice of the steps, and the destructor is left out.
pub mod Prelude
pub mod Double
pub mod Service
pub mod Metrics
pub mod Health
pub mod Alerts
pub mod Recovery
pub mod Supervisor
pub mod Executor
pub mod LogReader
pub mod Config
pub mod Monitor
pub mod Registry
pub mod Api
pub mod HttpServer
pub mod Tests
