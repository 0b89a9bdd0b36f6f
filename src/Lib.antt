-- ===== src/Lib.antt =====
-- The task orchestration engine: a scheduler accepts workflows (tasks and edges), executors claim
-- the tasks of an execution from a Redis queue, run them and handle their failures, and a monitor
-- watches the executions.
--
-- Files and code:
--   Prelude        names of the libraries, tests on native numbers, lemmas on lists, insertion sort
--   Types          packages/shared/src/types.ts
--   StateMachine   packages/shared/src/state-machine/state-machine.ts: `transition`
--   Retry          packages/shared/src/retry/retry-engine.ts: `validateRetryPolicy`,
--                  `calculateRetryDelay`, `shouldRetry`
--   Dag            packages/shared/src/dag/: Dag.Graph is `buildAdjacencyList`, Dag.Search the
--                  depth-first search that `detectCycles` and `topologicalSort` share, Dag.Sort
--                  topological-sorter.ts, Dag.Validator dag-validator.ts, Dag.Serializer
--                  dag-serializer.ts
--   Redis          packages/shared/src/redis/: Redis.TaskQueue is task-queue.ts, Redis.LockManager
--                  lock-manager.ts; Redis.Server states what the commands do,
--                  Redis.TaskQueue.Fifo what the queue promises
--   Executor       services/executor-service/src/services/: Claimer is task-claimer.ts,
--                  RetryHandler retry-handler.ts, Tasks and Runner task-runner.ts, FanOut
--                  fan-out-fan-in.ts; World is the state that they share; Heartbeats is
--                  heartbeat-emitter.ts
--   Migrations     packages/shared/src/db/migrations/index.ts
--   Cron           packages/shared/src/scheduling/cron-evaluator.ts: Cron.Field is the parser,
--                  Cron.Calendar `Date` in UTC, Cron.Search `getNextRunTime` and the time zones;
--                  Cron.Text are the string operations that the parser calls
--   Scheduler      services/scheduler-api/src/: Completion is services/execution-manager.ts, TaskStates
--                  is repositories/task-state-repository.ts, Tables the schema of packages/shared/src/db,
--                  Workflows repositories/workflow-repository.ts, Executions
--                  repositories/execution-repository.ts and controllers/execution-controller.ts, Json
--                  and Bodies the bodies that controllers/workflow-controller.ts validates, Controller
--                  its handlers and middleware/error-handler.ts, Schedules
--                  repositories/schedule-repository.ts and controllers/schedule-controller.ts,
--                  Evaluator services/schedule-evaluator.ts, Orphans services/orphan-detector.ts,
--                  Pages the lists of both repositories
--   Gateway        services/webhook-gateway/src/: Gateway.Webhooks is its middleware, controller and
--                  forwarder, Gateway.Signature packages/shared/src/security/hmac-validator.ts
--   Monitor        services/monitor-service/src/services/: Sla is sla-checker.ts, Health is
--                  executor-health-tracker.ts, over heartbeat-store.ts of packages/shared/src/redis/
--   Examples       tests, and the theorems at concrete inputs
--
-- Operations are functions on the state that they change; a component that talks to Redis takes a
-- server as a record of commands with laws. The environment's choices (the clock, timers, the host
-- that runs a task, the evaluation of an expression) are arguments. Identifiers are numbers, JSON is
-- text. The depth-first searches run on fuel, as much as there are tasks: each call blackens a new
-- task. The breadth-first search has the tasks and edges as fuel, since each edge is queued once.
-- The skipping of tasks has the tasks as fuel, since each call turns a pending task into a skipped
-- one. The wait before a retry is over when the readings of the clock are. The search for the next run has
-- fuel for five years of moments, numbered so that every round moves to a higher number; times are
-- milliseconds from 1970 on, and a time zone other than UTC is the function that the host's formatter
-- stands for.
--
-- Tables are lists of rows in the order of insertion, and the ids that the database draws come from a
-- counter; a transaction that fails leaves them as they were.
--
-- Not modelled: the list of executions, the audit entries and the rest of the monitor's SQL and HTTP
-- (alerts, metrics, their controllers), the trigger manager, the event bus and the cache, since they are
-- calls of the database, of Redis or of the HTTP framework with little of their own; the entry points and
-- routes. A value of a request that the code casts without a test has the type of the cast.
-- Numbers of a body and the results of `Number()` are whole, the rate of an SLA is compared without the
-- rounding of floats, and a lock has a time to live above 0.
pub mod Prelude
pub mod Types
pub mod StateMachine
pub mod Retry
pub mod Dag
pub mod Redis
pub mod Executor
pub mod Gateway
pub mod Migrations
pub mod Scheduler
pub mod Cron
pub mod Monitor
pub mod Examples
