-- ===== src/Scheduler.antt =====
-- services/scheduler-api/src/: its tables, repositories and controllers, the end of an execution, the
-- evaluation of schedules and the detection of orphans.
pub mod Completion
pub mod TaskStates
pub mod Tables
pub mod Workflows
pub mod Json
pub mod Bodies
pub mod Controller
pub mod Schedules
pub mod Evaluator
pub mod Orphans
pub mod Pages
pub mod Executions
