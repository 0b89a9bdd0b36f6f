-- ===== src/Executor.antt =====
-- services/executor-service/src/services/: an executor claims a task, runs it, and handles its
-- failure; a finished task makes its successors ready. Heartbeats tell that it is alive.
pub mod World
pub mod Claimer
pub mod RetryHandler
pub mod Tasks
pub mod Runner
pub mod FanOut
pub mod Heartbeats
