-- ===== src/Monitor.antt =====
-- services/monitor-service/src/services/: limits on the time of executions.
pub mod Sla
pub mod Health
