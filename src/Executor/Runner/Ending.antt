-- ===== src/Executor/Runner/Ending.antt =====
-- How a run of a claimed task ends: the row, the dead letters, the queue and the claimer.
use task_orchestrator_engine.Types.{TaskStatus.pending, TaskStatus.running}
use task_orchestrator_engine.Redis.Server.{Server}
use task_orchestrator_engine.Executor.World.{World}
