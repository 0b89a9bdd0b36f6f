-- ===== src/Cron.antt =====
-- packages/shared/src/scheduling/cron-evaluator.ts: the parser of cron expressions, and the search for
-- the next time that one names.
pub mod Text
pub mod Field
pub mod Calendar
pub mod Search
