-- ===== src/Examples.antt =====
-- Concrete inputs: tests of the definitions, and the theorems at inputs where their hypotheses hold.
mod Memory
mod Rules
mod Graphs
mod Stores
mod Tasks
mod Flow
mod Schedules
mod Hooks
mod Tables
mod Bodies
mod Timetables
mod Upkeep
