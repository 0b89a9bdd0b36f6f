-- ===== src/Dag.antt =====
-- packages/shared/src/dag/: the validation, the ordering and the canonical form of a workflow.
pub mod Graph
pub mod Search
pub mod Sort
pub mod Validator
pub mod Serializer
