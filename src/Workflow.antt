-- ===== src/Workflow.antt =====
-- workflow/: definitions and plans of workflows, the execution engine, its lineage and its replay.
pub mod State
pub mod Definition
pub mod Validation
pub mod Planner
pub mod SnapshotPolicy
pub mod Downstream
pub mod Executor
pub mod Lineage
pub mod Replay
pub mod Storage
pub mod Recovery
pub mod History
pub mod Examples
pub mod Coordination
