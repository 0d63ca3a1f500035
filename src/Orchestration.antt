-- ===== src/Orchestration.antt =====
-- orchestration/: tasks, their states, their lineage and their dependencies.
pub mod State
pub mod Service
pub mod Listing
pub mod Reach
pub mod Recorded
pub mod Invariant
pub mod Terminal
pub mod Examples
