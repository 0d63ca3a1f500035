-- ===== src/Runtime.antt =====
-- runtime/: the supervised loop over the orchestration service.
pub mod State
pub mod Store
pub mod World
pub mod Dispatch
pub mod Runner
