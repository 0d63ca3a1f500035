-- ===== src/Session.antt =====
-- session/: what a session shows of the memory, and how much of it.
pub mod Models
pub mod Window
pub mod Activation
