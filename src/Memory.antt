-- ===== src/Memory.antt =====
-- The memory substrate of memory/: the governed vocabulary and the retrieval of events.
pub mod Ontology
pub mod Retrieval
