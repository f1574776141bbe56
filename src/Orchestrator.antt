-- ===== src/Orchestrator.antt =====
-- orchestrator/src/orchestrator.js: the state, leadership, readiness and the decision are the
-- modules below.
pub mod State
pub mod Leadership
pub mod Readiness
pub mod Decision
pub mod Frames
pub mod Safety
pub mod Waiting
pub mod Patience
pub mod Identity
pub mod Info
pub mod Reading
