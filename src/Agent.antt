-- ===== src/Agent.antt =====
-- The agent registry: its rows, and the lifecycle with optimistic locking.
pub mod Model
pub mod Lifecycle
pub mod Editing
mod Examples
