-- ===== src/Task.antt =====
-- The task centre: the approval and execution life of a task.
pub mod Model
pub mod Machine
pub mod Service
pub mod Worker
pub mod Expiry
pub mod Reconcile
pub mod Rescue
pub mod Approval
pub mod System
pub mod Listing
pub mod Lease
mod Examples
