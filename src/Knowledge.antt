-- ===== src/Knowledge.antt =====
-- Knowledge bases and the indexing of their documents.
pub mod Model
pub mod Rows
pub mod Documents
pub mod Files
pub mod Requests
pub mod Bases
pub mod Aggregate
pub mod Operations
pub mod Reachable
pub mod Steps
pub mod Recorded
pub mod Observations
pub mod Answers
mod Examples
