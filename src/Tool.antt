-- ===== src/Tool.antt =====
-- The tool registry, the judgements over it, and the proxy that calls a tool.
pub mod Model
pub mod Judgement
pub mod Policy
pub mod Proxy
mod Examples
