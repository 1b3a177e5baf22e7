-- ===== src/RateLimit.antt =====
-- Rate limiting: apps/backend/app/rate_limit.py.
pub mod Bucket
pub mod Levels
pub mod Agrees
pub mod Refines
pub mod Bounds
pub mod Rules
pub mod Fallback
mod Examples
