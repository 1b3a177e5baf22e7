-- ===== src/Conversation.antt =====
-- Conversations: the translation of Dify's event streams.
pub mod Lines
pub mod Values
pub mod Events
pub mod Trace
pub mod Adapter
pub mod Examples
