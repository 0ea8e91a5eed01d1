-- ===== src/History.antt =====
-- code_query_engine/conversation_history/: what the sessions' users asked and were answered.
pub mod Turn
pub mod Sessions
pub mod Durable
pub mod Service
