-- ===== src/Callback.antt =====
-- The work callbacks of code_query_engine/work_callback, and the registry of cancelled runs, which
-- other threads read and write while a pipeline runs.
pub mod Policy
pub mod Broker
pub mod Cancel
pub mod Formatter
