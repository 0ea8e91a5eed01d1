-- ===== src/Pipeline.antt =====
-- The pipeline engine's package, code_query_engine/pipeline.
pub mod Result
pub mod Definitions
pub mod State
pub mod Registry
pub mod Inbox
pub mod Engine
pub mod Validator
pub mod Budget
pub mod Actions
pub mod Loader
