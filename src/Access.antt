-- ===== src/Access.antt =====
-- Who may run which pipeline: server/auth/ and server/pipelines/.
pub mod Policies
pub mod Merge
pub mod Claims
pub mod Groups
pub mod Resolve
pub mod Consultants
pub mod Commands
