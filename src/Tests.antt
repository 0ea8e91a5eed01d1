-- ===== src/Tests.antt =====
-- Concrete inputs on which the definitions run and the theorems apply.
mod Fixtures
mod Engine
mod Flow
mod Actions
mod Callbacks
mod History
mod Access
mod Context
mod Answers
mod Loader
mod Commands
mod Formatter
