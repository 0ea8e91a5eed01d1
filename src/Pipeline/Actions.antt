-- ===== src/Pipeline/Actions.antt =====
-- The pipeline actions of code_query_engine/pipeline/actions that are modelled, one module each.
-- Each is its `do_execute`; what every action does around it is `Inbox.execute`.
pub mod LoopGuard
pub mod PrefixRouter
pub mod RepeatQueryGuard
pub mod ParallelRoads
pub mod ContextBudget
pub mod ModelJson
pub mod InboxDispatcher
pub mod JsonDecisionRouter
pub mod SetVariables
pub mod AddCommand
