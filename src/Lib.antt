-- ===== src/Lib.antt =====
-- The pipeline core of LocalAI-RAG, and what shows its runs to clients.
--
-- A run is described by a pipeline, a list of steps with an action each. The engine starts at the entry
-- step, looks the step's action up in a registry, lets it work on the state of the run, and goes on to
-- the step that the action names, or else to the step's `next`. Steps leave messages for each other in an
-- inbox. Before a run a validator looks at the pipeline, and the budget contract fits its token limits
-- into the window of the model. While it runs, another thread may ask for its cancellation, and clients
-- may follow it through streams of a broker, as far as a policy lets them. The questions and answers of a
-- session are kept by a service with a store for sessions and one for known users. What a user may run,
-- and what he may see, is worked out from the claims of his token and the policies of his groups.
--
-- Paths are below code_query_engine/ unless they say otherwise.
--   Prelude, Text, Dict: tests on native numbers, lists, the integers of Python, `str.strip` and its like,
--     and dictionaries as association lists in insertion order.
--   Value: what YAML and JSON documents hold, and Python's builtins on them. `str.lower`, `str.upper`, `str.isalnum`, `str`
--     of a number or a container, `int` of a text and `str.format` are fields of `Builtins`, an instance argument.
--   Pipeline/Definitions: pipeline/definitions.py. Pipeline/State and Pipeline/Inbox: pipeline/state.py and the
--     entry of a step in pipeline/actions/base_action.py. Pipeline/Registry: pipeline/action_registry.py.
--   Pipeline/Engine: `PipelineEngine.run` of pipeline/engine.py, a round as `run_step`, the loop as `run_loop`
--     and the whole as `run`. An action is a function from a step and a state to a result and a state.
--   Pipeline/Validator: pipeline/validator.py. Pipeline/Budget: pipeline/budget_contract.py.
--   Pipeline/Actions: loop_guard.py, prefix_router.py, repeat_query_guard.py, parallel_roads.py of
--     pipeline/actions/, with manage_context_budget.py as ContextBudget, inbox_dispatcher.py, json_decision_router.py,
--     set_variables.py and add_command_action.py. ModelJson has the parsers of a model's answer that two of
--     them share; what `json`, `ast` and regular expressions make of a text is an argument.
--   Pipeline/Loader: pipeline/loader.py, with the merge of a document over the one that it extends, and in
--     Pipeline/Loader/Files the chain of files, on a file system that is an argument.
--   Callback/Policy, Callback/Broker: work_callback/policy.py and work_callback/broker.py. An operation of the
--     broker is a function for each time that it takes the lock, and threads interleave these with the steps of the
--     cleanup that each operation runs behind the lock. Callback/Formatter: work_callback/formatter.py, what a
--     client is shown of an event.
--   Callback/Cancel: `PipelineCancelRegistry` of pipeline/cancellation.py, with Callback/Cancel/Runs for what the
--     engine's checks see of it, and work_callback/cancel_controller.py behind its HTTP part.
--   History/Turn, History/Sessions, History/Durable, History/Service: types.py, session_store_kv.py,
--     durable_store_memory.py and service.py of conversation_history/. What `uuid.uuid4()` and the clock give is
--     an argument of the operations; the two stores of one request get the same time.
--   Access: who may do what. Access/Policies: server/auth/policies_provider.py. Access/Claims, Access/Groups,
--     Access/Merge and Access/Resolve: `DevUserAccessProvider` of server/auth/user_access.py, with the claims' values,
--     the groups they stand for, what groups grant together, and the whole request. Access/Consultants:
--     pipeline_access.py and pipeline_snapshot_store.py of server/pipelines/. Access/Commands: server/commands/.
--     (These paths are from the root.)
--   Tests: concrete runs.
--
-- An exception is a value of `Pipeline/Result`, which keeps its class and the fixed part of its message.
-- The loop of the engine runs on fuel, one unit a round, and may go on for ever in a pipeline with a
-- cycle; where a rank falls along every branch, two rounds more than the rank of the entry step are
-- enough. The loader reads a chain of 21 files at most, as the source does. All other loops are
-- recursions on lists. Numbers of tokens and counters are integers without a bound, as in Python; times
-- are milliseconds. What the cancellation registry answers while a run goes on is a function from the
-- number of the check, since other threads change it.
--
-- Left out: the encoding of stored sessions as JSON and their expiry; log messages and trace files, which
-- nothing else reads; the HTTP endpoints; the calls of models, of the vector store and of the graph
-- store; the index of pipelines by name and the lock file; the classifier of code and the summarizers,
-- which ContextBudget takes as arguments; and the remaining actions.
pub mod Access
pub mod Prelude
pub mod Text
pub mod Dict
pub mod Value
pub mod Pipeline
pub mod Callback
pub mod History
pub mod Tests
