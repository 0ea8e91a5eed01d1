-- ===== src/Callback/Cancel/Runs.antt =====
-- The engine's checks against the cancellation registry (the first lines of `_check_cancelled` in
-- pipeline/engine.py), and a request to cancel that comes in while an action runs.
use local_ai_rag.Prelude.{ℕ, String, none, some, if◌then◌else◌}
use local_ai_rag.Dict.{Dict}
use local_ai_rag.Value.{Value}
use local_ai_rag.Pipeline.State.{State, or_else}
use local_ai_rag.Pipeline.Engine.{Cancellations}
use local_ai_rag.Callback.Cancel.{CancelRegistry, get_reason, is_cancelled}

-- What the n-th check finds, when the registry then is the n-th of a sequence.
unfoldable pub checks_of : String → (ℕ → CancelRegistry) → Cancellations
unfolding is_cancelled get_reason or_else
checks_of rid registries n =
    if is_cancelled rid (registries n)
    then some (or_else (get_reason rid (registries n)) "cancelled")
    else none
