-- ===== src/Pipeline/Inbox.antt =====
-- The per-run inbox: `enqueue_message` and `consume_inbox_for_step` of state.py, and what
-- `PipelineActionBase.execute` does with the inbox at the entry of a step. A payload is a dictionary by the
-- types of this model.
pub mod Laws
use local_ai_rag.Prelude.{
  String, Bool, true, false, not, ◌&&◌, Option, none, some, List, [], ◌∷◌, ◌++◌, ◌==◌,
  if◌then◌else◌, keep_if,
}
use local_ai_rag.Text.{is_empty, strip}
use local_ai_rag.Dict.{Dict}
use local_ai_rag.Value.{Value, is_json_dict}
use local_ai_rag.Pipeline.Result.{Result, ok, err, ◌>>=◌, ◌>>◌, require}
use local_ai_rag.Pipeline.State.{State, Message}
use local_ai_rag.Pipeline.Definitions.{StepDef}

abbrev pub is_json_payload : Option (Dict Value) → Bool
unfolding is_json_dict
is_json_payload none = true
is_json_payload (some d) = is_json_dict d

-- The new inbox, or the exception.
unfoldable pub enqueue_message :
    String → String → Option (Dict Value) → List Message → Result (List Message)
unfolding strip is_json_dict
enqueue_message target_step_id topic payload inbox =
    let target = strip target_step_id in
    let t = strip topic in
    do
      require (not (is_empty target)) "enqueue_message: target_step_id is required"
      require (not (is_empty t)) "enqueue_message: topic is required"
      require (is_json_payload payload) "enqueue_message: payload is not JSON-serializable"
      ok (inbox ++ record { target_step_id = target; topic = t; payload = payload } ∷ [])

abbrev pub is_for : String → Message → Bool
is_for sid msg = strip msg.target_step_id == sid

-- The messages taken, and those that stay.
unfoldable pub consume_inbox_for_step : String → List Message → List Message × List Message
unfolding keep_if
consume_inbox_for_step step_id inbox =
    let sid = strip step_id in
    if is_empty sid
    then ([], inbox)
    else (keep_if (is_for sid) inbox, keep_if (λ m. not (is_for sid m)) inbox)

abbrev pub Action : Type 0
Action = StepDef → State → Result Value × State

-- `execute`: every action takes its messages out of the inbox, and then does its work.
unfoldable pub execute : Action → Action
execute do_execute step s =
    let (taken, kept) = consume_inbox_for_step step.id s.inbox in
    do_execute step (record s { inbox = kept; inbox_last_consumed = taken })
