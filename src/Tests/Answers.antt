-- ===== src/Tests/Answers.antt =====
-- Steps that work on a model's answer: messages, routes and attributes.
use local_ai_rag.Prelude.{
  String, true, ◌⊎◌, none, some, List, [], ◌∷◌, ◌++◌, ◌≡◌, ◌≢◌, refl, ◌==◌, eq_iff, if◌then◌else◌,
  All,
}
use local_ai_rag.Prelude.Any.{Any}
use local_ai_rag.Prelude.Int.{pos}
use local_ai_rag.Dict.{Dict, get}
use local_ai_rag.Value.{
  Value, Values, null, text, num, object, other, items, cons, nil, end, field, lookup,
}
use local_ai_rag.Pipeline.Result.{ok, err}
use local_ai_rag.Pipeline.Definitions.{StepDef}
use local_ai_rag.Pipeline.State.{State, Message, new_state}
use local_ai_rag.Pipeline.Actions.ModelJson.{JsonTools, strip_code_fences}
use local_ai_rag.Pipeline.Actions.InboxDispatcher.{inbox_dispatcher, coerce_rules}
use local_ai_rag.Pipeline.Actions.InboxDispatcher.Laws.{
  Dispatched, Refused, directives, not_json, inbox_dispatcher-Dispatched,
}
use local_ai_rag.Pipeline.Actions.JsonDecisionRouter.{json_decision_router, read_routes}
use local_ai_rag.Pipeline.Actions.JsonDecisionRouter.Laws.{Declared, json_decision_router-Declared}
use local_ai_rag.Pipeline.Actions.SetVariables.{set_variables}
use local_ai_rag.Pipeline.Actions.SetVariables.Laws.{set_name, set_variables-others}
use local_ai_rag.Tests.Fixtures.{plain}

-- A directive for the step `fetch` with an allowed key and another one, and a decision.
abbrev answer : Value
answer = object (
    field "decision" (text "search") (
      field "dispatch"
        (object (
          field "target" (text "fetch")
            (field "limit" (num (pos 5)) (field "acl" (text "all") end))))
        end))

abbrev tools : JsonTools
tools = record {
  loads = λ s. if s == "{ANSWER}" then some answer else none;
  dumps = λ v. "{}";
  literal_eval = λ s. none;
  quote_keys = λ s. s;
  drop_trailing_commas = λ s. s;
  colons_for_equals = λ s. s;
}

abbrev step : StepDef
step = record {
  id = "dispatch";
  action = "inbox_dispatcher";
  raw =
      (
        "rules",
        object (
            field "fetch"
              (object (
                field "allow_keys" (items (cons (text "limit") nil))
                  (field "rename" (object (field "limit" (text "top_k") end)) end)))
              end),
      )
      ∷ ("routes", object (field "search" (text "search_nodes") end))
      ∷ ("on_other", text "answer")
      ∷ [];
}

abbrev answered : State
answered = record (new_state "why?") { last_model_response = some "```json\n{ANSWER}\n```" }

fenced : strip_code_fences "```json\n{ANSWER}\n```" ≡ "{ANSWER}"
unfolding strip_code_fences
fenced = refl

dispatched :
    (inbox_dispatcher tools step answered).1.inbox
    ≡ record {
      target_step_id = "fetch";
      topic = "config";
      payload = some (("top_k", num (pos 5)) ∷ []);
    }
      ∷ []
unfolding inbox_dispatcher
dispatched = refl

inbox_dispatcher-Dispatched_example :
    (new : List Message) × ((inbox_dispatcher tools step answered
        ≡ (ok null, record answered { inbox = [] ++ new }))
      ⊎ ((inbox_dispatcher tools step answered
            ≡ (err not_json, record answered { inbox = [] ++ new }))
          × Any
              (Refused (coerce_rules (lookup "rules" step.raw)))
              (directives tools step answered)))
    × All (Dispatched (coerce_rules (lookup "rules" step.raw))) new
inbox_dispatcher-Dispatched_example = inbox_dispatcher-Dispatched tools step answered

-- The same directive with a set, as `ast.literal_eval` may read one, makes the action raise.
abbrev set_tools : JsonTools
set_tools = record tools {
  loads = λ s. none;
  literal_eval = λ s. some (
      object (
        field "dispatch"
          (object (field "target" (text "fetch") (field "limit" (other true "{1}") end))) end));
}

set_refused : (inbox_dispatcher set_tools step answered).0 ≡ err not_json
unfolding inbox_dispatcher
set_refused = refl

json_decision_router-Declared_example :
    (routes : Dict Value) × (on_other : String) × (target : String) × (read_routes step
      ≡ ok (routes, on_other))
    × (text "search_nodes" ≡ text target)
    × Declared routes on_other target
unfolding json_decision_router
json_decision_router-Declared_example =
    json_decision_router-Declared tools step answered (text "search_nodes") refl

-- Two rules, the second of which raises.
abbrev rules : Values
rules =
    cons
      (object (
        field "set" (text "lines")
          (field "value" (text " a\nb ") (field "transform" (text "split_lines") end))))
      (cons (object (field "set" (text "copy_of_x") (field "from" (text "missing") end))) nil)

abbrev set_step : StepDef
set_step = record { id = "set"; action = "set_variables"; raw = ("rules", items rules) ∷ [] }

abbrev attributes : Dict Value
attributes = ("lines", null) ∷ ("kept", text "x") ∷ []

sets_lines :
    (set_variables tools.loads set_step attributes).1
    ≡ ("lines", items (cons (text "a") (cons (text "b") nil))) ∷ ("kept", text "x") ∷ []
unfolding set_variables
sets_lines = refl

set_variables-others_example :
    get "kept" (set_variables tools.loads set_step attributes).1 ≡ get "kept" attributes
unfolding lookup set_name
set_variables-others_example =
    set_variables-others tools.loads set_step attributes rules "kept" refl
      (lines_ne_kept, (copy_ne_kept, tt))
  where
    lines_ne_kept : ◌≢◌ {A = String} "lines" "kept"
    lines_ne_kept e = cc ((eq_iff "lines" "kept").1 e)

    copy_ne_kept : ◌≢◌ {A = String} "copy_of_x" "kept"
    copy_ne_kept e = cc ((eq_iff "copy_of_x" "kept").1 e)
