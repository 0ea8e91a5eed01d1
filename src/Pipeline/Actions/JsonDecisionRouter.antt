-- ===== src/Pipeline/Actions/JsonDecisionRouter.antt =====
-- actions/json_decision_router.py: the next step by the decision that a model's answer names.
pub mod Laws
use local_ai_rag.Prelude.{
  String, Bool, true, false, not, ◌&&◌, Option, none, some, List, [], ◌∷◌, if◌then◌else◌,
}
use local_ai_rag.Text.{is_empty, strip, strip_opt}
use local_ai_rag.Dict.{Dict, get, remove}
use local_ai_rag.Value.{
  of_dict, Value, Fields, null, text, object, end, field, to_dict, lookup, str_or_empty, truthy,
  Builtins,
}
use local_ai_rag.Pipeline.Result.{Result, ok, err, value_error, ◌>>=◌, ◌>>◌, require}
use local_ai_rag.Pipeline.Definitions.{StepDef}
use local_ai_rag.Pipeline.State.{State}
use local_ai_rag.Pipeline.Inbox.{Action}
use local_ai_rag.Pipeline.Actions.ModelJson.{JsonTools, parse_decision}

-- The object without its routing keys.
unfoldable pub cleaned : Dict Value → Dict Value
unfolding remove
cleaned obj = remove "mode" (remove "route" (remove "decision" obj))

unfoldable pub routes_of : Value → Result (Dict Value)
routes_of (object (field k v fs)) = ok (to_dict (field k v fs))
routes_of v = err (value_error "json_decision_router: routes must be a non-empty dict")

module _ ⦃py : Builtins⦄ where
  -- `_norm_decision`
  unfoldable pub norm_decision : Value → String
  unfolding str_or_empty
  norm_decision v = py.lower (str_or_empty v)

  abbrev or_next : String → String → String
  or_next s t = if is_empty s then t else s

  -- The decision under the first of three keys that has one.
  unfoldable pub decision_of : Dict Value → String
  unfolding norm_decision lookup
  decision_of obj =
      or_next (norm_decision (lookup "decision" obj))
        (or_next (norm_decision (lookup "route" obj)) (norm_decision (lookup "mode" obj)))

  -- The routes and the fallback of the step.
  unfoldable pub read_routes : StepDef → Result (Dict Value × String)
  unfolding routes_of lookup str_or_empty
  read_routes step = do
    routes ← routes_of (lookup "routes" step.raw)
    let on_other = str_or_empty (lookup "on_other" step.raw)
    require (not (is_empty on_other)) "json_decision_router: on_other is required"
    ok (routes, on_other)

  -- Where a decision leads.
  unfoldable pub decide : Dict Value → String → String → String
  unfolding lookup str_or_empty
  decide routes on_other decision =
      let target = str_or_empty (lookup decision routes) in
      if not (is_empty decision) && not (is_empty target) then target else on_other

  -- `do_execute`
  unfoldable pub json_decision_router : JsonTools → Action
  unfolding read_routes parse_decision strip_opt decision_of decide cleaned
  json_decision_router tools step s = elim (read_routes step) [
    | err e ↦ (err e, s)
    | ok (routes, on_other) ↦ elim (parse_decision tools (strip_opt s.last_model_response)) [
      | none ↦ (ok (text on_other), s)
      | some obj ↦ (
        ok (text (decide routes on_other (decision_of obj))),
        record s { last_model_response = some (tools.dumps (object (of_dict (cleaned obj)))) },
      )
    ]
  ]
