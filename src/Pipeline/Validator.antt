-- ===== src/Pipeline/Validator.antt =====
-- validator.py: `PipelineValidator.validate`. Hard errors are exceptions, and soft issues warnings.
pub mod Rules
pub mod Laws
pub mod Runs
use local_ai_rag.Prelude.{
  ℕ, zero, suc, String, Bool, true, false, not, ◌&&◌, ◌||◌, Option, none, some, List, [], ◌∷◌, ◌++◌,
  ◌==◌, if◌then◌else◌, is_some, map, ltb,
}
use local_ai_rag.Text.{is_empty, strip}
use local_ai_rag.Dict.{Dict, get, put, contains, keys}
use local_ai_rag.Value.{Value, text, object, Builtins, lookup, stripped_text, to_dict}
use local_ai_rag.Pipeline.Result.{Result, ok, err, value_error, ◌>>=◌, ◌>>◌, require}
use local_ai_rag.Pipeline.Definitions.{StepDef, PipelineDef}
use Rules.{
  elem, has_text, validate_step_common, validate_call_model, validate_prefix_router_contract,
  validate_translate_out_if_needed, validate_fork_action, validate_merge_action,
}

abbrev pub allowed_compat_modes : List String
allowed_compat_modes = "locked" ∷ "latest" ∷ "strict" ∷ []

-- The loop that fills `steps_by_id`.
unfoldable pub index_steps : Dict StepDef → List StepDef → Result (Dict StepDef)
unfolding put get strip
index_steps d [] = ok d
index_steps d (s ∷ ss) =
    let rest = index_steps (put s.id s d) ss in
    do
      require (not (is_empty (strip s.id))) "each step must have a non-empty string id"
      require (not (contains s.id d)) "duplicate step id"
      rest

abbrev without_warnings : Result (Unit {0}) → Result (List String)
without_warnings (ok _) = ok []
without_warnings (err e) = err e

-- The rules of the step's own action.
unfoldable pub validate_action : StepDef → Dict StepDef → Result (List String)
unfolding validate_call_model validate_prefix_router_contract validate_translate_out_if_needed
    validate_fork_action validate_merge_action
validate_action s steps =
    if s.action == "call_model"
    then without_warnings (validate_call_model s)
    else if s.action == "prefix_router"
    then validate_prefix_router_contract s steps
    else if s.action == "translate_out_if_needed"
    then without_warnings (validate_translate_out_if_needed s)
    else if s.action == "fork_action"
    then without_warnings (validate_fork_action s steps)
    else if s.action == "merge_action"
    then without_warnings (validate_merge_action s)
    else ok []

unfoldable pub validate_steps : Dict StepDef → List StepDef → Result (List String)
unfolding validate_step_common validate_action
validate_steps steps [] = ok []
validate_steps steps (s ∷ ss) =
    let rest = validate_steps steps ss in
    do
      validate_step_common s steps
      warnings ← validate_action s steps
      more ← rest
      ok (warnings ++ more)

abbrev pub actions_of : List StepDef → List String
actions_of = map (λ s. s.action)

unfoldable pub with_action : String → List StepDef → List StepDef
with_action a [] = []
with_action a (s ∷ ss) = let rest = with_action a ss in if s.action == a then s ∷ rest else rest

abbrev snapshot_keys : StepDef → Option (List String)
snapshot_keys s = elim (lookup "snapshots" s.raw) [
  | object fs ↦ some (keys (to_dict fs))
  | _ ↦ none
]

unfoldable pub subset : List String → List String → Bool
unfolding elem
subset [] ys = true
subset (x ∷ xs) ys = elem x ys && subset xs ys

abbrev keys_agree : Option (List String) → Option (List String) → Bool
keys_agree (some fork_keys) (some merge_keys) = subset merge_keys fork_keys
keys_agree _ _ = true

abbrev bundle_agrees : List StepDef → List StepDef → Bool
bundle_agrees (fork ∷ []) (merge ∷ []) = keys_agree (snapshot_keys fork) (snapshot_keys merge)
bundle_agrees _ _ = true

unfoldable pub validate_parallel_roads_bundle : List StepDef → Result (Unit {0})
unfolding elem with_action subset lookup
validate_parallel_roads_bundle steps = do
  let actions = actions_of steps
  let has_parallel = elem "parallel_roads_action" actions
  let has_fork = elem "fork_action" actions
  let has_merge = elem "merge_action" actions
  require (not (has_parallel || has_fork || has_merge) || (has_parallel && has_fork && has_merge))
      "parallel_roads_action, fork_action, and merge_action must all be present together"
  require (bundle_agrees (with_action "fork_action" steps) (with_action "merge_action" steps))
      "merge_action snapshots must be a subset of fork_action snapshots"

-- `xs.index(x)`
unfoldable pub index_of : String → List String → Option ℕ
index_of x [] = none
index_of x (y ∷ ys) =
    let rest : Option ℕ = elim (index_of x ys) [ none ↦ none | some i ↦ some (suc i) ] in
    if y == x then some zero else rest

abbrev before : Option ℕ → Option ℕ → Bool
before (some i) (some j) = ltb i j
before _ _ = false

abbrev warn_if : Bool → String → List String
warn_if true w = w ∷ []
warn_if false w = []

unfoldable pub lint_pipeline : List StepDef → List String
unfolding elem index_of
lint_pipeline steps =
    let actions = actions_of steps in
    let ids = map (λ (s : StepDef). s.id) steps in
    let has_expand = elem "expand_dependency_tree" actions in
    warn_if (elem "fetch_node_texts" actions && not has_expand)
      "fetch_node_texts without expand_dependency_tree"
    ++ (warn_if (has_expand && not (elem "search_nodes" actions))
          "expand_dependency_tree without seed source"
        ++ warn_if (before (index_of "call_answer" ids) (index_of "search_nodes" actions))
            "answer before search_nodes")

abbrev pub as_text : Value → String
as_text (text s) = s
as_text v = ""

abbrev pub has_steps : List StepDef → Bool
has_steps [] = false
has_steps (s ∷ ss) = true

-- `validate`: the warnings, or the first error.
unfoldable pub validate : ⦃py : Builtins⦄ → PipelineDef → Result (List String)
unfolding index_steps validate_steps validate_parallel_roads_bundle lint_pipeline elem lookup
    stripped_text
validate ⦃py⦄ pipeline = do
  let settings = pipeline.settings
  require (has_text (lookup "behavior_version" settings)) "behavior_version is required"
  let compat_mode = lookup "compat_mode" settings
  require (has_text compat_mode) "compat_mode is required"
  require (elem (py.lower (stripped_text compat_mode)) allowed_compat_modes)
      "compat_mode must be one of the allowed modes"
  let entry = lookup "entry_step_id" settings
  require (has_text entry) "entry_step_id is required"
  require (has_steps pipeline.steps) "pipeline.steps must be a non-empty list"
  by_id ← index_steps [] pipeline.steps
  require (contains (as_text entry) by_id) "entry_step_id references unknown step"
  warnings ← validate_steps by_id pipeline.steps
  validate_parallel_roads_bundle pipeline.steps
  ok (warnings ++ lint_pipeline pipeline.steps)
