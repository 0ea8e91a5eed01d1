-- ===== src/Pipeline/Validator/Rules.antt =====
-- validator.py: the rules for single steps. A step's id and action are texts, and its raw form a
-- mapping, by their types, so the tests of these kinds are left out.
pub mod Elem
use Prim.Native.String.{[] as empty_text, ◌∷◌ as text_cons}
use local_ai_rag.Prelude.{
  String, Bool, true, false, not, ◌&&◌, ◌||◌, Option, none, some, List, [], ◌∷◌, ◌++◌, ◌==◌,
  if◌then◌else◌, is_some,
}
use local_ai_rag.Text.{is_empty, strip, after_prefix}
use local_ai_rag.Dict.{Dict, get, contains}
use local_ai_rag.Value.{Value, null, flag, object, field, lookup, stripped_text}
use local_ai_rag.Pipeline.Result.{Result, ok, err, value_error, ◌>>=◌, ◌>>◌, require}
use local_ai_rag.Pipeline.Definitions.{StepDef}

-- `x in {...}`
unfoldable pub elem : String → List String → Bool
elem x [] = false
elem x (y ∷ ys) = x == y || elem x ys

abbrev pub known_actions : List String
known_actions =
    "call_model" ∷ "prefix_router" ∷ "translate_in_if_needed" ∷ "translate_out_if_needed"
    ∷ "load_conversation_history" ∷ "search_nodes" ∷ "expand_dependency_tree" ∷ "fetch_node_texts"
    ∷ "finalize" ∷ "loop_guard" ∷ "set_variables" ∷ "add_command_action" ∷ "manage_context_budget"
    ∷ "repeat_query_guard" ∷ "json_decision_router" ∷ "inbox_dispatcher" ∷ "json_inbox_dispatcher"
    ∷ "parallel_roads_action" ∷ "fork_action" ∷ "merge_action" ∷ []

-- `isinstance(v, str) and v.strip()`
abbrev pub has_text : Value → Bool
has_text v = not (is_empty (stripped_text v))

abbrev is_null : Value → Bool
is_null null = true
is_null v = false

abbrev is_flag : Value → Bool
is_flag (flag b) = true
is_flag v = false

-- `isinstance(v, dict) and v`
abbrev pub is_mapping : Value → Bool
is_mapping (object (field k v fs)) = true
is_mapping v = false

unfoldable pub validate_next : Value → Dict StepDef → Result (Unit {0})
validate_next nxt steps = if is_null nxt then ok tt else do
  require (has_text nxt) "next must be a non-empty string if present"
  require (contains (stripped_text nxt) steps) "next references unknown step"

unfoldable pub validate_step_common : StepDef → Dict StepDef → Result (Unit {0})
unfolding validate_next elem strip lookup
validate_step_common step steps = do
  require (not (is_empty (strip step.action))) "action is required"
  require (elem step.action known_actions) "Unknown action"
  validate_next (lookup "next" step.raw) steps
  require (is_null (lookup "end" step.raw) || is_flag (lookup "end" step.raw))
      "end must be boolean if present"

unfoldable pub validate_call_model : StepDef → Result (Unit {0})
unfolding lookup stripped_text
validate_call_model step =
    require (has_text (lookup "prompt_key" step.raw)) "call_model requires prompt_key"

-- `k.endswith(suffix)`
unfoldable pub ends_with : String → String → Bool
ends_with suffix empty_text = suffix == empty_text
ends_with suffix (text_cons c s) = suffix == text_cons c s || ends_with suffix s

-- The stripped values under the keys that end in `_prefix`.
unfoldable pub prefix_values : Dict Value → List String
unfolding ends_with stripped_text
prefix_values [] = []
prefix_values ((k, v) ∷ raw) =
    let rest = prefix_values raw in
    if ends_with "_prefix" k && has_text v then stripped_text v ∷ rest else rest

unfoldable pub has_duplicates : List String → Bool
unfolding elem
has_duplicates [] = false
has_duplicates (x ∷ xs) = elem x xs || has_duplicates xs

abbrev required_pairs : List (String × String)
required_pairs =
    ("semantic_prefix", "on_semantic")
    ∷ ("bm25_prefix", "on_bm25")
    ∷ ("hybrid_prefix", "on_hybrid")
    ∷ ("direct_prefix", "on_direct")
    ∷ ("answer_prefix", "on_answer")
    ∷ ("followup_prefix", "on_followup")
    ∷ []

-- A prefix with no branch is a warning, and a branch to an unknown step an error.
unfoldable pub validate_pairs :
    Dict Value → Dict StepDef → List (String × String) → Result (List String)
unfolding lookup stripped_text
validate_pairs raw steps [] = ok []
validate_pairs raw steps ((prefix_key, on_key) ∷ pairs) =
    let rest = validate_pairs raw steps pairs in
    let target = lookup on_key raw in
    if not (has_text (lookup prefix_key raw))
    then rest
    else if not (has_text target)
    then (do warnings ← rest; ok ("prefix is set but its branch is missing" ∷ warnings))
    else (do
      require (contains (stripped_text target) steps) "on_ key references unknown step"
      rest)

-- Every `on_*` key with a text leads to a step.
unfoldable pub validate_branches : Dict Value → Dict StepDef → Result (Unit {0})
unfolding after_prefix stripped_text
validate_branches [] steps = ok tt
validate_branches ((k, v) ∷ raw) steps =
    let rest = validate_branches raw steps in
    if is_some (after_prefix "on_" k) && has_text v
    then (do require (contains (stripped_text v) steps) "on_ key references unknown step"; rest)
    else rest

abbrev no_texts : List String → Bool
no_texts [] = true
no_texts (x ∷ xs) = false

unfoldable pub validate_prefix_router_contract : StepDef → Dict StepDef → Result (List String)
unfolding prefix_values has_duplicates validate_pairs validate_branches lookup stripped_text
validate_prefix_router_contract step steps = do
  let on_other = lookup "on_other" step.raw
  require (has_text on_other) "prefix_router contract broken: on_other is required"
  require (contains (stripped_text on_other) steps) "on_other references unknown step"
  let values = prefix_values step.raw
  let none_defined = if no_texts values then "no *_prefix keys defined" ∷ [] else []
  require (not (has_duplicates values)) "duplicate *_prefix values detected"
  missing ← validate_pairs step.raw steps required_pairs
  validate_branches step.raw steps
  ok (none_defined ++ missing)

abbrev is_true : Value → Bool
is_true (flag b) = b
is_true v = false

unfoldable pub validate_translate_out_if_needed : StepDef → Result (Unit {0})
unfolding lookup stripped_text
validate_translate_out_if_needed step =
    require
      (not (is_true (lookup "use_main_model" step.raw))
        || has_text (lookup "translate_prompt_key" step.raw))
      "translate_out_if_needed requires translate_prompt_key when use_main_model is true"

abbrev is_search : Option StepDef → Result (Unit {0})
is_search none = err (value_error "fork_action search_action references unknown step")
is_search (some target) =
    require (target.action == "search_nodes") "search_action must point to a search_nodes step"

unfoldable pub validate_fork_action : StepDef → Dict StepDef → Result (Unit {0})
unfolding lookup stripped_text get
validate_fork_action step steps = do
  require (is_mapping (lookup "snapshots" step.raw))
      "fork_action requires non-empty snapshots mapping"
  let search_action = lookup "search_action" step.raw
  require (has_text search_action) "fork_action requires search_action (step id of search_nodes)"
  is_search (get (stripped_text search_action) steps)

unfoldable pub validate_merge_action : StepDef → Result (Unit {0})
unfolding lookup
validate_merge_action step =
    require (is_mapping (lookup "snapshots" step.raw))
      "merge_action requires non-empty snapshots mapping"
