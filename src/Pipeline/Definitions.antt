-- ===== src/Pipeline/Definitions.antt =====
-- definitions.py: steps and pipelines as loaded, and the reading of a YAML document.
use local_ai_rag.Prelude.{String, Bool, false, not, List, [], ◌∷◌, if◌then◌else◌}
use local_ai_rag.Text.{is_empty}
use local_ai_rag.Dict.{Dict, put}
use local_ai_rag.Value.{
  Value, flag, text, items, object, to_list, to_dict, truthy, lookup, stripped_text,
}
use local_ai_rag.Pipeline.Result.{
  Result, ok, err, value_error, attribute_error, ◌>>=◌, ◌>>◌, require,
}

pub record StepDef : Type 0 where
  pub id : String
  pub action : String
  pub raw : Dict Value

-- `StepDef.next`
abbrev pub next : StepDef → Value
next step = lookup "next" step.raw

abbrev is_true : Value → Bool
is_true (flag b) = b
is_true v = false

-- `StepDef.end`: only the literal `True` ends a pipeline.
unfoldable pub is_end : StepDef → Bool
is_end step = is_true (lookup "end" step.raw)

pub record PipelineDef : Type 0 where
  pub name : String
  pub settings : Dict Value
  pub steps : List StepDef

unfoldable pub add_steps : Dict StepDef → List StepDef → Dict StepDef
add_steps d [] = d
add_steps d (s ∷ ss) = add_steps (put s.id s d) ss

-- `{s.id: s for s in self.steps}`: of two steps with one id the later is kept.
unfoldable pub steps_by_id : List StepDef → Dict StepDef
unfolding add_steps
steps_by_id steps = add_steps [] steps

-- `(v or "").strip()`, which raises at a value that is no text
unfoldable pub strip_name : Value → Result String
unfolding truthy stripped_text
strip_name (text s) = ok (stripped_text (text s))
strip_name v = if truthy v then err (attribute_error "strip") else ok ""

-- `v or {}` held to a mapping
mapping_or_empty : String → Value → Result (Dict Value)
mapping_or_empty message (object fs) = ok (to_dict fs)
mapping_or_empty message v = if truthy v then err (value_error message) else ok []

list_or_empty : String → Value → Result (List Value)
list_or_empty message (items vs) = ok (to_list vs)
list_or_empty message v = if truthy v then err (value_error message) else ok []

parse_step : Value → Result StepDef
parse_step (object fs) = do
  let s = to_dict fs
  sid ← strip_name (lookup "id" s)
  action ← strip_name (lookup "action" s)
  require (not (is_empty sid)) "Invalid pipeline YAML: each step must have non-empty 'id'."
  require (not (is_empty action)) "Invalid pipeline YAML: step must have non-empty 'action'."
  ok (record { id = sid; action = action; raw = s })
parse_step v = err (value_error "Invalid pipeline YAML: each step must be a mapping.")

parse_steps : List Value → Result (List StepDef)
parse_steps [] = ok []
parse_steps (v ∷ vs) =
    let rest = parse_steps vs in do step ← parse_step v; steps ← rest; ok (step ∷ steps)

parse_root : Value → Result PipelineDef
parse_root (object fs) = do
  let root = to_dict fs
  name ← strip_name (lookup "name" root)
  require (not (is_empty name)) "Invalid pipeline YAML: YAMLpipeline.name is required."
  settings ← mapping_or_empty "YAMLpipeline.settings must be a mapping." (lookup "settings" root)
  raw_steps ← list_or_empty "YAMLpipeline.steps must be a list." (lookup "steps" root)
  steps ← parse_steps raw_steps
  ok (record { name = name; settings = settings; steps = steps })
parse_root v = err (value_error "Invalid pipeline YAML: missing root 'YAMLpipeline' mapping.")

unfoldable pub parse_pipeline_doc : Dict Value → Result PipelineDef
unfolding parse_root strip_name mapping_or_empty list_or_empty parse_steps parse_step
parse_pipeline_doc doc = parse_root (lookup "YAMLpipeline" doc)
