-- ===== src/Pipeline/Budget.antt =====
-- budget_contract.py: `enforce_budget_contract`, which holds the prompt, the history, the context,
-- the output and a safety margin of every `call_model` step under the model's context window. The
-- token counter and the prompt files are arguments. The log lines, and the file times of the cache
-- fingerprint, are left out.
pub mod Enforce
pub mod Laws
pub mod Contract
use Prim.Native.String.{◌++◌ as append_text}
use local_ai_rag.Prelude.{
  String, Bool, true, false, not, ◌&&◌, ◌||◌, Option, none, some, List, [], ◌∷◌, ◌++◌, ◌==◌,
  if◌then◌else◌, is_some,
}
use local_ai_rag.Prelude.Int.{ℤ, pos, ◌+ℤ◌, ◌-ℤ◌, leb_ℤ, ltb_ℤ}
use local_ai_rag.Text.{contains_text, is_empty, strip_opt, after_prefix}
use local_ai_rag.Dict.{Dict, get, put, remove}
use local_ai_rag.Value.{
  Value, null, flag, num, text, items, object, Builtins, truthy, lookup, str_or_empty, to_dict,
}
use local_ai_rag.Pipeline.Result.{Result, ok, err, value_error, type_error, ◌>>=◌, ◌>>◌, require}
use local_ai_rag.Pipeline.Definitions.{StepDef, PipelineDef}

pub data Policy : Type 0 where
  fail_fast auto_clamp : Policy

pub data ClampKind : Type 0 where
  max_context_tokens max_output_tokens : ClampKind

pub record BudgetContractClamp : Type 0 where
  pub kind : ClampKind
  pub step_id : Option String
  pub before : ℤ
  pub after : ℤ

-- The new steps and settings, and the record of what was clamped.
pub record Enforced : Type 0 where
  pub steps : List StepDef
  pub settings : Dict Value
  pub policy : Policy
  pub max_context_tokens_before : ℤ
  pub max_context_tokens_after : ℤ
  pub max_history_tokens : ℤ
  pub clamps : List BudgetContractClamp

-- What the budget of each step is computed from.
pub record Limits : Type 0 where
  pub n_ctx : ℤ
  pub max_history_tokens : ℤ
  pub safety_margin : ℤ
  pub default_out : ℤ
  pub fixed_tokens : Dict ℤ

abbrev pub is_call_model : StepDef → Bool
is_call_model s = s.action == "call_model"

abbrev int_or_raise : Option ℤ → Result ℤ
int_or_raise none = err (value_error "int")
int_or_raise (some n) = ok n

abbrev fixed_or : Option ℤ → ℤ
fixed_or none = pos 1000
fixed_or (some n) = n

-- `per_step_fixed_prompt_tokens.get(step.id, 1000)`
abbrev pub fixed_of : Limits → StepDef → ℤ
fixed_of l step = fixed_or (get step.id l.fixed_tokens)

abbrev is_null : Value → Bool
is_null null = true
is_null v = false

module _ ⦃py : Builtins⦄ where
  -- `int(v)`
  unfoldable pub as_int : Value → Result ℤ
  as_int (num n) = ok n
  as_int (flag true) = ok (pos 1)
  as_int (flag false) = ok (pos 0)
  as_int (text s) = int_or_raise (py.int_of_text s)
  as_int v = err (type_error "int")

  -- `_as_int`: any exception of `int` becomes a ValueError.
  unfoldable pub as_int_for : String → Value → Result ℤ
  unfolding as_int
  as_int_for message v = elim (as_int v) [ ok n ↦ ok n | err e ↦ err (value_error message) ]

  -- `int(v or default)`
  unfoldable pub int_or_default : Value → ℤ → Result ℤ
  unfolding as_int truthy
  int_or_default v d = if truthy v then as_int v else ok d

  unfoldable pub normalize_limits_policy : Option String → Option Policy
  unfolding strip_opt
  normalize_limits_policy v =
      let s = py.lower (strip_opt v) in
      if s == "fail_fast"
      then some fail_fast
      else if s == "auto_clamp"
      then some auto_clamp
      else none

  abbrev wrapper_text : Value → Result String
  wrapper_text (text template) =
      if contains_text "{}" template
      then (elim (py.format template "") [
        | none ↦ err (value_error "template.format")
        | some s ↦ ok s
      ])
      else ok ""
  wrapper_text v = ok ""

  abbrev part_text : Value → Result String
  part_text (object spec) = wrapper_text (lookup "template" (to_dict spec))
  part_text v = ok ""

  unfoldable pub parts_text : Dict Value → Result String
  unfolding contains_text lookup
  parts_text [] = ok ""
  parts_text ((name, spec) ∷ parts) =
      let rest = parts_text parts in do t ← part_text spec; ts ← rest; ok (append_text t ts)

  abbrev parts_of : Value → Result String
  parts_of (object parts) = parts_text (to_dict parts)
  parts_of v = ok ""

  unfoldable pub user_parts_wrappers_text : StepDef → Result String
  unfolding parts_text lookup
  user_parts_wrappers_text step = parts_of (lookup "user_parts" step.raw)

  unfoldable pub step_requested_out_tokens : ℤ → StepDef → Result ℤ
  unfolding as_int lookup
  step_requested_out_tokens default_out step =
      let out = lookup "max_output_tokens" step.raw in
      let tokens = lookup "max_tokens" step.raw in
      if not (is_null out)
      then as_int out
      else if not (is_null tokens)
      then as_int tokens
      else ok default_out

  -- The tokens of a step's prompt that no setting changes: `counter` is the token counter, if there
  -- is one, and `read_prompt` the text of a prompt file, if there is such a file.
  unfoldable pub fixed_prompt_tokens :
      Option (String → ℤ) → (String → Option String) → StepDef → Result ℤ
  unfolding user_parts_wrappers_text str_or_empty lookup
  fixed_prompt_tokens none read_prompt step = ok (pos 1000)
  fixed_prompt_tokens (some counter) read_prompt step =
      let prompt_key = str_or_empty (lookup "prompt_key" step.raw) in
      if is_empty prompt_key then ok (pos 0) else (elim (read_prompt prompt_key) [
        | none ↦ err (value_error "budget_contract: prompt file not found")
        | some sys_txt ↦ do
          wrappers ← user_parts_wrappers_text step
          ok (counter (append_text sys_txt (append_text "\n\n" wrappers)) +ℤ pos 64)
      ])

  -- The first loop: the fixed tokens by step id, and whether any step uses the history.
  unfoldable pub reserve :
      Option (String → ℤ)
      → (String → Option String)
      → Dict ℤ
      → Bool
      → List StepDef
      → Result (Dict ℤ × Bool)
  unfolding fixed_prompt_tokens truthy lookup
  reserve counter read_prompt d history [] = ok (d, history)
  reserve counter read_prompt d history (step ∷ steps) =
      let skipped = reserve counter read_prompt d history steps in
      let counted : Result (Dict ℤ × Bool) = (do
        n ← fixed_prompt_tokens counter read_prompt step
        reserve counter read_prompt (put step.id n d)
            (history || truthy (lookup "use_history" step.raw)) steps) in
      if is_call_model step then counted else skipped
