-- ===== src/Pipeline/Budget/Enforce.antt =====
-- budget_contract.py: the two checks of `enforce_budget_contract`, of the context for the whole
-- pipeline and of each step's output, and the function itself.
use local_ai_rag.Prelude.{
  String, Bool, true, false, not, ◌&&◌, ◌||◌, Option, none, some, List, [], ◌∷◌, ◌++◌,
  if◌then◌else◌,
}
use local_ai_rag.Prelude.Int.{ℤ, pos, ◌-ℤ◌, leb_ℤ, ltb_ℤ}
use local_ai_rag.Dict.{Dict, put, remove}
use local_ai_rag.Value.{Value, num, Builtins, lookup}
use local_ai_rag.Pipeline.Result.{Result, ok, err, value_error, ◌>>=◌, ◌>>◌, require}
use local_ai_rag.Pipeline.Definitions.{StepDef, PipelineDef}
use local_ai_rag.Pipeline.Budget.{
  Policy, fail_fast, auto_clamp, BudgetContractClamp, max_context_tokens, max_output_tokens,
  Enforced, Limits, is_call_model, fixed_of, as_int, as_int_for, int_or_default,
  normalize_limits_policy, step_requested_out_tokens, reserve,
}

abbrev pub is_fail_fast : Policy → Bool
is_fail_fast fail_fast = true
is_fail_fast auto_clamp = false

-- `max(0, n)`
abbrev max_zero : ℤ → ℤ
max_zero n = if ltb_ℤ (pos 0) n then n else pos 0

-- What is left of the context window beside `tokens`, in a step's worst case.
abbrev pub left_beside : Limits → StepDef → ℤ → ℤ
left_beside l step tokens =
    l.n_ctx -ℤ fixed_of l step -ℤ l.max_history_tokens -ℤ tokens -ℤ l.safety_margin

abbrev pub min_option : Option ℤ → ℤ → ℤ
min_option none n = n
min_option (some m) n = if ltb_ℤ n m then n else m

module _ ⦃py : Builtins⦄ where
  -- The smallest context that the `call_model` steps allow.
  unfoldable pub max_context_allowed : Limits → Option ℤ → List StepDef → Result (Option ℤ)
  unfolding step_requested_out_tokens
  max_context_allowed l best [] = ok best
  max_context_allowed l best (step ∷ steps) =
      let skipped = max_context_allowed l best steps in
      let counted : Result (Option ℤ) = (do
        out ← step_requested_out_tokens l.default_out step
        max_context_allowed l (some (min_option best (left_beside l step out))) steps) in
      if is_call_model step then counted else skipped

  -- The first check: the context that the settings ask for, or a clamped one.
  unfoldable pub clamp_context : Policy → ℤ → ℤ → Result (ℤ × List BudgetContractClamp)
  clamp_context pol asked allowed =
      let clamped = max_zero allowed in
      let clamp : BudgetContractClamp = record {
        kind = max_context_tokens;
        step_id = none;
        before = asked;
        after = clamped;
      } in
      if leb_ℤ asked allowed
      then ok (asked, [])
      else if is_fail_fast pol
      then err (value_error "budget_contract: settings.max_context_tokens exceeds allowed")
      else ok (clamped, clamp ∷ [])

  -- The second check, of one step: the step, or one with less output.
  unfoldable pub clamp_step :
      Policy → Limits → ℤ → StepDef → Result (StepDef × List BudgetContractClamp)
  unfolding step_requested_out_tokens put remove
  clamp_step pol l context step = do
    requested ← step_requested_out_tokens l.default_out step
    let allowed = left_beside l step context
    let clamp : BudgetContractClamp = record {
      kind = max_output_tokens;
      step_id = some step.id;
      before = requested;
      after = allowed;
    }
    if leb_ℤ requested allowed
        then ok (step, [])
        else if is_fail_fast pol || leb_ℤ allowed (pos 0)
        then err (
            value_error "budget_contract: call_model step requested max_output_tokens over allowed")
        else ok (
          record step {
            raw = remove "max_tokens" (put "max_output_tokens" (num allowed) step.raw);
          },
          clamp ∷ [],
        )

  unfoldable pub clamp_steps :
      Policy → Limits → ℤ → List StepDef → Result (List StepDef × List BudgetContractClamp)
  unfolding clamp_step
  clamp_steps pol l context [] = ok ([], [])
  clamp_steps pol l context (step ∷ steps) =
      let rest = clamp_steps pol l context steps in
      let kept : Result (List StepDef × List BudgetContractClamp) = (do
        (steps', clamps) ← rest
        ok (step ∷ steps', clamps)) in
      let checked : Result (List StepDef × List BudgetContractClamp) = (do
        (step', clamp) ← clamp_step pol l context step
        (steps', clamps) ← rest
        ok (step' ∷ steps', clamp ++ clamps)) in
      if is_call_model step then checked else kept

  -- Both checks, for a pipeline whose limits are known and that has `call_model` steps.
  unfoldable pub enforce_limits :
      Policy → Limits → ℤ → Dict Value → List StepDef → ℤ → Result Enforced
  unfolding clamp_context clamp_steps put
  enforce_limits pol l asked settings steps allowed = do
    (context, first) ← clamp_context pol asked allowed
    require (ltb_ℤ (pos 0) context) "budget_contract: resolved max_context_tokens_after <= 0."
    (steps', clamps) ← clamp_steps pol l context steps
    ok (record {
      steps = steps';
      settings = put "max_context_tokens" (num context) settings;
      policy = pol;
      max_context_tokens_before = asked;
      max_context_tokens_after = context;
      max_history_tokens = l.max_history_tokens;
      clamps = first ++ clamps;
    })

  abbrev pub unchanged : Policy → Limits → ℤ → Dict Value → List StepDef → Enforced
  unchanged pol l asked settings steps = record {
    steps = steps;
    settings = settings;
    policy = pol;
    max_context_tokens_before = asked;
    max_context_tokens_after = asked;
    max_history_tokens = l.max_history_tokens;
    clamps = [];
  }

  -- With no `call_model` step there is no allowance, and nothing is checked.
  abbrev pub enforce_if_called :
      Policy → Limits → ℤ → Dict Value → List StepDef → Option ℤ → Result Enforced
  enforce_if_called pol l asked settings steps none = ok (unchanged pol l asked settings steps)
  enforce_if_called pol l asked settings steps (some allowed) =
      enforce_limits pol l asked settings steps allowed

  abbrev pub policy_or_default : Option Policy → Policy
  policy_or_default none = fail_fast
  policy_or_default (some pol) = pol

  unfoldable pub enforce_budget_contract :
      PipelineDef
      → Dict Value
      → ℤ
      → ℤ
      → Option (String → ℤ)
      → (String → Option String)
      → Option String
      → Result Enforced
  unfolding normalize_limits_policy as_int as_int_for int_or_default reserve max_context_allowed
      enforce_limits lookup
  enforce_budget_contract pipeline settings n_ctx default_out counter read_prompt policy = do
    let pol = policy_or_default (normalize_limits_policy policy)
    require (ltb_ℤ (pos 0) n_ctx) "budget_contract: model_context_window must be > 0"
    asked ←
        as_int_for "budget_contract: settings.max_context_tokens must be int"
          (lookup "max_context_tokens" settings)
    require (ltb_ℤ (pos 0) asked) "budget_contract: settings.max_context_tokens must be > 0"
    history ← int_or_default (lookup "max_history_tokens" settings) (pos 0)
    require (leb_ℤ (pos 0) history) "budget_contract: settings.max_history_tokens must be >= 0"
    safety ← int_or_default (lookup "budget_safety_margin_tokens" settings) (pos 128)
    require (leb_ℤ (pos 0) safety)
        "budget_contract: settings.budget_safety_margin_tokens must be >= 0"
    (fixed, history_used) ← reserve counter read_prompt [] false pipeline.steps
    require (not (history_used && leb_ℤ history (pos 0) && is_fail_fast pol))
        "budget_contract: at least one call_model step uses history, but max_history_tokens is 0"
    let l : Limits = record {
      n_ctx = n_ctx;
      max_history_tokens = history;
      safety_margin = safety;
      default_out = default_out;
      fixed_tokens = fixed;
    }
    allowed ← max_context_allowed l none pipeline.steps
    enforce_if_called pol l asked settings pipeline.steps allowed
