-- ===== src/Pipeline/Budget/Contract.antt =====
-- The contract of `enforce_budget_contract` as its caller sees it.
use local_ai_rag.Prelude.{String, Bool, false, Option, [], ◌≡◌}
use local_ai_rag.Prelude.Int.{ℤ, pos}
use local_ai_rag.Dict.{Dict}
use local_ai_rag.Value.{Value, Builtins, lookup}
use local_ai_rag.Pipeline.Result.{ok}
use local_ai_rag.Pipeline.Definitions.{PipelineDef}
use local_ai_rag.Pipeline.Budget.{Enforced, Limits, int_or_default, reserve, as_int}
use local_ai_rag.Pipeline.Budget.Laws.{Promise}

module _ ⦃py : Builtins⦄ where
  -- The limits `l`, and the context before, are those that the settings, the window and the prompts give, and
  -- within them every `call_model` step fits. No step is changed, and the context is at most what was asked.
  -- The settings returned ask for the context after, and else for what the settings given do.
  pub record Holds (pipeline : PipelineDef) (settings : Dict Value) (n_ctx default_out : ℤ)
      (counter : Option (String → ℤ)) (read_prompt : String → Option String) (e : Enforced)
      (l : Limits) : Type 0 where
    pub window : l.n_ctx ≡ n_ctx
    pub default : l.default_out ≡ default_out
    pub margin :
        int_or_default (lookup "budget_safety_margin_tokens" settings) (pos 128)
        ≡ ok l.safety_margin
    pub history :
        int_or_default (lookup "max_history_tokens" settings) (pos 0) ≡ ok l.max_history_tokens
    pub asked : as_int (lookup "max_context_tokens" settings) ≡ ok e.max_context_tokens_before
    pub written : as_int (lookup "max_context_tokens" e.settings) ≡ ok e.max_context_tokens_after
    pub reserved :
        (used : Bool) × (reserve counter read_prompt [] false pipeline.steps
          ≡ ok (l.fixed_tokens, used))
    pub promise : Promise l settings pipeline.steps e
