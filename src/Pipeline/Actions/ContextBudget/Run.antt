-- ===== src/Pipeline/Actions/ContextBudget/Run.antt =====
-- actions/manage_context_budget.py, `do_execute`: what it reads of the step, and what becomes of the state.
use local_ai_rag.Prelude.{
  String, true, not, ◌&&◌, Option, none, some, List, [], ◌∷◌, ◌++◌, map, if◌then◌else◌, ◌==◌,
}
use local_ai_rag.Prelude.Int.{ℤ, pos, ltb_ℤ}
use local_ai_rag.Text.{is_empty, strip}
use local_ai_rag.Dict.{Dict}
use local_ai_rag.Value.{Value, null, flag, text, lookup, str_or_empty, Builtins}
use local_ai_rag.Pipeline.Result.{Result, ok, err, value_error, ◌>>=◌, ◌>>◌, require}
use local_ai_rag.Pipeline.Definitions.{StepDef}
use local_ai_rag.Pipeline.State.{State, Message}
use local_ai_rag.Pipeline.Inbox.{Action, enqueue_message}
use local_ai_rag.Pipeline.Budget.{as_int}
use local_ai_rag.Pipeline.Validator.Rules.{elem}
use local_ai_rag.Pipeline.Actions.ContextBudget.{
  context_text_from_blocks, undivided, resolve_divide_new_content,
}
use local_ai_rag.Pipeline.Actions.ContextBudget.Rules.{Rule, parse_rules, rule_keys}
use local_ai_rag.Pipeline.Actions.ContextBudget.Loop.{
  Tools, Budget, read_node, path_names, guard_path_names, collect_blocks,
}

-- `_demand_topics_for_step`: the topics of the messages that the step has consumed.
unfoldable pub demand_topics_for_step : String → List Message → List String
unfolding strip
demand_topics_for_step step_id [] = []
demand_topics_for_step step_id (m ∷ ms) =
    let rest = demand_topics_for_step step_id ms in
    let t = strip m.topic in
    if strip m.target_step_id == strip step_id && not (is_empty t) then t ∷ rest else rest

-- One topic goes back into the inbox; an exception is swallowed.
abbrev pub reenqueue : String → String → List Message → List Message
unfolding enqueue_message
reenqueue step_id topic inbox =
    elim (enqueue_message step_id topic (some (("retry", flag true) ∷ [])) inbox) [
      | err e ↦ inbox
      | ok more ↦ more
    ]

-- `_reenqueue_demand_if_needed` with the topics that the rules listen to.
unfoldable pub reenqueue_demand : String → List String → List String → List Message → List Message
unfolding elem enqueue_message
reenqueue_demand step_id keys [] inbox = inbox
reenqueue_demand step_id keys (topic ∷ topics) inbox =
    let next = if elem topic keys then reenqueue step_id topic inbox else inbox in
    reenqueue_demand step_id keys topics next

module _ {ℓ} {Float : Type ℓ} where
  -- The end of `do_execute`, from what has become of the new nodes.
  unfoldable pub commit :
      StepDef
      → String
      → String
      → List (Rule Float)
      → Result (Option (List String))
      → State
      → Result Value × State
  unfolding reenqueue_demand rule_keys demand_topics_for_step
  commit step on_ok on_over rules (err e) s = (err e, s)
  commit step on_ok on_over rules (ok none) s =
      let topics = demand_topics_for_step step.id s.inbox_last_consumed in
      (
        ok (text on_over),
        record s { inbox = reenqueue_demand step.id (rule_keys rules) topics s.inbox },
      )
  commit step on_ok on_over rules (ok (some blocks)) s =
      (ok (text on_ok), record s { context_blocks = s.context_blocks ++ blocks; node_texts = [] })

  unfoldable pub budget_of :
      (String → ℤ) → StepDef → ℤ → String → List (Rule Float) → State → Budget Float
  unfolding demand_topics_for_step context_text_from_blocks
  budget_of count step max divider rules s = record {
    count = count;
    max = max;
    divider = divider;
    rules = rules;
    topics = demand_topics_for_step step.id s.inbox_last_consumed;
    current = context_text_from_blocks s.context_blocks;
  }

module _ {ℓ} {Float : Type ℓ} (tools : Tools Float) (settings : Dict Value) ⦃py : Builtins⦄ where
  -- `max_context_tokens` of the settings as a positive integer.
  unfoldable pub max_context_tokens : Result ℤ
  unfolding lookup as_int
  max_context_tokens = do
    raw ← (elim (lookup "max_context_tokens" settings) [
      | null ↦ err (value_error "settings.max_context_tokens is required")
      | v ↦ ok v
    ])
    max ← (elim (as_int raw) [
      | err e ↦ err (value_error "settings.max_context_tokens must be int")
      | ok n ↦ ok n
    ])
    require (ltb_ℤ (pos 0) max) "settings.max_context_tokens must be > 0"
    ok max

  -- What the action reads of its step before it touches the state: where to go on, the limit, the divider
  -- and the rules.
  unfoldable pub read_step : StepDef → Result (String × String × ℤ × String × List (Rule Float))
  unfolding max_context_tokens resolve_divide_new_content parse_rules str_or_empty lookup
  read_step step = do
    let on_ok = str_or_empty (lookup "on_ok" step.raw)
    let on_over = str_or_empty (lookup "on_over" step.raw)
    require (not (is_empty on_ok)) "manage_context_budget: on_ok is required"
    require (not (is_empty on_over)) "manage_context_budget: on_over is required"
    max ← max_context_tokens
    rules ← parse_rules tools.floats step.raw
    ok (on_ok, on_over, max, resolve_divide_new_content step.raw, rules)

  -- The blocks of the nodes of a state.
  unfoldable pub new_blocks :
      StepDef → ℤ → String → List (Rule Float) → State → Result (Option (List String))
  unfolding budget_of collect_blocks read_node
  new_blocks step max divider rules s = elim tools.token_counter [
    | none ↦ err (value_error "manage_context_budget: runtime.token_counter is required")
    | some count ↦
        collect_blocks tools (budget_of count step max divider rules s)
          (map (read_node guard_path_names) s.node_texts) (map (read_node path_names) s.node_texts)
          []
  ]

  -- `do_execute`
  unfoldable pub manage_context_budget : Action
  unfolding read_step undivided new_blocks commit
  manage_context_budget step s = elim (read_step step) [
    | err e ↦ (err e, s)
    | ok (on_ok, on_over, max, divider, rules) ↦
        let now = record s { context_blocks = undivided divider s.context_blocks } in
        commit step on_ok on_over rules (new_blocks step max divider rules now) now
  ]
