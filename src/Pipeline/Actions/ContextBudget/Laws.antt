-- ===== src/Pipeline/Actions/ContextBudget/Laws.antt =====
-- actions/manage_context_budget.py: the new nodes are appended all or none, and a context that is appended
-- to has been counted and fits.
use local_ai_rag.Prelude.{
  String, Option, some-injective, ◌≡◌, refl, sym, ◌∙◌, inl, inr, none, some, List, [], ◌++◌, map,
  Option-cases, subst,
}
use local_ai_rag.Prelude.Int.{ℤ}
use local_ai_rag.Dict.{Dict}
use local_ai_rag.Value.{Value, text, Builtins}
use local_ai_rag.Pipeline.Result.{Result, value_error, ok, err, Error, Result-cases}
use local_ai_rag.Pipeline.Definitions.{StepDef}
use local_ai_rag.Pipeline.State.{State}
use local_ai_rag.Pipeline.Actions.ContextBudget.{undivided}
use local_ai_rag.Pipeline.Actions.ContextBudget.Rules.{Rule, rule_keys}
use local_ai_rag.Pipeline.Actions.ContextBudget.Loop.{
  Tools, Budget, Node, read_node, path_names, guard_path_names, collect_blocks,
}
use local_ai_rag.Pipeline.Actions.ContextBudget.Run.{
  demand_topics_for_step, reenqueue_demand, read_step, commit, budget_of, new_blocks,
  manage_context_budget,
}
use local_ai_rag.Pipeline.Actions.ContextBudget.Blocks.{
  Blocks, Collected, collect_blocks-Blocks, collect_blocks-Collected,
}

module _ {ℓ} {Float : Type ℓ} (tools : Tools Float) (settings : Dict Value) ⦃py : Builtins⦄ where
  -- The new nodes of a step, as `Collected` follows them.
  abbrev pub NodesEnd :
      StepDef
      → State
      → String
      → ℤ
      → List (Rule Float)
      → (String → ℤ)
      → Result (Option (List String))
      → Type 0
  NodesEnd step s divider max rules count r =
      Collected tools
        (budget_of count step max divider rules
          (record s { context_blocks = undivided divider s.context_blocks }))
        (map (read_node guard_path_names) s.node_texts) (map (read_node path_names) s.node_texts) []
        r

  -- How the action may end.
  pub data Ends (step : StepDef) (s : State) : Result Value → State → Type ℓ where
    -- an error of the step or the settings, which leaves the state alone
    refused : (e : Error) → read_step tools settings step ≡ err e → Ends step s (err e) s
    -- there is no token counter, and the dividers are off
    uncounted :
        (on_ok on_over divider : String) (max : ℤ) (rules : List (Rule Float))
        → read_step tools settings step ≡ ok (on_ok, on_over, max, divider, rules)
        → tools.token_counter ≡ none
        → Ends step s
            (err (value_error "manage_context_budget: runtime.token_counter is required"))
            (record s { context_blocks = undivided divider s.context_blocks })
    -- a summarizer raises, or the new nodes never fit; only the dividers are off
    failed :
        (on_ok on_over divider : String) (max : ℤ) (rules : List (Rule Float)) (count : String → ℤ)
        (e : Error)
        → read_step tools settings step ≡ ok (on_ok, on_over, max, divider, rules)
        → tools.token_counter ≡ some count
        → NodesEnd step s divider max rules count (err e)
        → Ends step s (err e) (record s { context_blocks = undivided divider s.context_blocks })
    -- all nodes go into the context, a block each, and every one has been counted and fits
    appended :
        (on_ok on_over divider : String) (max : ℤ) (rules : List (Rule Float)) (count : String → ℤ)
        (blocks : List String)
        → read_step tools settings step ≡ ok (on_ok, on_over, max, divider, rules)
        → tools.token_counter ≡ some count
        → NodesEnd step s divider max rules count (ok (some blocks))
        → (let kept = record s { context_blocks = undivided divider s.context_blocks } in
            Blocks tools
              (budget_of count step max divider rules kept)
              []
              (map (read_node path_names) s.node_texts)
              blocks)
        → Ends step s (ok (text on_ok)) (record s {
          context_blocks = undivided divider s.context_blocks ++ blocks;
          node_texts = [];
        })
    -- a node does not fit: none goes into the context, all stay, and the demand messages go back into the inbox
    postponed :
        (on_ok on_over divider : String) (max : ℤ) (rules : List (Rule Float)) (count : String → ℤ)
        → read_step tools settings step ≡ ok (on_ok, on_over, max, divider, rules)
        → tools.token_counter ≡ some count
        → NodesEnd step s divider max rules count (ok none)
        → Ends step s (ok (text on_over)) (record s {
          context_blocks = undivided divider s.context_blocks;
          inbox =
              reenqueue_demand step.id
                (rule_keys rules)
                (demand_topics_for_step step.id s.inbox_last_consumed)
                s.inbox;
        })

  new_blocks-Blocks :
      (step : StepDef) (max : ℤ) (divider : String) (rules : List (Rule Float)) (s : State)
      (blocks : List String)
      → new_blocks tools settings step max divider rules s ≡ ok (some blocks)
      → (count : String → ℤ) × (tools.token_counter ≡ some count)
        × Blocks tools
            (budget_of count step max divider rules s)
            []
            (map (read_node path_names) s.node_texts)
            blocks
  unfolding new_blocks
  new_blocks-Blocks step max divider rules s blocks h = elim (Option-cases tools.token_counter) [
    | inl missing ↦ cc (rw (missing, new_blocks) at h)
    | inr (count, found) ↦
        let nodes : List Node = map (read_node path_names) s.node_texts in
        let b : Budget Float = budget_of count step max divider rules s in
        let (made, e, good) =
          collect_blocks-Blocks tools b (map (read_node guard_path_names) s.node_texts) nodes []
            blocks (rw (found, new_blocks) at h) in
        (count, found, subst (Blocks tools b [] nodes) (sym e) good)
  ]

  counted_blocks :
      (step : StepDef) (max : ℤ) (divider : String) (rules : List (Rule Float)) (s : State)
      (count : String → ℤ)
      → tools.token_counter ≡ some count
      → new_blocks tools settings step max divider rules s
        ≡ collect_blocks tools
            (budget_of count step max divider rules s)
            (map (read_node guard_path_names) s.node_texts)
            (map (read_node path_names) s.node_texts)
            []
  unfolding new_blocks
  counted_blocks step max divider rules s count found = rw (found, new_blocks) refl

  commit-Ends :
      (step : StepDef) (s : State) (on_ok on_over divider : String) (max : ℤ)
      (rules : List (Rule Float))
      → read_step tools settings step ≡ ok (on_ok, on_over, max, divider, rules)
      → (let kept = record s { context_blocks = undivided divider s.context_blocks } in
          let (answer, after) =
            commit step on_ok on_over rules
              (new_blocks tools settings step max divider rules kept)
              kept in
          Ends step s answer after)
  unfolding commit new_blocks
  commit-Ends step s on_ok on_over divider max rules read =
      let kept = record s { context_blocks = undivided divider s.context_blocks } in
      let outcome = new_blocks tools settings step max divider rules kept in
      elim (Option-cases tools.token_counter) [
        | inl missing ↦
            let raised : outcome
                ≡ err (value_error "manage_context_budget: runtime.token_counter is required") =
              rw (missing, new_blocks) refl in
            rw raised (uncounted on_ok on_over divider max rules read missing)
        | inr (count, found) ↦
            let collected : NodesEnd step s divider max rules count outcome =
              subst (NodesEnd step s divider max rules count)
                (sym (counted_blocks step max divider rules kept count found))
                (collect_blocks-Collected tools (budget_of count step max divider rules kept)
                  (map (read_node guard_path_names) s.node_texts)
                  (map (read_node path_names) s.node_texts) []) in
            elim (Result-cases outcome) [
              | inl (e, fails) ↦ rw fails (
                  failed on_ok on_over divider max rules count e read found (rw fails at collected))
              | inr (some blocks, whole) ↦
                  let (count', found', good) =
                    new_blocks-Blocks step max divider rules kept blocks whole in
                  let same : count' ≡ count = some-injective (sym found' ∙ found) in
                  let fitting =
                    subst
                      (λ c.
                        Blocks tools (budget_of c step max divider rules kept) []
                          (map (read_node path_names) s.node_texts) blocks)
                      same good in
                  rw whole (
                    appended on_ok on_over divider max rules count blocks read found
                      (rw whole at collected) fitting)
              | inr (none, over) ↦ rw over (
                  postponed on_ok on_over divider max rules count read found (rw over at collected))
            ]
      ]

  -- Whatever the step, the settings and the state are, the action ends in one of these ways. An error of the step or
  -- the settings leaves the state alone. Otherwise the dividers of the blocks in the context come off, and the
  -- new nodes are followed in order, each with the block of its text, or of its summary where a rule compacts
  -- it. If every block fits, counted together with the context and the blocks before it, all of them are
  -- appended and the nodes are used up. If one does not fit, but the new nodes would alone, none is appended,
  -- all nodes stay, and the demand messages go back into the inbox. If they would not even alone, or a
  -- summarizer raises, or there is no token counter, the action raises and appends nothing.
  pub manage_context_budget-Ends :
      (step : StepDef) (s : State)
      → (let (answer, after) = manage_context_budget tools settings step s in
          Ends step s answer after)
  unfolding manage_context_budget
  manage_context_budget-Ends step s = elim (Result-cases (read_step tools settings step)) [
    | inl (e, fails) ↦ rw (fails, manage_context_budget) (refused e fails)
    | inr ((on_ok, on_over, max, divider, rules), read) ↦
        rw (read, manage_context_budget) (commit-Ends step s on_ok on_over divider max rules read)
  ]
