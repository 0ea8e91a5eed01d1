-- ===== src/Pipeline/Actions/ContextBudget/Loop.antt =====
-- actions/manage_context_budget.py, the loop of `do_execute` over the new nodes. The token counter, the classifier of code and the two
-- summarizers are arguments, and so are Python's floats. A node is a dictionary by the type of the state.
use local_ai_rag.Prelude.{
  String, Bool, true, false, Option, none, some, List, [], ◌∷◌, ◌++◌, map, if◌then◌else◌, ◌==◌,
}
use local_ai_rag.Prelude.Int.{ℤ, pos, ltb_ℤ}
use local_ai_rag.Text.{is_empty}
use local_ai_rag.Text.Chars.{join}
use local_ai_rag.Dict.{Dict}
use local_ai_rag.Value.{
  Value, null, items, to_list, lookup, str, plain_text, str_or_empty, value_or, truthy, Builtins,
}
use local_ai_rag.Pipeline.Result.{Result, ok, err, runtime_error, ◌>>=◌}
use local_ai_rag.Pipeline.Validator.Rules.{elem}
use local_ai_rag.Pipeline.Actions.ContextBudget.{join_context, with_divider, format_text}
use local_ai_rag.Pipeline.Actions.ContextBudget.Rules.{Floats, Rule, first_matching_rule}

-- `CodeKind`
pub data CodeKind : Type 0 where
  dotnet : CodeKind
  sql : CodeKind
  dotnet_with_sql : CodeKind
  unknown : CodeKind

-- `_normalize_language`
abbrev pub normalize_language : CodeKind → String
normalize_language sql = "sql"
normalize_language dotnet = "dotnet"
normalize_language dotnet_with_sql = "dotnet"
normalize_language unknown = "unknown"

-- What the action uses of other parts.
pub record Tools {ℓ} (Float : Type ℓ) : Type ℓ where
  pub token_counter : Option (String → ℤ)
  pub classify_text : String → CodeKind
  pub summarize_sql : String → Result String
  pub compress_dotnet : String → Result String
  pub floats : Floats Float

-- What is read from a node.
pub record Node : Type 0 where
  pub node_id : String
  pub path : String
  pub content : String
  pub metadata_lines : List String

module _ ⦃py : Builtins⦄ where
  -- `[str(x) for x in xs if str(x or "").strip()]`
  unfoldable pub filled_lines : List Value → List String
  unfolding str_or_empty str
  filled_lines [] = []
  filled_lines (v ∷ vs) =
      let rest = filled_lines vs in if is_empty (str_or_empty v) then rest else str v ∷ rest

  -- A node with its path under the first of the names.
  unfoldable pub read_node : List String → Dict Value → Node
  unfolding lookup str_or_empty plain_text filled_lines truthy
  read_node path_names node = record {
    node_id = str_or_empty (value_or (lookup "node_id" node) (lookup "id" node));
    path = str_or_empty (first_of path_names);
    content = plain_text (lookup "text" node);
    metadata_lines = elim (lookup "metadata_context" node) [
      | items vs ↦ filled_lines (to_list vs)
      | v ↦ []
    ];
  }
    where
      first_of : List String → Value
      first_of [] = null
      first_of (name ∷ names) = value_or (lookup name node) (first_of names)

  abbrev pub path_names : List String
  path_names = "path" ∷ "repo_relative_path" ∷ "source_file" ∷ "source" ∷ []

  -- The guard against a misconfiguration reads no `source`.
  abbrev pub guard_path_names : List String
  guard_path_names = "path" ∷ "repo_relative_path" ∷ "source_file" ∷ []

module _ {ℓ} {Float : Type ℓ} (tools : Tools Float) where
  -- `_compact_text`
  unfoldable pub compact_text : String → String → Result String
  compact_text language content =
      if language == "sql"
      then tools.summarize_sql content
      else if language == "dotnet"
      then tools.compress_dotnet content
      else ok content

  -- The block of a node, without its divider.
  unfoldable pub block_of : Bool → Node → String → String
  unfolding format_text
  block_of compact node content =
      format_text node.node_id node.path (normalize_language (tools.classify_text node.content))
        compact content node.metadata_lines

  -- Whether a rule compacts a node whose raw context has `tokens` tokens.
  unfoldable pub is_compacted : ℤ → List String → Option (Rule Float) → ℤ → Bool
  unfolding elem
  is_compacted max topics none tokens = false
  is_compacted max topics (some rule) tokens =
      if rule.policy == "always"
      then true
      else if rule.policy == "threshold"
      then (elim rule.threshold [
        | none ↦ ltb_ℤ (pos 0) tokens
        | some x ↦ ltb_ℤ (tools.floats.scaled max x) tokens
      ])
      else elem rule.inbox_key topics

-- The fixed arguments of the loop.
pub record Budget {ℓ} (Float : Type ℓ) : Type ℓ where
  pub count : String → ℤ
  pub max : ℤ
  pub divider : String
  pub rules : List (Rule Float)
  pub topics : List String
  pub current : String

module _ {ℓ} {Float : Type ℓ} (tools : Tools Float) (b : Budget Float) where
  -- The block that a node adds, compacted where a rule says so.
  unfoldable pub candidate_block : List String → Node → Result String
  unfolding block_of is_compacted compact_text first_matching_rule with_divider join_context
  candidate_block appended node =
      let language = normalize_language (tools.classify_text node.content) in
      let raw = block_of tools false node node.content in
      let tokens = b.count (join_context b.current appended (with_divider raw b.divider)) in
      if is_compacted tools b.max b.topics (first_matching_rule language b.rules) tokens
      then (do
        shorter ← compact_text tools language node.content
        ok (with_divider (block_of tools true node shorter) b.divider))
      else ok (with_divider raw b.divider)

  -- The context that the new nodes alone make up.
  unfoldable pub incoming_only : List Node → String
  unfolding block_of with_divider join
  incoming_only nodes =
      join "\n\n" (map (λ n. with_divider (block_of tools false n n.content) b.divider) nodes)

  -- The new context does not fit: an error when the new nodes alone never will.
  unfoldable pub over_budget : List Node → Result (Option (List String))
  unfolding incoming_only
  over_budget nodes =
      if ltb_ℤ b.max (b.count (incoming_only nodes))
      then err (runtime_error "PIPELINE_BUDGET_MISCONFIG")
      else ok none

  -- The blocks to append, or `none` where one does not fit.
  unfoldable pub collect_blocks :
      List Node → List Node → List String → Result (Option (List String))
  unfolding candidate_block over_budget join_context
  collect_blocks all [] appended = ok (some appended)
  collect_blocks all (node ∷ nodes) appended = do
    block ← candidate_block appended node
    let later = collect_blocks all nodes (appended ++ block ∷ [])
    if ltb_ℤ b.max (b.count (join_context b.current appended block)) then over_budget all else later
