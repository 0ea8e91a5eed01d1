-- ===== src/Pipeline/Actions/ContextBudget/Blocks.antt =====
-- actions/manage_context_budget.py: what becomes of the new nodes, one after the other.
use local_ai_rag.Prelude.{
  String, Bool, true, false, ◌⊎◌, Option, ◌≡◌, ◌≢◌, refl, sym, ap, ◌∙◌, inl, inr, none, some, List,
  [], ◌∷◌, ◌++◌, length, suc, Bool-cases, append_nil,
}
use local_ai_rag.Prelude.Int.{◌≤ℤ◌, ltb_ℤ, ltb_ℤ→le}
use local_ai_rag.Pipeline.Result.{Result, runtime_error, ok, err, Error, >>=-eq-ok, Result-cases}
use local_ai_rag.Pipeline.Actions.ContextBudget.{join_context, with_divider}
use local_ai_rag.Pipeline.Actions.ContextBudget.Rules.{first_matching_rule}
use local_ai_rag.Pipeline.Actions.ContextBudget.Loop.{
  Tools, Budget, Node, candidate_block, incoming_only, over_budget, collect_blocks, block_of,
  is_compacted, compact_text, normalize_language,
}

append-cons : (xs ys : List String) (y : String) → (xs ++ y ∷ []) ++ ys ≡ xs ++ y ∷ ys
append-cons [] ys y = refl
append-cons (x ∷ xs) ys y = ap (λ zs. x ∷ zs) (append-cons xs ys y)

ok_some-injective : {A : Type 0} {x y : A} → ok (some x) ≡ ok (some y) → x ≡ y
ok_some-injective h = cc h

module _ {ℓ} {Float : Type ℓ} (tools : Tools Float) (b : Budget Float) where
  -- Each block has been counted together with the context and the blocks before it, and fits.
  abbrev pub AllFit : List String → List String → Type 0
  AllFit before [] = Unit
  AllFit before (x ∷ xs) =
      (b.count (join_context b.current before x) ≤ℤ b.max) × AllFit (before ++ x ∷ []) xs

  -- The blocks of the nodes, one each.
  abbrev pub Blocks : List String → List Node → List String → Type 0
  Blocks before nodes blocks = (length blocks ≡ length nodes) × AllFit before blocks

  -- The language of a node, and whether a rule compacts it where the context before it is followed by `before`.
  abbrev pub language_of : Node → String
  language_of node = normalize_language (tools.classify_text node.content)

  abbrev pub raw_block : Node → String
  raw_block node = with_divider (block_of tools false node node.content) b.divider

  abbrev pub Compacts : List String → Node → Bool → Type 0
  Compacts before node compact =
      is_compacted tools b.max b.topics (first_matching_rule (language_of node) b.rules)
        (b.count (join_context b.current before (raw_block node)))
      ≡ compact

  -- The block of a node: its own text, or, where a rule compacts it, what the summarizer of its language gave.
  abbrev pub NodeBlock : List String → Node → String → Type 0
  NodeBlock before node block =
      (Compacts before node false × (block ≡ raw_block node))
      ⊎ (Compacts before node true
          × ((shorter : String) × (compact_text tools (language_of node) node.content ≡ ok shorter)
              × (block ≡ with_divider (block_of tools true node shorter) b.divider)))

  -- What becomes of the nodes that are left, by the blocks before them; `all` are the nodes of the guard.
  pub data Collected (all : List Node)
      : List Node → List String → Result (Option (List String)) → Type 0 where
    all_in : {before : List String} → Collected all [] before (ok (some before))
    -- the next node's block fits
    fits :
        {node : Node} {nodes : List Node} {before : List String} {r : Result (Option (List String))}
        (block : String)
        → NodeBlock before node block
        → b.count (join_context b.current before block) ≤ℤ b.max
        → Collected all nodes (before ++ block ∷ []) r
        → Collected all (node ∷ nodes) before r
    -- the summarizer of the next node raises
    breaks :
        {node : Node} {nodes : List Node} {before : List String} (e : Error)
        → Compacts before node true
        → compact_text tools (language_of node) node.content ≡ err e
        → Collected all (node ∷ nodes) before (err e)
    -- the next node's block does not fit, but the new nodes would alone
    later :
        {node : Node} {nodes : List Node} {before : List String} (block : String)
        → NodeBlock before node block
        → ltb_ℤ b.max (b.count (join_context b.current before block)) ≡ true
        → b.count (incoming_only tools b all) ≤ℤ b.max
        → Collected all (node ∷ nodes) before (ok none)
    -- the next node's block does not fit, nor would the new nodes alone
    never :
        {node : Node} {nodes : List Node} {before : List String} (block : String)
        → NodeBlock before node block
        → ltb_ℤ b.max (b.count (join_context b.current before block)) ≡ true
        → ltb_ℤ b.max (b.count (incoming_only tools b all)) ≡ true
        → Collected all (node ∷ nodes) before (err (runtime_error "PIPELINE_BUDGET_MISCONFIG"))

  candidate_block-NodeBlock :
      (before : List String) (node : Node)
      → ((block : String) × (candidate_block tools b before node ≡ ok block)
          × NodeBlock before node block)
        ⊎ ((e : Error) × (candidate_block tools b before node ≡ err e)
            × Compacts before node true
            × (compact_text tools (language_of node) node.content ≡ err e))
  unfolding candidate_block
  candidate_block-NodeBlock before node =
      elim (Bool-cases (
        is_compacted tools b.max b.topics (first_matching_rule (language_of node) b.rules)
          (b.count (join_context b.current before (raw_block node))))) [
            | inr raw ↦ inl (raw_block node, rw (raw, candidate_block) refl, inl (raw, refl))
            | inl compact ↦
                elim (Result-cases (compact_text tools (language_of node) node.content)) [
                  | inl (e, fails) ↦
                      inr (e, rw (compact, fails, candidate_block) refl, compact, fails)
                  | inr (shorter, made) ↦ inl (
                    with_divider (block_of tools true node shorter) b.divider,
                    rw (compact, made, candidate_block) refl,
                    inr (compact, (shorter, made, refl)),
                  )
                ]
          ]

  pub collect_blocks-Collected :
      (all nodes : List Node) (before : List String)
      → Collected all nodes before (collect_blocks tools b all nodes before)
  unfolding collect_blocks over_budget
  collect_blocks-Collected all [] before = all_in
  collect_blocks-Collected all (node ∷ nodes) before =
      elim (candidate_block-NodeBlock before node) [
        | inr (e, raised, compact, fails) ↦ rw (raised, collect_blocks) (breaks e compact fails)
        | inl (block, made, good) ↦
            elim (Bool-cases (ltb_ℤ b.max (b.count (join_context b.current before block)))) [
              | inr small ↦
                  rw (made, small, collect_blocks)
                    (fits block good
                      (ltb_ℤ→le b.max (b.count (join_context b.current before block)) small)
                      (collect_blocks-Collected all nodes (before ++ block ∷ [])))
              | inl large ↦ elim (Bool-cases (ltb_ℤ b.max (b.count (incoming_only tools b all)))) [
                | inl hopeless ↦
                    rw (made, large, hopeless, collect_blocks, over_budget)
                      (never block good large hopeless)
                | inr possible ↦
                    rw (made, large, possible, collect_blocks, over_budget)
                      (later block good large
                        (ltb_ℤ→le b.max (b.count (incoming_only tools b all)) possible))
              ]
            ]
      ]

  over_budget-ne-some :
      (nodes : List Node) (out : List String) → over_budget tools b nodes ≢ ok (some out)
  unfolding over_budget
  over_budget-ne-some nodes out h =
      elim (Bool-cases (ltb_ℤ b.max (b.count (incoming_only tools b nodes)))) [
        | inl hopeless ↦ cc (rw (hopeless, over_budget) at h)
        | inr possible ↦ cc (rw (possible, over_budget) at h)
      ]

  pub collect_blocks-Blocks :
      (all nodes : List Node) (before out : List String)
      → collect_blocks tools b all nodes before ≡ ok (some out)
      → (blocks : List String) × (out ≡ before ++ blocks) × Blocks before nodes blocks
  unfolding collect_blocks
  collect_blocks-Blocks all [] before out h =
      ([], sym (ok_some-injective h) ∙ sym (append_nil before), (refl, tt))
  collect_blocks-Blocks all (node ∷ nodes) before out h =
      let (block, made, rest) = >>=-eq-ok (candidate_block tools b before node) _ h in
      elim (Bool-cases (ltb_ℤ b.max (b.count (join_context b.current before block)))) [
        | inl over ↦ absurd (over_budget-ne-some all out (rw over at rest))
        | inr small ↦
            let (blocks, e, (count, all_fit)) =
              collect_blocks-Blocks all nodes (before ++ block ∷ []) out (rw small at rest) in
            (
              block ∷ blocks,
              e ∙ append-cons before blocks block,
              (
                ap suc count,
                (ltb_ℤ→le b.max (b.count (join_context b.current before block)) small, all_fit),
              ),
            )
      ]
