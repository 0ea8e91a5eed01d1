-- ===== src/Pipeline/Actions/ContextBudget.antt =====
-- actions/manage_context_budget.py: the texts of the blocks that it appends to the context, and the
-- context that it counts.
pub mod Rules
pub mod Loop
pub mod Run
pub mod Blocks
pub mod Laws
pub mod Retry
use Prim.Native.String.{◌++◌ as append_text}
use local_ai_rag.Prelude.{
  String, Bool, true, false, Option, none, some, List, [], ◌∷◌, ◌++◌, if◌then◌else◌, is_some,
  or_default,
}
use local_ai_rag.Text.{is_empty, strip, after_prefix}
use local_ai_rag.Text.Chars.{join}
use local_ai_rag.Dict.{Dict}
use local_ai_rag.Value.{Value, null, as_list, lookup, str, plain_text, Builtins}

-- The texts that are not blank, stripped.
abbrev pub filled : List String → List String
unfolding strip
filled [] = []
filled (x ∷ xs) = let rest = filled xs in if is_empty (strip x) then rest else strip x ∷ rest

-- The texts that are not blank, as they are.
unfoldable pub not_blank : List String → List String
unfolding strip
not_blank [] = []
not_blank (x ∷ xs) = let rest = not_blank xs in if is_empty (strip x) then rest else x ∷ rest

-- `_context_text_from_blocks`
unfoldable pub context_text_from_blocks : List String → String
unfolding not_blank join strip
context_text_from_blocks blocks = strip (join "\n\n" (not_blank blocks))

-- `_join_context`: what is counted for one more block.
unfoldable pub join_context : String → List String → String → String
unfolding strip join
join_context current appended candidate =
    strip (join "\n\n" (filled (current ∷ []) ++ filled appended ++ strip candidate ∷ []))

abbrev line_break_off : String → String
unfolding after_prefix
line_break_off s = or_default (after_prefix "\r\n" s) (or_default (after_prefix "\n" s) s)

-- `_strip_divider_prefix`
unfoldable pub strip_divider_prefix : String → String → String
unfolding after_prefix
strip_divider_prefix block divider = elim (after_prefix divider block) [
  | none ↦ block
  | some rest ↦ if is_empty divider then block else line_break_off rest
]

-- `_with_divider`
unfoldable pub with_divider : String → String → String
unfolding after_prefix
with_divider block divider =
    if is_empty divider
    then block
    else if is_some (after_prefix divider block)
    then block
    else append_text divider (append_text "\n" block)

-- The blocks of the context without the divider, when there is one.
unfoldable pub undivided : String → List String → List String
unfolding strip_divider_prefix not_blank
undivided divider blocks = if is_empty divider then blocks else go (not_blank blocks)
  where
    go : List String → List String
    go [] = []
    go (x ∷ xs) = strip_divider_prefix x divider ∷ go xs

abbrev pub flag_text : Bool → String
flag_text true = "true"
flag_text false = "false"

abbrev pub metadata_text : List String → String
unfolding join
metadata_text [] = ""
metadata_text (x ∷ xs) = append_text "metadata:\n" (append_text (join "\n" (x ∷ xs)) "\n")

-- `format_text`
unfoldable pub format_text : String → String → String → Bool → String → List String → String
unfolding not_blank join
format_text node_id path language compact content metadata_lines = join "" (
    "--- NODE ---\nid: "
    ∷ node_id
    ∷ "\npath: "
    ∷ path
    ∷ "\nlanguage: "
    ∷ (if is_empty language then "unknown" else language)
    ∷ "\ncompact: "
    ∷ flag_text compact
    ∷ "\n"
    ∷ metadata_text (not_blank metadata_lines)
    ∷ "text:\n"
    ∷ content
    ∷ "\n"
    ∷ [])

module _ ⦃py : Builtins⦄ where
  -- `_resolve_divide_new_content`
  unfoldable pub resolve_divide_new_content : Dict Value → String
  unfolding lookup str strip
  resolve_divide_new_content raw = elim (lookup "divide_new_content" raw) [
    | null ↦ ""
    | v ↦ strip (str v)
  ]
