-- ===== src/Pipeline/Actions/SetVariables.antt =====
-- actions/set_variables.py: a step sets attributes of the state by rules. The state is the dictionary of
-- its attributes here; methods and class attributes are left out of it. `json.loads` is an argument.
pub mod Laws
use Prim.Native.Char.{Char, code}
use local_ai_rag.Prelude.{
  String, Bool, true, false, not, ◌&&◌, ◌||◌, leb, Option, none, some, List, [], ◌∷◌, ◌++◌,
  if◌then◌else◌, ◌==◌, same_nat,
}
use local_ai_rag.Text.{is_empty, strip, contains_text}
use local_ai_rag.Text.Chars.{split_at}
use local_ai_rag.Dict.{Dict, get, put, contains}
use local_ai_rag.Value.{
  Value, Values, null, flag, num, text, items, object, nil, cons, end, to_list, to_dict, of_list,
  as_dict, lookup, str, value_or, truthy, stripped_text, Builtins,
}
use local_ai_rag.Pipeline.Result.{Result, ok, err, value_error, ◌>>=◌, ◌>>◌, require}
use local_ai_rag.Pipeline.Definitions.{StepDef}
use local_ai_rag.Pipeline.Actions.InboxDispatcher.{text_or}

-- `_transform_to_list`
unfoldable pub transform_to_list : Value → Result Value
unfolding strip
transform_to_list null = ok (items nil)
transform_to_list (items vs) = ok (items vs)
transform_to_list (text s) = ok (items (if is_empty (strip s) then nil else cons (text s) nil))
transform_to_list v = err (value_error "set_variables: transform 'to_list' does not support type")

-- The characters at which `str.splitlines` breaks a line.
abbrev is_line_break : Char → Bool
is_line_break c =
    let n = code c in
    (leb 10 n && leb n 13)
    || (leb 28 n && leb n 30)
    || same_nat n 133
    || same_nat n 8232
    || same_nat n 8233

abbrev filled_texts : List String → Values
unfolding strip
filled_texts [] = nil
filled_texts (s ∷ ss) =
    let rest = filled_texts ss in if is_empty (strip s) then rest else cons (text (strip s)) rest

-- `_transform_split_lines`; the empty line between "\r" and "\n" is dropped with the blank ones.
unfoldable pub transform_split_lines : Value → Result Value
unfolding split_at strip
transform_split_lines null = ok (items nil)
transform_split_lines (text s) = ok (items (filled_texts (split_at is_line_break s)))
transform_split_lines v =
    err (value_error "set_variables: transform 'split_lines' does not support type")

-- The text of one element of `to_context_blocks`.
unfoldable pub block_text : Value → Result String
unfolding get
block_text (text s) = ok s
block_text (object fs) = elim (get "text" (to_dict fs)) [
  | none ↦ err (value_error "set_variables: invalid context block (missing 'text')")
  | some (text s) ↦ ok s
  | some v ↦ err (value_error "set_variables: context block 'text' must be a string")
]
block_text v =
    err (
      value_error "set_variables: transform 'to_context_blocks' does not support list element type")

unfoldable pub block_texts : List Value → Result (List String)
unfolding block_text
block_texts [] = ok []
block_texts (v ∷ vs) = do s ← block_text v; rest ← block_texts vs; ok (s ∷ rest)

-- `_transform_to_context_blocks`
unfoldable pub transform_to_context_blocks : Value → Result Value
unfolding block_texts strip
transform_to_context_blocks null = ok (items nil)
transform_to_context_blocks (text s) =
    ok (items (if is_empty (strip s) then nil else cons (text s) nil))
transform_to_context_blocks (items vs) = do
  texts ← block_texts (to_list vs)
  ok (items (filled_texts texts))
transform_to_context_blocks v =
    err (value_error "set_variables: transform 'to_context_blocks' does not support type")

-- `_transform_clear`, by what the attribute holds.
unfoldable pub transform_clear : Value → Value
transform_clear (items vs) = items nil
transform_clear (object fs) = object end
transform_clear (text s) = text ""
transform_clear v = null

-- `_transform_parse_json`
unfoldable pub transform_parse_json : (String → Option Value) → Value → Result Value
transform_parse_json loads (text s) = elim (loads s) [
  | none ↦ err (value_error "set_variables: transform 'parse_json' failed to parse JSON")
  | some v ↦ ok v
]
transform_parse_json loads v =
    err (value_error "set_variables: transform 'parse_json' does not support type")

-- `_apply_transform`
unfoldable pub apply_transform : (String → Option Value) → String → Value → Value → Result Value
unfolding transform_to_list transform_split_lines transform_parse_json transform_to_context_blocks
    transform_clear
apply_transform loads name value current =
    if name == "copy"
    then ok value
    else if name == "to_list"
    then transform_to_list value
    else if name == "split_lines"
    then transform_split_lines value
    else if name == "parse_json"
    then transform_parse_json loads value
    else if name == "to_context_blocks"
    then transform_to_context_blocks value
    else if name == "clear"
    then ok (transform_clear current)
    else err (value_error "set_variables: unsupported transform")

-- `_ensure_non_empty_str` and `_must_not_contain_dot`
unfoldable pub field_name : Value → Result String
unfolding stripped_text contains_text
field_name v = do
  require (not (is_empty (stripped_text v))) "set_variables: a field name is required"
  require (not (contains_text "." (stripped_text v)))
      "set_variables: a field name must not contain '.'"
  ok (stripped_text v)

-- The value that a rule starts from: its own, or an attribute's.
unfoldable pub input_value : Dict Value → Dict Value → Result Value
unfolding field_name lookup get
input_value rule attributes = do
  require (not (contains "from" rule && contains "value" rule))
      "set_variables: exactly one of 'from' or 'value'"
  require (contains "from" rule || contains "value" rule)
      "set_variables: exactly one of 'from' or 'value'"
  elim (get "value" rule) [
    | some v ↦ ok v
    | none ↦ do
      src ← field_name (lookup "from" rule)
      require (contains src attributes) "set_variables: source field not found on state"
      ok (lookup src attributes)
  ]

unfoldable pub rule_of : Value → Result (Dict Value)
rule_of entry = elim (as_dict entry) [
  | none ↦ err (value_error "set_variables: rule must be a mapping")
  | some r ↦ ok r
]

module _ (loads : String → Option Value) ⦃py : Builtins⦄ where
  -- One rule: the attribute that it sets, and the value.
  unfoldable pub eval_rule : Value → Dict Value → Result (String × Value)
  unfolding rule_of field_name input_value apply_transform text_or lookup
  eval_rule entry attributes = do
    rule ← rule_of entry
    dest ← field_name (lookup "set" rule)
    value ← input_value rule attributes
    out ←
        apply_transform loads (text_or (lookup "transform" rule) "copy") value
          (lookup dest attributes)
    ok (dest, out)

  -- The rules in order; an exception keeps what the rules before it have set.
  unfoldable pub apply_rules : List Value → Dict Value → Result Value × Dict Value
  unfolding eval_rule put
  apply_rules [] attributes = (ok null, attributes)
  apply_rules (entry ∷ entries) attributes = elim (eval_rule entry attributes) [
    | err e ↦ (err e, attributes)
    | ok (dest, out) ↦ apply_rules entries (put dest out attributes)
  ]

  -- `do_execute`
  unfoldable pub set_variables : StepDef → Dict Value → Result Value × Dict Value
  unfolding apply_rules lookup
  set_variables step attributes = elim (lookup "rules" step.raw) [
    | items (cons v vs) ↦ apply_rules (v ∷ to_list vs) attributes
    | v ↦ (err (value_error "set_variables: rules must be a non-empty list"), attributes)
  ]
