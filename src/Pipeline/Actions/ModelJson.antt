-- ===== src/Pipeline/Actions/ModelJson.antt =====
-- What a model's answer means as an object: the parsers of actions/inbox_dispatcher.py and
-- actions/json_decision_router.py. Python's `json` and `ast`, and the regular expressions of the two files,
-- are arguments, `none` for an exception.
use Prim.Native.Char.{Char, code}
use Prim.Native.String.{[] as empty_text, ◌∷◌ as text_cons, ◌++◌ as append_text}
use local_ai_rag.Prelude.{
  String, ◌-◌, Bool, false, not, ◌&&◌, ◌||◌, leb, Option, none, some, if◌then◌else◌, is_some,
  or_default,
}
use local_ai_rag.Prelude.Options.{◌>>=◌}
use local_ai_rag.Text.{is_empty, strip, after_prefix, contains_text}
use local_ai_rag.Text.Chars.{is_code, char_count, first_chars, skip_chars}
use local_ai_rag.Dict.{Dict}
use local_ai_rag.Value.{Value, as_dict}

pub record JsonTools : Type 0 where
  pub loads : String → Option Value
  pub dumps : Value → String
  pub literal_eval : String → Option Value
  pub quote_keys : String → String
  pub drop_trailing_commas : String → String
  pub colons_for_equals : String → String

-- `s.endswith(p)` for a `p` that is not empty
abbrev ends_with : String → String → Bool
unfolding after_prefix
ends_with p empty_text = false
ends_with p (text_cons c s) =
    let later = ends_with p s in
    elim (after_prefix p (text_cons c s)) [ some rest ↦ is_empty rest || later | none ↦ later ]

-- The characters `[A-Za-z0-9_-]`.
abbrev is_word : Char → Bool
is_word c =
    let n = code c in
    (leb 65 n && leb n 90)
    || (leb 97 n && leb n 122)
    || (leb 48 n && leb n 57)
    || is_code 95 c
    || is_code 45 c

-- What follows a first line of word characters.
abbrev after_word_line : String → Option String
after_word_line empty_text = none
after_word_line (text_cons c s) =
    let later = after_word_line s in
    if is_code 10 c then some s else if is_word c then later else none

-- `re.sub(r"^[A-Za-z0-9_\-]+\n", "", t)`
abbrev drop_language : String → String
drop_language empty_text = empty_text
drop_language (text_cons c s) =
    let whole : String = text_cons c s in
    if is_word c then or_default (after_word_line s) whole else whole

-- `_strip_code_fences`
unfoldable pub strip_code_fences : String → String
unfolding strip after_prefix first_chars skip_chars
strip_code_fences s =
    let t = strip s in
    let inner = strip (first_chars (char_count t - 6) (skip_chars 3 t)) in
    if is_some (after_prefix "```" t) && ends_with "```" t
    then strip (drop_language inner)
    else strip t

module _ (tools : JsonTools) where
  -- `_try_parse_object` of inbox_dispatcher.py, without its warnings: an object that is strict JSON, or is
  -- after repairs, or is a Python literal.
  unfoldable pub parse_lenient : String → Option (Dict Value)
  unfolding strip
  parse_lenient raw =
      let fixed = tools.drop_trailing_commas (tools.quote_keys (strip raw)) in
      let literal = tools.literal_eval fixed >>= as_dict in
      let repaired : Option (Dict Value) = elim (tools.loads fixed) [
        | some v ↦ as_dict v
        | none ↦ literal
      ] in
      let parsed : Option (Dict Value) = elim (tools.loads raw) [
        | some v ↦ as_dict v
        | none ↦ repaired
      ] in
      if is_empty (strip raw) then none else parsed

  abbrev in_braces : String → String
  in_braces s = append_text "{" (append_text s "}")

  -- `_try_parse_object` of json_decision_router.py, which also adds braces and colons, and goes on when
  -- the JSON is no object.
  unfoldable pub parse_decision : String → Option (Dict Value)
  unfolding strip_code_fences strip after_prefix contains_text
  parse_decision s =
      let raw = strip_code_fences s in
      let bare = strip raw in
      let pairs =
        contains_text "decision" bare
        || contains_text "query" bare
        || contains_text "filters" bare in
      let wrapped =
        if not (is_some (after_prefix "{" bare)) && pairs then in_braces bare else bare in
      let colons =
        if contains_text "=" wrapped && not (contains_text ":" wrapped)
        then tools.colons_for_equals wrapped
        else wrapped in
      let fixed = tools.drop_trailing_commas (tools.quote_keys colons) in
      let literal = tools.literal_eval fixed >>= as_dict in
      let repaired : Option (Dict Value) = elim (tools.loads fixed >>= as_dict) [
        | some d ↦ some d
        | none ↦ literal
      ] in
      let parsed : Option (Dict Value) = elim (tools.loads raw >>= as_dict) [
        | some d ↦ some d
        | none ↦ repaired
      ] in
      if is_empty raw then none else parsed
