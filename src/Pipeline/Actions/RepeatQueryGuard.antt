-- ===== src/Pipeline/Actions/RepeatQueryGuard.antt =====
-- actions/repeat_query_guard.py: a retrieval query is not asked twice in a run. What a named query
-- parser makes of the payload is an argument, `none` for an unknown parser.
pub mod Laws
use Prim.Native.String.{[] as empty_text, ◌∷◌ as text_cons, ◌++◌ as append_text}
use local_ai_rag.Prelude.{
  String, Bool, ◌||◌, Option, none, some, List, [], ◌∷◌, if◌then◌else◌, ◌==◌,
}
use local_ai_rag.Text.{is_empty, is_space, strip, strip_opt}
use local_ai_rag.Value.{Value, Builtins, text, lookup, str_or_empty}
use local_ai_rag.Pipeline.Result.{Result, ok, err, value_error}
use local_ai_rag.Pipeline.Definitions.{StepDef}
use local_ai_rag.Pipeline.State.{State}
use local_ai_rag.Pipeline.Inbox.{Action}
use local_ai_rag.Pipeline.Validator.Rules.{elem}

abbrev flush : String → List String → List String
flush word words = if is_empty word then words else word ∷ words

-- The word that a text begins with, which is empty at a space, and the words behind it.
first_word : String → String × List String
unfolding is_space
first_word empty_text = (empty_text, [])
first_word (text_cons c s) =
    let (word, words) = first_word s in
    if is_space c then (empty_text, flush word words) else (text_cons c word, words)

-- `s.split()`
unfoldable pub split_words : String → List String
unfolding first_word
split_words s = let (word, words) = first_word s in flush word words

-- `" ".join(words)`
unfoldable pub join_words : List String → String
join_words [] = ""
join_words (w ∷ []) = w
join_words (w ∷ v ∷ ws) = append_text w (append_text " " (join_words (v ∷ ws)))

abbrev pub is_repeat : String → List String → Bool
is_repeat qn asked = is_empty qn || elem qn asked

module _ ⦃py : Builtins⦄ where
  -- `_norm`
  unfoldable pub norm : String → String
  unfolding split_words join_words strip
  norm q = join_words (split_words (py.lower (strip q)))

  unfoldable pub next_mode_constraint : Option String → String
  unfolding strip_opt
  next_mode_constraint last_search_type =
      let st = py.lower (strip_opt last_search_type) in
      if st == "hybrid"
      then "Do NOT use search_type=\"hybrid\" in the next retrieve decision. Use search_type=\"semantic\"."
      else if st == "semantic"
      then "Do NOT use search_type=\"semantic\" in the next retrieve decision. Use search_type=\"hybrid\"."
      else if st == "bm25"
      then "Do NOT use search_type=\"bm25\" in the next retrieve decision. Use search_type=\"semantic\"."
      else ""

  abbrev parsed : Option (String → String) → String → Result String
  parsed none payload = err (value_error "repeat_query_guard: Unknown query_parser")
  parsed (some parse) payload = ok (strip (parse payload))

  -- `_parse_payload`: the query alone.
  unfoldable pub parse_payload :
      (String → Option (String → String)) → StepDef → String → Result String
  unfolding str_or_empty strip lookup
  parse_payload parsers step payload =
      let name = str_or_empty (lookup "query_parser" step.raw) in
      if is_empty name then ok (strip payload) else parsed (parsers name) payload

  abbrev pub route_query : String → String → Result String → State → Result Value × State
  route_query on_ok on_repeat (err e) s = (err e, s)
  route_query on_ok on_repeat (ok query) s =
      if is_repeat (norm query) s.retrieval_queries_asked_norm
      then (
        ok (text on_repeat),
        record s { sufficiency_search_mode_constraint = next_mode_constraint s.last_search_type },
      )
      else (ok (text on_ok), record s { sufficiency_search_mode_constraint = "" })

  unfoldable pub repeat_query_guard : (String → Option (String → String)) → Action
  unfolding norm next_mode_constraint parse_payload elem str_or_empty strip_opt lookup
  repeat_query_guard parsers step s =
      let on_ok = str_or_empty (lookup "on_ok" step.raw) in
      let on_repeat = str_or_empty (lookup "on_repeat" step.raw) in
      if is_empty on_ok
      then (err (value_error "repeat_query_guard: on_ok is required"), s)
      else if is_empty on_repeat
      then (err (value_error "repeat_query_guard: on_repeat is required"), s)
      else route_query on_ok on_repeat
          (parse_payload parsers step (strip_opt s.last_model_response)) s
