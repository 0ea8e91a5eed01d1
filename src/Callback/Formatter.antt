-- ===== src/Callback/Formatter.antt =====
-- work_callback/formatter.py: what a client is shown of a trace event.
pub mod Laws
use Prim.Native.String.{◌++◌ as append_text}
use local_ai_rag.Prelude.{
  String, ℕ, ◌-◌, leb, Bool, true, false, not, ◌&&◌, ◌||◌, Option, none, some, List, [], ◌∷◌, ◌++◌,
  if◌then◌else◌, ◌==◌, or_default,
}
use local_ai_rag.Prelude.Int.{pos}
use local_ai_rag.Text.{is_empty, strip}
use local_ai_rag.Text.Chars.{char_count, first_chars}
use local_ai_rag.Dict.{Dict, get, contains}
use local_ai_rag.Value.{
  Value, null, flag, num, text, items, object, to_list, of_list, of_dict, as_dict, lookup,
  str_or_empty, value_or, truthy, Builtins,
}
use local_ai_rag.Callback.Policy.{CallbackPolicy, default_callback_policy}

-- `event.get(key) if isinstance(event.get(key), dict) else {}`
abbrev pub part : String → Dict Value → Dict Value
unfolding lookup
part key event = or_default (as_dict (lookup key event)) []

-- `_truncate`
unfoldable pub truncate : String → ℕ → String
unfolding first_chars
truncate s limit =
    if leb (char_count s) limit then s else append_text (first_chars (limit - 3) s) "..."

abbrev is_blank : Value → Bool
unfolding strip
is_blank null = true
is_blank (text s) = is_empty (strip s)
is_blank v = false

-- `_compact`
unfoldable pub compact : Dict Value → Dict Value
unfolding strip
compact [] = []
compact ((k, v) ∷ d) = let rest = compact d in if is_blank v then rest else (k, v) ∷ rest

-- `_is_stage_visible`
unfoldable pub is_stage_visible : Dict Value → CallbackPolicy → Bool
unfolding get lookup
is_stage_visible event policy =
    let mode =
      if is_empty policy.stage_visibility_mode then "allowed" else policy.stage_visibility_mode in
    let step = part "step" event in
    let marked =
      if contains "stages_visible" step
      then lookup "stages_visible" step
      else lookup "stages_visible" event in
    let shown : Bool = elim marked [ flag true ↦ true | v ↦ false ] in
    if mode == "forbidden" then false else if mode == "explicit" then shown else true

-- The captions of an event that are there.
unfoldable pub captions : String → String → Dict Value
captions caption translated =
    (if is_empty caption then [] else ("caption", text caption) ∷ [])
    ++ (if is_empty translated then [] else ("caption_translated", text translated) ∷ [])

abbrev pub caption_or : String → String → String
caption_or s t = if is_empty s then t else s

-- What `_summarize_step_event` gives.
pub record Summary : Type 0 where
  pub summary : String
  pub translated : String
  pub details : Dict Value
  pub docs : List Value

-- The documents of a step, where the policy includes them.
unfoldable pub docs_part : CallbackPolicy → List Value → Dict Value
docs_part policy [] = []
docs_part policy (d ∷ ds) =
    if policy.include_documents then ("docs", items (of_list (d ∷ ds))) ∷ [] else []

module _ ⦃py : Builtins⦄ where
  -- What every summary of a queue event holds.
  unfoldable pub queue_fields : Dict Value → String → String → String → Dict Value
  unfolding compact lookup
  queue_fields event event_type caption translated =
      let enqueued = event_type == "ENQUEUE" in
      let details =
        if enqueued
        then ("topic", lookup "topic" event)
          ∷ ("target_step_id", lookup "target_step_id" event)
          ∷ ("sender_step_id", lookup "sender_step_id" event)
          ∷ []
        else ("consumer_step_id", lookup "consumer_step_id" event)
          ∷ ("count", lookup "count" event)
          ∷ [] in
      ("type", text (py.lower event_type))
      ∷ ("ts", lookup "ts_utc" event)
      ∷ ("run_id", lookup "run_id" event)
      ∷ ("summary", text (caption_or caption (if enqueued then "Inbox" else "Consume")))
      ∷ (
        "summary_translated",
        text (caption_or translated (if enqueued then "Skrzynka" else "Konsumpcja")),
      )
      ∷ ("details", object (of_dict (compact details)))
      ∷ []

  -- `_summarize_queue_event`
  unfoldable pub summarize_queue_event : Dict Value → String → String → String → Dict Value
  unfolding queue_fields captions
  summarize_queue_event event event_type caption translated =
      queue_fields event event_type caption translated ++ captions caption translated

  -- One document of `_extract_docs`.
  unfoldable pub doc_of : Dict Value → Option Value
  unfolding lookup truthy str_or_empty truncate
  doc_of item =
      let id =
        str_or_empty
          (value_or (value_or (lookup "id" item) (lookup "node_id" item)) (lookup "key" item)) in
      let content = str_or_empty (
        value_or
          (value_or
            (value_or (value_or (lookup "text" item) (lookup "chunk" item)) (lookup "content" item))
            (lookup "md" item))
          (lookup "markdown" item)) in
      if is_empty content
      then none
      else some (
          object (
            of_dict (
              ("id", text (caption_or id "doc"))
              ∷ ("depth", lookup "depth" item)
              ∷ ("text_len", num (pos (char_count content)))
              ∷ ("preview", text (truncate content 280))
              ∷ ("markdown", text (truncate content 12000))
              ∷ [])))

  abbrev docs_in : List Value → List Value
  unfolding doc_of
  docs_in [] = []
  docs_in (v ∷ vs) = elim (as_dict v) [
    | none ↦ docs_in vs
    | some item ↦ elim (doc_of item) [ none ↦ docs_in vs | some d ↦ d ∷ docs_in vs ]
  ]

  -- `_extract_docs`
  unfoldable pub extract_docs : Value → List Value
  unfolding doc_of
  extract_docs (items vs) = docs_in (to_list vs)
  extract_docs v = []

  -- `_summarize_step_event`
  unfoldable pub summarize_step_event : Value → Dict Value → Dict Value → Summary
  unfolding compact extract_docs str_or_empty lookup truncate
  summarize_step_event action_id in_data out_data =
      let action = str_or_empty action_id in
      if action == "search_nodes"
      then record {
        summary = "Retrieval";
        translated = "Pobieranie";
        details = compact (
            ("search_type", lookup "search_type" in_data)
            ∷ ("top_k", lookup "top_k" in_data)
            ∷ ("query", text (truncate (str_or_empty (lookup "query_effective" in_data)) 180))
            ∷ ("hits", lookup "retrieval_hits_count" out_data)
            ∷ []);
        docs = [];
      }
      else if action == "fetch_node_texts"
      then record {
        summary = "Context materialization";
        translated = "Budowanie kontekstu";
        details = compact (("node_texts_count", lookup "node_texts_count" out_data) ∷ []);
        docs = extract_docs (lookup "node_texts" out_data);
      }
      else if action == "manage_context_budget"
      then record {
        summary = "Context budget";
        translated = "Budzet kontekstu";
        details = compact (
            ("context_blocks", lookup "context_blocks_count" out_data)
            ∷ ("context_tokens", lookup "context_tokens" out_data)
            ∷ []);
        docs = [];
      }
      else if action == "call_model"
      then record {
        summary = "Model call";
        translated = "Wywolanie modelu";
        details = compact (
            ("prompt", lookup "prompt_name" in_data)
            ∷ ("max_output_tokens", lookup "max_output_tokens" in_data)
            ∷ []);
        docs = [];
      }
      else record {
        summary = caption_or action "step";
        translated = caption_or action "step";
        details = [];
        docs = [];
      }

  -- What every summary of a step holds.
  unfoldable pub step_fields : Dict Value → Value → Value → String → String → Summary → Dict Value
  unfolding lookup
  step_fields event step_id action_id caption translated s =
      ("type", text "step")
      ∷ ("ts", lookup "ts_utc" event)
      ∷ ("run_id", lookup "run_id" event)
      ∷ ("step_id", step_id)
      ∷ ("action_id", action_id)
      ∷ ("summary", text (caption_or caption s.summary))
      ∷ ("summary_translated", text (caption_or translated s.translated))
      ∷ ("details", object (of_dict s.details))
      ∷ []

  -- The summary of a step, or `none` for an event that names neither a step nor an action.
  unfoldable pub summarize_step :
      Dict Value → CallbackPolicy → String → String → Option (Dict Value)
  unfolding summarize_step_event step_fields captions docs_part lookup truthy
  summarize_step event policy caption translated =
      let step_id = lookup "id" (part "step" event) in
      let action_id =
        value_or (lookup "action_id" (part "action" event)) (lookup "action" (part "step" event)) in
      let s = summarize_step_event action_id (part "in" event) (part "out" event) in
      if not (truthy step_id || truthy action_id)
      then none
      else some (
          step_fields event step_id action_id caption translated s
          ++ (captions caption translated ++ docs_part policy s.docs))

  -- `summarize_trace_event_for_ui`
  unfoldable pub summarize_trace_event_for_ui :
      Dict Value → Option CallbackPolicy → Option (Dict Value)
  unfolding is_stage_visible summarize_queue_event summarize_step str_or_empty lookup
  summarize_trace_event_for_ui event given =
      let policy = or_default given default_callback_policy in
      let meta = part "callback" event in
      let caption = str_or_empty (lookup "caption" meta) in
      let translated = str_or_empty (lookup "caption_translated" meta) in
      let event_type = py.upper (str_or_empty (lookup "event_type" event)) in
      if not policy.enabled || not (is_stage_visible event policy)
      then none
      else if event_type == "ENQUEUE" || event_type == "CONSUME"
      then some (summarize_queue_event event event_type caption translated)
      else summarize_step event policy caption translated
