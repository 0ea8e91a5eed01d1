-- ===== src/Tests/Formatter.antt =====
-- A trace event of a step that fetched one text, under a policy without documents and under one with them.
use local_ai_rag.Prelude.{◌≡◌, refl, true, false, none, some, is_some, [], ◌∷◌, or_default}
use local_ai_rag.Dict.{Dict, get}
use local_ai_rag.Value.{Value, text, items, object, cons, nil, of_dict}
use local_ai_rag.Callback.Policy.{CallbackPolicy, default_callback_policy}
use local_ai_rag.Callback.Formatter.{truncate, is_stage_visible, summarize_trace_event_for_ui}
use local_ai_rag.Callback.Formatter.Laws.{HidesDocs, summarize_trace_event_for_ui-HidesDocs}
use local_ai_rag.Tests.Fixtures.{plain}

abbrev fetched : Dict Value
fetched =
    ("step", object (of_dict (("id", text "fetch") ∷ [])))
    ∷ ("action", object (of_dict (("action_id", text "fetch_node_texts") ∷ [])))
    ∷ (
      "out",
      object (
          of_dict (
            (
              "node_texts",
              items (cons (object (of_dict (("id", text "n1") ∷ ("text", text "code") ∷ []))) nil),
            )
            ∷ [])),
    )
    ∷ []

abbrev without_docs : CallbackPolicy
without_docs = record default_callback_policy { include_documents = false }

abbrev with_docs : CallbackPolicy
with_docs = record default_callback_policy { include_documents = true }

abbrev shown : CallbackPolicy → Dict Value
unfolding summarize_trace_event_for_ui
shown policy = or_default (summarize_trace_event_for_ui ⦃py = plain⦄ fetched (some policy)) []

truncated : (truncate "abcdef" 5 ≡ "ab...") × (truncate "abcde" 5 ≡ "abcde")
unfolding truncate
truncated = (refl, refl)

docs_hidden : get "docs" (shown without_docs) ≡ none
unfolding get summarize_trace_event_for_ui
docs_hidden = refl

docs_shown : is_some (get "docs" (shown with_docs)) ≡ true
unfolding get summarize_trace_event_for_ui
docs_shown = refl

docless_run :
    summarize_trace_event_for_ui ⦃py = plain⦄ fetched (some without_docs)
    ≡ some (shown without_docs)
unfolding summarize_trace_event_for_ui
docless_run = refl

summarize_trace_event_for_ui-HidesDocs_example :
    (without_docs.enabled ≡ true)
    × (is_stage_visible fetched without_docs ≡ true)
    × HidesDocs without_docs (shown without_docs)
summarize_trace_event_for_ui-HidesDocs_example =
    summarize_trace_event_for_ui-HidesDocs ⦃py = plain⦄ fetched (some without_docs)
      (shown without_docs) docless_run
