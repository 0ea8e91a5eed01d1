-- ===== src/Callback/Formatter/Laws.antt =====
-- work_callback/formatter.py: a client is shown nothing that the policy hides.
use local_ai_rag.Prelude.{
  String, ◌≡◌, refl, sym, ap, ◌∙◌, ◌⊎◌, inl, inr, Bool, true, false, not, ◌||◌, Option, none, some,
  List, [], ◌∷◌, ◌++◌, Bool-cases, or_default, some-injective, subst, ◌==◌, arith,
}
use local_ai_rag.Text.{is_empty}
use local_ai_rag.Dict.{Dict, get}
use local_ai_rag.Value.{Value, lookup, str_or_empty, value_or, truthy, Builtins}
use local_ai_rag.Callback.Policy.{CallbackPolicy, default_callback_policy}
use local_ai_rag.Callback.Formatter.{
  part, captions, docs_part, is_stage_visible, Summary, summarize_step_event, summarize_queue_event,
  queue_fields, step_fields, summarize_step, summarize_trace_event_for_ui,
}

-- A key that the first list does not have is looked up in the second.
get-append : (k : String) (d e : Dict Value) → get k d ≡ none → get k (d ++ e) ≡ get k e
unfolding get
get-append k [] e h = refl
get-append k ((j, v) ∷ d) e h = elim (Bool-cases (j == k)) [
  | inl same ↦ cc (rw (same, get) at h)
  | inr other ↦ rw other (get-append k d e (rw (other, get) at h))
]

captions-docs : (caption translated : String) → get "docs" (captions caption translated) ≡ none
unfolding captions get
captions-docs caption translated = elim (Bool-cases (is_empty caption)) [
  | inl no_caption ↦ elim (Bool-cases (is_empty translated)) [
    | inl e ↦ rw (captions, no_caption, e) refl
    | inr e ↦ rw (captions, no_caption, e) refl
  ]
  | inr has_caption ↦ elim (Bool-cases (is_empty translated)) [
    | inl e ↦ rw (captions, has_caption, e) refl
    | inr e ↦ rw (captions, has_caption, e) refl
  ]
]

-- There are no documents unless the policy includes them.
abbrev pub HidesDocs : CallbackPolicy → Dict Value → Type 0
HidesDocs policy payload = (policy.include_documents ≡ true) ⊎ (get "docs" payload ≡ none)

docs_part-HidesDocs :
    (policy : CallbackPolicy) (docs : List Value) → HidesDocs policy (docs_part policy docs)
unfolding docs_part get
docs_part-HidesDocs policy [] = inr refl
docs_part-HidesDocs policy (d ∷ ds) = elim (Bool-cases policy.include_documents) [
  | inl yes_docs ↦ inl yes_docs
  | inr no_docs ↦ inr (rw (no_docs, docs_part) refl)
]

none-shown : (a b : Bool) → (not a || not b) ≡ false → (a ≡ true) × (b ≡ true)
none-shown a b h = ground arith

module _ ⦃py : Builtins⦄ where
  summarize_queue_event-HidesDocs :
      (policy : CallbackPolicy) (event : Dict Value) (event_type caption translated : String)
      → HidesDocs policy (summarize_queue_event event event_type caption translated)
  unfolding summarize_queue_event queue_fields get
  summarize_queue_event-HidesDocs policy event event_type caption translated = inr (
      get-append "docs" (queue_fields event event_type caption translated)
        (captions caption translated) refl
      ∙ captions-docs caption translated)

  summarize_step-HidesDocs :
      (policy : CallbackPolicy) (event : Dict Value) (caption translated : String)
      (payload : Dict Value)
      → summarize_step event policy caption translated ≡ some payload
      → HidesDocs policy payload
  unfolding summarize_step step_fields get
  summarize_step-HidesDocs policy event caption translated payload h =
      let step_id = lookup "id" (part "step" event) in
      let action_id =
        value_or (lookup "action_id" (part "action" event)) (lookup "action" (part "step" event)) in
      let s : Summary = summarize_step_event action_id (part "in" event) (part "out" event) in
      elim (Bool-cases (not (truthy step_id || truthy action_id))) [
        | inl nameless ↦ cc (rw (nameless, summarize_step) at h)
        | inr named ↦
            let made = some-injective (rw (named, summarize_step) at h) in
            elim (docs_part-HidesDocs policy s.docs) [
              | inl included ↦ inl included
              | inr no_docs ↦ inr (
                  ap (get "docs") (sym made)
                  ∙ get-append "docs" (step_fields event step_id action_id caption translated s)
                      (captions caption translated ++ docs_part policy s.docs) refl
                  ∙ get-append "docs" (captions caption translated) (docs_part policy s.docs)
                      (captions-docs caption translated)
                  ∙ no_docs)
            ]
      ]

  -- Where `summarize_trace_event_for_ui` shows a client anything of an event, its policy (the default one
  -- where none is given) is enabled and lets the event's stage be seen, and what is shown holds documents
  -- only if the policy includes them.
  pub summarize_trace_event_for_ui-HidesDocs :
      (event : Dict Value) (given : Option CallbackPolicy) (payload : Dict Value)
      → summarize_trace_event_for_ui event given ≡ some payload
      → (let policy = or_default given default_callback_policy in
          (policy.enabled ≡ true)
          × (is_stage_visible event policy ≡ true)
          × HidesDocs policy payload)
  unfolding summarize_trace_event_for_ui
  summarize_trace_event_for_ui-HidesDocs event given payload h =
      let policy : CallbackPolicy = or_default given default_callback_policy in
      let event_type : String = py.upper (str_or_empty (lookup "event_type" event)) in
      let caption : String = str_or_empty (lookup "caption" (part "callback" event)) in
      let translated : String =
        str_or_empty (lookup "caption_translated" (part "callback" event)) in
      elim (Bool-cases (not policy.enabled || not (is_stage_visible event policy))) [
        | inl hidden ↦ cc (rw (hidden, summarize_trace_event_for_ui) at h)
        | inr shown ↦
            let (on, visible) = none-shown policy.enabled (is_stage_visible event policy) shown in
            elim (Bool-cases (event_type == "ENQUEUE" || event_type == "CONSUME")) [
              | inl queued ↦
                  let made =
                    some-injective (rw (shown, queued, summarize_trace_event_for_ui) at h) in
                  (
                    on,
                    visible,
                    subst (HidesDocs policy) made (
                        summarize_queue_event-HidesDocs policy event event_type caption translated),
                  )
              | inr stepped ↦
                  let rest = rw (shown, stepped, summarize_trace_event_for_ui) at h in
                  (
                    on,
                    visible,
                    summarize_step-HidesDocs policy event caption translated payload rest,
                  )
            ]
      ]
