-- ===== src/Pipeline/Actions/RepeatQueryGuard/Laws.antt =====
-- Which queries the guard lets pass, and which it sends back.
use local_ai_rag.Prelude.{
  String, true, false, Option, List, ◌≡◌, ◌≢◌, ◌⊎◌, refl, Bool-cases, inl, inr, All,
}
use local_ai_rag.Prelude.Any.{Any}
use local_ai_rag.Text.{is_empty, strip_opt}
use local_ai_rag.Value.{Value, Builtins, text, lookup, str_or_empty}
use local_ai_rag.Pipeline.Result.{Result, ok}
use local_ai_rag.Pipeline.Definitions.{StepDef}
use local_ai_rag.Pipeline.State.{State}
use local_ai_rag.Pipeline.Validator.Rules.{elem}
use local_ai_rag.Pipeline.Validator.Rules.Elem.{elem-Any, not-elem-All}
use local_ai_rag.Pipeline.Actions.RepeatQueryGuard.{
  norm, parse_payload, route_query, is_repeat, next_mode_constraint, repeat_query_guard,
}

-- A normal form that is not empty and differs from all that were asked.
abbrev pub IsNew : String → List String → Type 0
IsNew qn asked = (is_empty qn ≡ false) × All (λ a. a ≢ qn) asked

-- A normal form that is empty or one of those that were asked.
abbrev pub IsOld : String → List String → Type 0
IsOld qn asked = (is_empty qn ≡ true) ⊎ Any (λ a. a ≡ qn) asked

is_repeat-cases :
    (qn : String) (asked : List String)
    → ((is_repeat qn asked ≡ true) × IsOld qn asked)
      ⊎ ((is_repeat qn asked ≡ false) × IsNew qn asked)
is_repeat-cases qn asked = elim (Bool-cases (is_empty qn)) [
  | inl empty ↦ inl (rw empty refl, inl empty)
  | inr filled ↦ elim (Bool-cases (elem qn asked)) [
    | inl there ↦ inl (rw (filled, there) refl, inr (elem-Any qn asked there))
    | inr absent ↦ inr (rw (filled, absent) refl, (filled, not-elem-All qn asked absent))
  ]
]

module _ ⦃py : Builtins⦄ where
  -- What the guard answers for a query, and what it leaves behind.
  abbrev pub Decided : String → String → String → State → Result Value × State → Type 0
  Decided on_ok on_repeat q s r =
      (IsNew (norm q) s.retrieval_queries_asked_norm
        × (r ≡ (ok (text on_ok), record s { sufficiency_search_mode_constraint = "" })))
      ⊎ (IsOld (norm q) s.retrieval_queries_asked_norm
          × (r ≡ (
            ok (text on_repeat),
            record s {
              sufficiency_search_mode_constraint = next_mode_constraint s.last_search_type;
            },
          )))

  route_query-Decided :
      (on_ok on_repeat q : String) (s : State)
      → Decided on_ok on_repeat q s (route_query on_ok on_repeat (ok q) s)
  route_query-Decided on_ok on_repeat q s =
      elim (is_repeat-cases (norm q) s.retrieval_queries_asked_norm) [
        | inl (repeated, old) ↦ inr (old, rw (repeated, is_repeat) refl)
        | inr (fresh, new) ↦ inl (new, rw (fresh, is_repeat) refl)
      ]

  -- Where both steps that the guard can name are set and the parser gives a query, the guard answers with the one
  -- for new queries if the query's normal form is not empty and differs from all that were asked in the run,
  -- and with the other one if it is empty or one of these. In the first case it lifts the constraint on
  -- the next search, in the second it sets that of the last search's type, and it changes nothing else.
  pub repeat_query_guard-Decided :
      (parsers : String → Option (String → String)) (step : StepDef) (s : State) (q : String)
      → is_empty (str_or_empty (lookup "on_ok" step.raw)) ≡ false
      → is_empty (str_or_empty (lookup "on_repeat" step.raw)) ≡ false
      → parse_payload parsers step (strip_opt s.last_model_response) ≡ ok q
      → Decided
          (str_or_empty (lookup "on_ok" step.raw))
          (str_or_empty (lookup "on_repeat" step.raw))
          q
          s
          (repeat_query_guard parsers step s)
  unfolding repeat_query_guard
  repeat_query_guard-Decided parsers step s q given given' parsed =
      rw (given, given', parsed, repeat_query_guard)
        (route_query-Decided (str_or_empty (lookup "on_ok" step.raw))
          (str_or_empty (lookup "on_repeat" step.raw)) q s)
